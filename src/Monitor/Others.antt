-- ===== src/Monitor/Others.antt =====
-- vm/monitors.c: an operation on one object, seen from another.
use b_jvm.Common.{
  ℕ, ◌+◌, ◌-◌, ◌≡◌, ◌≢◌, refl, ◌∙◌, Bool, true, false, Option, none, some, ◌==◌, arith, Bool-cases,
  inl, inr, u32,
}
use b_jvm.Scheduler.{WakeupInfo}
use b_jvm.Monitor.{
  MonitorData, HeaderWord, World, store, try_acquire, new_monitor, acquire_header, monitor_acquire,
  try_reacquire, reacquire_header, monitor_reacquire_hold_count, resume_acquire, let_go,
  release_all_header, monitor_release_all_hold_count, release_header, monitor_release, no_wakeup,
}
use b_jvm.Monitor.Owner.{Action, perform}
use b_jvm.Monitor.Refine.{update_ne}

-- An operation leaves the headers of all other objects alone.
store-other :
    (obj q : ℕ) (d : MonitorData) (w : World) → q ≢ obj → (store obj d w).headers q ≡ w.headers q
store-other obj q d w ne = update_ne w.headers obj q (HeaderWord.expanded_data d) ne

try_acquire-other :
    (u obj q m : ℕ) (o : Option ℕ) (c : ℕ) (self : WakeupInfo) (w : World)
    → q ≢ obj
    → (try_acquire u obj self (record { mark_word = m; tid = o; hold_count = c }) w).1.headers q
      ≡ w.headers q
unfolding try_acquire
try_acquire-other u obj q m none c self w ne =
    store-other obj q (record { mark_word = m; tid = some u; hold_count = 1 }) w ne
try_acquire-other u obj q m (some o) c self w ne = elim (Bool-cases (o == u)) [
  | inl mine ↦
      rw mine
        (store-other obj q (record { mark_word = m; tid = some o; hold_count = u32 (c + 1) }) w ne)
  | inr other ↦ rw other refl
]

acquire_header-other :
    (room : Bool) (u obj q : ℕ) (h : HeaderWord) (w : World)
    → q ≢ obj
    → (acquire_header room u obj h w).1.headers q ≡ w.headers q
unfolding acquire_header
acquire_header-other true u obj q (HeaderWord.mark_word m) w ne =
    store-other obj q (record { mark_word = m; tid = some u; hold_count = 1 })
      (store obj (new_monitor m) w) ne
    ∙ store-other obj q (new_monitor m) w ne
acquire_header-other false u obj q (HeaderWord.mark_word m) w ne = refl
acquire_header-other room u obj q (HeaderWord.expanded_data d) w ne =
    try_acquire-other u obj q d.mark_word d.tid d.hold_count no_wakeup w ne

release_header-other :
    (u obj q : ℕ) (h : HeaderWord) (w : World)
    → q ≢ obj
    → (release_header u obj h w).1.headers q ≡ w.headers q
unfolding release_header let_go
release_header-other u obj q (HeaderWord.mark_word m) w ne = refl
release_header-other u obj q (HeaderWord.expanded_data d) w ne = ground (
  arith,
  store-other obj q (record d { hold_count = d.hold_count - 1 }) w ne,
  store-other obj q (record d { tid = none; hold_count = 0 }) w ne,
)

release_all_header-other :
    (u obj q : ℕ) (h : HeaderWord) (w : World)
    → q ≢ obj
    → (release_all_header u obj h w).1.headers q ≡ w.headers q
unfolding release_all_header let_go
release_all_header-other u obj q (HeaderWord.mark_word m) w ne = refl
release_all_header-other u obj q (HeaderWord.expanded_data d) w ne =
    ground (arith, store-other obj q (record d { tid = none; hold_count = 0 }) w ne)

reacquire_header-other :
    (n u obj q : ℕ) (self : WakeupInfo) (h : HeaderWord) (w : World)
    → q ≢ obj
    → (reacquire_header u obj n self h w).1.headers q ≡ w.headers q
unfolding reacquire_header try_reacquire
reacquire_header-other n u obj q self (HeaderWord.mark_word m) w ne = refl
reacquire_header-other n u obj q self (HeaderWord.expanded_data d) w ne =
    ground (arith, store-other obj q (record d { tid = some u; hold_count = n }) w ne)

pub perform-other :
    (a : Action) (u obj q : ℕ) (w : World) → q ≢ obj → (perform a u obj w).1.headers q ≡ w.headers q
unfolding perform monitor_acquire monitor_release monitor_release_all_hold_count
    monitor_reacquire_hold_count
perform-other (Action.acquire room) u obj q w ne =
    acquire_header-other room u obj q (w.headers obj) w ne
perform-other Action.release u obj q w ne = release_header-other u obj q (w.headers obj) w ne
perform-other Action.release_all u obj q w ne =
    release_all_header-other u obj q (w.headers obj) w ne
perform-other (Action.reacquire n) u obj q w ne =
    reacquire_header-other n u obj q no_wakeup (w.headers obj) w ne
perform-other Action.query u obj q w ne = refl

pub resume_acquire-other :
    (u obj q : ℕ) (self : WakeupInfo) (w : World)
    → q ≢ obj
    → (resume_acquire u obj self w).1.headers q ≡ w.headers q
unfolding resume_acquire
resume_acquire-other u obj q self w ne = resumed (w.headers obj) refl
  where
    resumed :
        (h : HeaderWord)
        → w.headers obj ≡ h
        → (resume_acquire u obj self w).1.headers q ≡ w.headers q
    resumed (HeaderWord.mark_word m) e = rw (resume_acquire, e) refl
    resumed (HeaderWord.expanded_data d) e =
        rw (resume_acquire, e) (try_acquire-other u obj q d.mark_word d.tid d.hold_count self w ne)
