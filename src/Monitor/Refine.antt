-- ===== src/Monitor/Refine.antt =====
-- vm/monitors.c: each operation against the lock of the specification.
use b_jvm.Common.{
  ℕ, ◌+◌, ◌-◌, ◌^◌, ◌<◌, ◌≡◌, ◌≢◌, refl, ap, ◌∙◌, Bool, true, false, Option, none, some, ◌==◌, u32,
  arith, Bool-cases, inl, inr,
}
use b_jvm.Monitor.{
  MonitorData, HeaderWord, World, update, store, try_acquire, new_monitor, acquire_header,
  monitor_acquire, try_reacquire, reacquire_header, monitor_reacquire_hold_count,
  current_thread_hold_count, held_count, let_go, release_all_header, monitor_release_all_hold_count,
  release_header, monitor_release, no_wakeup,
}
use b_jvm.Monitor.Owner.{
  Lock, owner, Action, Answer, answering, counting, lock_step, perform, weight, IsWithin,
}

pub update_self : (f : ℕ → HeaderWord) (o : ℕ) (a : HeaderWord) → update f o a o ≡ a
update_self f o a = let same : (o == o) ≡ true = ground arith in rw same refl

pub update_ne : (f : ℕ → HeaderWord) (o p : ℕ) (a : HeaderWord) → p ≢ o → update f o a p ≡ f p
update_ne f o p a ne = let other : (p == o) ≡ false = ground arith in rw other refl

-- The answer and the lock are the specification's, and the other objects are left alone.
pub record Meets (w : World) (obj : ℕ) (got : Answer × World) (want : Answer × Lock) : Type 0 where
  pub answers : got.0 ≡ want.0
  pub locks : owner (got.1.headers obj) ≡ want.1
  pub others : (p : ℕ) → p ≢ obj → got.1.headers p ≡ w.headers p

stays :
    (w : World) (obj : ℕ) (a : Answer) (l : Lock)
    → owner (w.headers obj) ≡ l
    → Meets w obj (a, w) (a, l)
stays w obj a l e = record { answers = refl; locks = e; others = λ p ne. refl }

stored :
    (w : World) (obj : ℕ) (a : Answer) (d : MonitorData)
    → Meets w obj (a, store obj d w) (a, owner (HeaderWord.expanded_data d))
stored w obj a d = record {
  answers = refl;
  locks = ap owner (update_self w.headers obj (HeaderWord.expanded_data d));
  others = λ p ne. update_ne w.headers obj p (HeaderWord.expanded_data d) ne;
}

stored_twice :
    (w : World) (obj : ℕ) (a : Answer) (c d : MonitorData)
    → Meets w obj (a, store obj d (store obj c w)) (a, owner (HeaderWord.expanded_data d))
stored_twice w obj a c d = record {
  answers = refl;
  locks = (stored (store obj c w) obj a d).locks;
  others = λ p ne. (stored (store obj c w) obj a d).others p ne ∙ (stored w obj a c).others p ne;
}

gone :
    (w : World) (obj : ℕ) (a : Answer) (d : MonitorData)
    → Meets w obj (a, let_go obj d w) (a, Lock.free)
unfolding let_go
gone w obj a d =
    let freed = stored w obj a (record d { tid = none; hold_count = 0 }) in
    record { answers = refl; locks = freed.locks; others = freed.others }

acquire_data :
    (room : Bool) (t obj bound m : ℕ) (o : Option ℕ) (c : ℕ) (w : World)
    → let d : MonitorData = record { mark_word = m; tid = o; hold_count = c } in
      owner (w.headers obj) ≡ owner (HeaderWord.expanded_data d)
      → IsWithin bound (owner (HeaderWord.expanded_data d))
      → bound + 1 < 2 ^ 32
      → Meets w obj
          (answering (try_acquire t obj no_wakeup d w))
          (lock_step (Action.acquire room) t (owner (HeaderWord.expanded_data d)))
unfolding try_acquire
acquire_data room t obj bound m none c w e within fits =
    stored w obj Answer.ok (record { mark_word = m; tid = some t; hold_count = 1 })
acquire_data room t obj bound m (some o) c w e within fits = elim (Bool-cases (o == t)) [
  | inl mine ↦
      let no_wrap : u32 (c + 1) ≡ c + 1 = omega (arith, within.1) in
      rw (mine, no_wrap)
        (stored w obj Answer.ok (record { mark_word = m; tid = some o; hold_count = c + 1 }))
  | inr other ↦ rw other (stays w obj Answer.blocked (Lock.held o c) e)
]

acquire_lem :
    (room : Bool) (t obj bound : ℕ) (h : HeaderWord) (w : World)
    → owner (w.headers obj) ≡ owner h
    → IsWithin bound (owner h)
    → bound + 1 < 2 ^ 32
    → Meets w obj
        (answering (acquire_header room t obj h w))
        (lock_step (Action.acquire room) t (owner h))
unfolding acquire_header try_acquire
acquire_lem true t obj bound (HeaderWord.mark_word m) w e within fits =
    stored_twice w obj Answer.ok (new_monitor m)
      (record { mark_word = m; tid = some t; hold_count = 1 })
acquire_lem false t obj bound (HeaderWord.mark_word m) w e within fits =
    stays w obj Answer.refused Lock.fresh e
acquire_lem room t obj bound (HeaderWord.expanded_data d) w e within fits =
    acquire_data room t obj bound d.mark_word d.tid d.hold_count w e within fits

release_data :
    (t obj bound m : ℕ) (o : Option ℕ) (c : ℕ) (w : World)
    → let d : MonitorData = record { mark_word = m; tid = o; hold_count = c } in
      owner (w.headers obj) ≡ owner (HeaderWord.expanded_data d)
      → IsWithin bound (owner (HeaderWord.expanded_data d))
      → Meets w obj
          (answering (release_header t obj (HeaderWord.expanded_data d) w))
          (lock_step Action.release t (owner (HeaderWord.expanded_data d)))
unfolding release_header
release_data t obj bound m none c w e within = stays w obj Answer.refused Lock.free e
release_data t obj bound m (some o) c w e within = elim (Bool-cases (o == t)) [
  | inl mine ↦
      let d : MonitorData = record { mark_word = m; tid = some o; hold_count = c } in
      let some_hold : (c == 0) ≡ false = ground (arith, within.0) in
      elim (Bool-cases (c - 1 == 0)) [
        | inl last ↦ rw (mine, some_hold, last) (gone w obj Answer.ok d)
        | inr more ↦
            rw (mine, some_hold, more) (stored w obj Answer.ok (record d { hold_count = c - 1 }))
      ]
  | inr other ↦ rw other (stays w obj Answer.refused (Lock.held o c) e)
]

release_lem :
    (t obj bound : ℕ) (h : HeaderWord) (w : World)
    → owner (w.headers obj) ≡ owner h
    → IsWithin bound (owner h)
    → Meets w obj (answering (release_header t obj h w)) (lock_step Action.release t (owner h))
unfolding release_header
release_lem t obj bound (HeaderWord.mark_word m) w e within =
    stays w obj Answer.refused Lock.fresh e
release_lem t obj bound (HeaderWord.expanded_data d) w e within =
    release_data t obj bound d.mark_word d.tid d.hold_count w e within

release_all_data :
    (t obj bound m : ℕ) (o : Option ℕ) (c : ℕ) (w : World)
    → let d : MonitorData = record { mark_word = m; tid = o; hold_count = c } in
      owner (w.headers obj) ≡ owner (HeaderWord.expanded_data d)
      → IsWithin bound (owner (HeaderWord.expanded_data d))
      → Meets w obj
          (counting (release_all_header t obj (HeaderWord.expanded_data d) w))
          (lock_step Action.release_all t (owner (HeaderWord.expanded_data d)))
unfolding release_all_header
release_all_data t obj bound m none c w e within = stays w obj (Answer.count 0) Lock.free e
release_all_data t obj bound m (some o) c w e within = elim (Bool-cases (o == t)) [
  | inl mine ↦
      let some_hold : (c == 0) ≡ false = ground (arith, within.0) in
      rw (mine, some_hold)
        (gone w obj (Answer.count c) (record { mark_word = m; tid = some o; hold_count = c }))
  | inr other ↦ rw other (stays w obj (Answer.count 0) (Lock.held o c) e)
]

release_all_lem :
    (t obj bound : ℕ) (h : HeaderWord) (w : World)
    → owner (w.headers obj) ≡ owner h
    → IsWithin bound (owner h)
    → Meets w obj
        (counting (release_all_header t obj h w))
        (lock_step Action.release_all t (owner h))
unfolding release_all_header
release_all_lem t obj bound (HeaderWord.mark_word m) w e within =
    stays w obj (Answer.count 0) Lock.fresh e
release_all_lem t obj bound (HeaderWord.expanded_data d) w e within =
    release_all_data t obj bound d.mark_word d.tid d.hold_count w e within

reacquire_data :
    (n t obj m : ℕ) (o : Option ℕ) (c : ℕ) (w : World)
    → let d : MonitorData = record { mark_word = m; tid = o; hold_count = c } in
      owner (w.headers obj) ≡ owner (HeaderWord.expanded_data d)
      → Meets w obj
          (answering (try_reacquire t obj n no_wakeup d w))
          (lock_step (Action.reacquire n) t (owner (HeaderWord.expanded_data d)))
unfolding try_reacquire
reacquire_data n t obj m none c w e =
    stored w obj Answer.ok (record { mark_word = m; tid = some t; hold_count = n })
reacquire_data n t obj m (some o) c w e = elim (Bool-cases (o == t)) [
  | inl mine ↦ rw mine (stays w obj Answer.refused (Lock.held o c) e)
  | inr other ↦ rw other (stays w obj Answer.blocked (Lock.held o c) e)
]

reacquire_lem :
    (n t obj : ℕ) (h : HeaderWord) (w : World)
    → owner (w.headers obj) ≡ owner h
    → Meets w obj
        (answering (reacquire_header t obj n no_wakeup h w))
        (lock_step (Action.reacquire n) t (owner h))
unfolding reacquire_header
reacquire_lem n t obj (HeaderWord.mark_word m) w e = stays w obj Answer.fault Lock.fresh e
reacquire_lem n t obj (HeaderWord.expanded_data d) w e =
    reacquire_data n t obj d.mark_word d.tid d.hold_count w e

query_data :
    (t obj m : ℕ) (o : Option ℕ) (c : ℕ) (w : World)
    → let d : MonitorData = record { mark_word = m; tid = o; hold_count = c } in
      owner (w.headers obj) ≡ owner (HeaderWord.expanded_data d)
      → Meets w obj
          (Answer.count (held_count t (HeaderWord.expanded_data d)), w)
          (lock_step Action.query t (owner (HeaderWord.expanded_data d)))
query_data t obj m none c w e = stays w obj (Answer.count 0) Lock.free e
query_data t obj m (some o) c w e = elim (Bool-cases (o == t)) [
  | inl mine ↦ rw mine (stays w obj (Answer.count c) (Lock.held o c) e)
  | inr other ↦ rw other (stays w obj (Answer.count 0) (Lock.held o c) e)
]

query_lem :
    (t obj : ℕ) (h : HeaderWord) (w : World)
    → owner (w.headers obj) ≡ owner h
    → Meets w obj (Answer.count (held_count t h), w) (lock_step Action.query t (owner h))
query_lem t obj (HeaderWord.mark_word m) w e = stays w obj (Answer.count 0) Lock.fresh e
query_lem t obj (HeaderWord.expanded_data d) w e =
    query_data t obj d.mark_word d.tid d.hold_count w e

-- Every operation.
pub perform_lem :
    (a : Action) (t obj bound : ℕ) (w : World)
    → IsWithin bound (owner (w.headers obj))
    → bound + weight a < 2 ^ 32
    → Meets w obj (perform a t obj w) (lock_step a t (owner (w.headers obj)))
unfolding perform monitor_acquire monitor_release monitor_release_all_hold_count
    monitor_reacquire_hold_count current_thread_hold_count
perform_lem (Action.acquire room) t obj bound w within fits =
    acquire_lem room t obj bound (w.headers obj) w refl within fits
perform_lem Action.release t obj bound w within fits =
    release_lem t obj bound (w.headers obj) w refl within
perform_lem Action.release_all t obj bound w within fits =
    release_all_lem t obj bound (w.headers obj) w refl within
perform_lem (Action.reacquire n) t obj bound w within fits =
    reacquire_lem n t obj (w.headers obj) w refl
perform_lem Action.query t obj bound w within fits = query_lem t obj (w.headers obj) w refl
