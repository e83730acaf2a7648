-- ===== src/Scheduler/Wake.antt =====
-- vm/roundrobin_scheduler.c: what `monitor_notify_one`, `monitor_notify_all` and
-- `monitor_exit_handler` do to the threads that wait.
use b_jvm.Common.{
  ℕ, ◌≡◌, refl, ◌∙◌, Bool, true, false, ◌&&◌, ◌||◌, List, [], ◌∷◌, ◌++◌, Option, none, some, All,
  arith, Bool-cases, inl, inr,
}
use b_jvm.Scheduler.{
  WakeupKind, WakeupInfo, Thread, ThreadInfo, is_blocked, waits, sleeps, is_sleeping,
  is_enter_waiting, is_monitor_wait, waiting_for, waits_for, made_ready, set_ready, wake_first,
  monitor_notify_one, monitor_notify_all, monitor_exit_handler,
}

waiting_for-made_ready :
    (kind : WakeupKind → Bool) (obj : ℕ) (o : Option WakeupInfo)
    → waiting_for kind obj (made_ready o) ≡ waiting_for kind obj o
waiting_for-made_ready kind obj none = refl
waiting_for-made_ready kind obj (some w) = refl

made_ready-twice : (o : Option WakeupInfo) → made_ready (made_ready o) ≡ made_ready o
made_ready-twice none = refl
made_ready-twice (some w) = refl

-- One of the two kinds that wait for a monitor.
abbrev is_monitor_kind : WakeupKind → Bool
is_monitor_kind k = is_enter_waiting k || is_monitor_wait k

ready_sleeps :
    (pending : Bool) (time : ℕ) (t : Thread) (k : WakeupKind) (us m : ℕ)
    → is_monitor_kind k ≡ true
    → sleeps pending time t (some (record { kind = k; wakeup_us = us; monitor = m; ready = true }))
      ≡ false
unfolding sleeps waits is_blocked
ready_sleeps pending time t WakeupKind.monitor_wait us m h = refl
ready_sleeps pending time t WakeupKind.monitor_enter_waiting us m h = refl
ready_sleeps pending time t WakeupKind.yielding us m h = refl
ready_sleeps pending time t WakeupKind.sleep us m h = cc
ready_sleeps pending time t WakeupKind.park us m h = cc
ready_sleeps pending time t WakeupKind.reference_pending us m h = cc

made_ready-sleeps :
    (kind : WakeupKind → Bool) (pending : Bool) (time obj : ℕ) (t : Thread) (o : Option WakeupInfo)
    → ((k : WakeupKind) → kind k ≡ true → is_monitor_kind k ≡ true)
    → waiting_for kind obj o ≡ true
    → sleeps pending time t (made_ready o) ≡ false
made_ready-sleeps kind pending time obj t none only h = cc
made_ready-sleeps kind pending time obj t (some w) only h =
    ready_sleeps pending time t w.kind w.wakeup_us w.monitor (only w.kind (ground arith))

wake_first-append :
    (p : ThreadInfo → Bool) (pre : List ThreadInfo) (i : ThreadInfo) (post : List ThreadInfo)
    → All (λ x. p x ≡ false) pre
    → p i ≡ true
    → wake_first p (pre ++ i ∷ post) ≡ pre ++ set_ready i ∷ post
unfolding wake_first
wake_first-append p [] i post h hit = rw hit refl
wake_first-append p (x ∷ pre) i post h hit = rw (h.0, wake_first-append p pre i post h.1 hit) refl

wake_first-twice :
    (p : ThreadInfo → Bool) (l : List ThreadInfo)
    → ((i : ThreadInfo) → p (set_ready i) ≡ p i)
    → wake_first p (wake_first p l) ≡ wake_first p l
unfolding wake_first
wake_first-twice p [] same = refl
wake_first-twice p (i ∷ l) same = elim (Bool-cases (p i)) [
  | inl hit ↦
      let again : p (set_ready i) ≡ true = same i ∙ hit in
      rw (hit, again, made_ready-twice i.wakeup_info) refl
  | inr miss ↦ rw (miss, miss, wake_first-twice p l same) refl
]

enter_waiting_only : (k : WakeupKind) → is_enter_waiting k ≡ true → is_monitor_kind k ≡ true
enter_waiting_only k h = rw h refl

monitor_wait_only : (k : WakeupKind) → is_monitor_wait k ≡ true → is_monitor_kind k ≡ true
monitor_wait_only k h = ground arith

-- A release wakes the first thread that waits to enter the object's monitor, so that it no longer
-- sleeps, and leaves every other thread as it is.
pub monitor_exit_handler-append :
    (pending : Bool) (time obj : ℕ) (pre : List ThreadInfo) (i : ThreadInfo)
    (post : List ThreadInfo)
    → All (λ x. waits_for is_enter_waiting obj x ≡ false) pre
    → waits_for is_enter_waiting obj i ≡ true
    → (monitor_exit_handler obj (pre ++ i ∷ post) ≡ pre ++ set_ready i ∷ post)
      × (is_sleeping pending time (set_ready i) ≡ false)
unfolding monitor_exit_handler is_sleeping
monitor_exit_handler-append pending time obj pre i post h hit = (
  wake_first-append (waits_for is_enter_waiting obj) pre i post h hit,
  made_ready-sleeps is_enter_waiting pending time obj i.thread i.wakeup_info enter_waiting_only hit,
)

-- After `monitor_notify_all` no thread that waits to be notified by the object's monitor sleeps,
-- whatever the time.
pub monitor_notify_all-is_sleeping :
    (pending : Bool) (time obj : ℕ) (l : List ThreadInfo)
    → All
        (λ i. (waits_for is_monitor_wait obj i && is_sleeping pending time i) ≡ false)
        (monitor_notify_all obj l)
unfolding monitor_notify_all is_sleeping
monitor_notify_all-is_sleeping pending time obj [] = tt
monitor_notify_all-is_sleeping pending time obj (i ∷ l) = (
  elim (Bool-cases (waits_for is_monitor_wait obj i)) [
    | inl hit ↦
        let awake : sleeps pending time i.thread (made_ready i.wakeup_info) ≡ false =
          made_ready-sleeps is_monitor_wait pending time obj i.thread i.wakeup_info
            monitor_wait_only hit in
        rw (hit, awake) (ground arith)
    | inr miss ↦ rw (miss, miss) refl
  ],
  monitor_notify_all-is_sleeping pending time obj l,
)

-- A second `monitor_notify_one` before the thread that the first one woke has run changes nothing:
-- it finds the same thread, and no other waiter is woken.
pub monitor_notify_one-twice :
    (obj : ℕ) (l : List ThreadInfo)
    → monitor_notify_one obj (monitor_notify_one obj l) ≡ monitor_notify_one obj l
unfolding monitor_notify_one
monitor_notify_one-twice obj l =
    wake_first-twice (waits_for is_monitor_wait obj) l
      (λ i. waiting_for-made_ready is_monitor_wait obj i.wakeup_info)
