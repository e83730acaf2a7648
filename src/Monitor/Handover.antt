-- ===== src/Monitor/Handover.antt =====
-- vm/monitors.c with vm/roundrobin_scheduler.c: how a monitor passes from one thread to the next.
use b_jvm.Common.{
  ℕ, ◌≡◌, refl, ap, ◌∙◌, Bool, true, false, List, ◌∷◌, ◌++◌, none, some, ◌==◌, All, arith,
}
use b_jvm.Scheduler.{
  WakeupInfo, ThreadInfo, is_sleeping, is_blocked, is_enter_waiting, waits_for, set_ready,
}
use b_jvm.Scheduler.Wake.{monitor_exit_handler-append}
use b_jvm.Monitor.{
  MonitorData, HeaderWord, World, Outcome, store, enter_waiting, try_acquire, resume_acquire,
  held_count, current_thread_hold_count, let_go, release_header, monitor_release,
}
use b_jvm.Monitor.Refine.{update_self}

resume_acquire-free :
    (u obj m : ℕ) (self : WakeupInfo) (w : World)
    → w.headers obj
      ≡ HeaderWord.expanded_data (record { mark_word = m; tid = none; hold_count = 0 })
    → resume_acquire u obj self w
      ≡ (Outcome.ok, store obj (record { mark_word = m; tid = some u; hold_count = 1 }) w)
unfolding resume_acquire try_acquire
resume_acquire-free u obj m self w free = rw (resume_acquire, free) refl

current_thread_hold_count-store :
    (u obj m c : ℕ) (w : World)
    → current_thread_hold_count u obj
        (store obj (record { mark_word = m; tid = some u; hold_count = c }) w)
      ≡ c
unfolding current_thread_hold_count
current_thread_hold_count-store u obj m c w =
    let d : MonitorData = record { mark_word = m; tid = some u; hold_count = c } in
    let mine : (u == u) ≡ true = ground arith in
    ap (held_count u) (update_self w.headers obj (HeaderWord.expanded_data d)) ∙ rw mine refl

-- When the owner releases its only hold, the first thread that waits to enter is woken, all others
-- stay as they are, and if it is the next to try it has the monitor, held once.
pub monitor_release-resume_acquire :
    (t u obj m time : ℕ) (pending : Bool) (self : WakeupInfo) (w : World) (pre : List ThreadInfo)
    (i : ThreadInfo) (post : List ThreadInfo)
    → w.headers obj
      ≡ HeaderWord.expanded_data (record { mark_word = m; tid = some t; hold_count = 1 })
    → w.round_robin ≡ pre ++ i ∷ post
    → All (λ x. waits_for is_enter_waiting obj x ≡ false) pre
    → waits_for is_enter_waiting obj i ≡ true
    → let released = monitor_release t obj w in
      let resumed = resume_acquire u obj self released.1 in
      (released.0 ≡ Outcome.ok)
      × (released.1.round_robin ≡ pre ++ set_ready i ∷ post)
      × (is_sleeping pending time (set_ready i) ≡ false)
      × (resumed.0 ≡ Outcome.ok)
      × (current_thread_hold_count u obj resumed.1 ≡ 1)
unfolding monitor_release release_header let_go
monitor_release-resume_acquire t u obj m time pending self w pre i post held queue none_before
      waits =
    let mine : (t == t) ≡ true = ground arith in
    let woken = monitor_exit_handler-append pending time obj pre i post none_before waits in
    let free : MonitorData = record { mark_word = m; tid = none; hold_count = 0 } in
    let released : monitor_release t obj w ≡ (Outcome.ok, let_go obj free w) =
      rw (held, mine) refl in
    let taken =
      resume_acquire-free u obj m self (let_go obj free w)
        (update_self w.headers obj (HeaderWord.expanded_data free)) in
    let d : MonitorData = record { mark_word = m; tid = some u; hold_count = 1 } in
    rw (released, taken)
      (
        refl,
        rw queue woken.0,
        woken.1,
        refl,
        current_thread_hold_count-store u obj m 1 (let_go obj free w),
      )

-- A waiter that was woken once and finds the monitor taken again yields with `ready` still set: it
-- does not sleep until the monitor is released, it is run again and again.
pub resume_acquire-is_sleeping :
    (t u obj m c time : ℕ) (pending : Bool) (self : WakeupInfo) (i : ThreadInfo) (w : World)
    → w.headers obj
      ≡ HeaderWord.expanded_data (record { mark_word = m; tid = some t; hold_count = c })
    → (t == u) ≡ false
    → self.ready ≡ true
    → (resume_acquire u obj self w ≡ (Outcome.blocked (enter_waiting obj self), w))
      × (is_sleeping pending time (record i { wakeup_info = some (enter_waiting obj self) })
          ≡ false)
unfolding resume_acquire try_acquire is_sleeping is_blocked
resume_acquire-is_sleeping t u obj m c time pending self i w held other ready =
    (rw (resume_acquire, held, other) refl, rw ready refl)
