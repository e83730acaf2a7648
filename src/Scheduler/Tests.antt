-- ===== src/Scheduler/Tests.antt =====
-- vm/roundrobin_scheduler.c and the handles of vm/bjvm.c: the theorems at concrete schedulers.
use mathlib.Core.List.{Mem}
use b_jvm.Common.{
  Bool, ltb, length, ℕ, ◌+◌, ◌≡◌, ◌≢◌, refl, true, false, ◌&&◌, List, [], ◌∷◌, none, some, All,
  arith,
}
use b_jvm.Scheduler.{
  WakeupKind, Thread, Call, PendingCall, ThreadInfo, is_sleeping, is_blocked, is_monitor_wait,
  waits_for, set_ready, monitor_notify_all, monitor_notify_one, only_daemons_running,
}
use b_jvm.Scheduler.Sleep.{is_runnable, may_sleep_us, may_sleep_us-is_runnable}
use b_jvm.Scheduler.Wake.{monitor_notify_all-is_sleeping, monitor_notify_one-twice}
use b_jvm.Scheduler.Handles.{make_js_handle, deref_js_handle, make_js_handle-deref_js_handle}
use b_jvm.Scheduler.Step.{Status, Execution, Vm, Future, Interpret, rr_scheduler_step}
use b_jvm.Scheduler.Step.Turn.{woken, rr_scheduler_step-awake}
use b_jvm.Scheduler.Roots.{
  is_nth_arg_reference, argument_roots, queue_roots, call_roots, rr_scheduler_enumerate_gc_roots,
  rr_scheduler_enumerate_gc_roots-Mem,
}

abbrev thread : ℕ → Thread
thread tid = record {
  tid = tid;
  thread_obj = 100 + tid;
  interrupted = false;
  unpark_permit = false;
  is_daemon = false;
  fuel = 0;
  yield_at_time = 0;
  synchronous_depth = 0;
}

-- static void f(int, Object), on the thread
abbrev call : ℕ → Call
call tid = record {
  thread = tid;
  args = 3 ∷ 77 ∷ [];
  is_static = true;
  arg_references = false ∷ true ∷ [];
  returns_reference = false;
  progress = 0;
}

abbrev pending : ℕ → ℕ → PendingCall
pending tid address = record { call = call tid; execution = address }

-- Sleeps until the time 50.
abbrev napper : ThreadInfo
napper = record {
  thread = thread 1;
  call_queue = pending 1 500 ∷ [];
  wakeup_info =
      some (record { kind = WakeupKind.sleep; wakeup_us = 50; monitor = 0; ready = false });
}

abbrev worker : ThreadInfo
worker = record {
  thread = thread 2;
  call_queue = pending 2 600 ∷ pending 2 601 ∷ [];
  wakeup_info = none;
}

-- Waits to enter the monitor of the object 9.
abbrev enterer : ThreadInfo
enterer = record {
  thread = thread 3;
  call_queue = pending 3 700 ∷ [];
  wakeup_info = some (record {
    kind = WakeupKind.monitor_enter_waiting;
    wakeup_us = 0;
    monitor = 9;
    ready = false;
  });
}

-- Waits to be notified by the object 9.
abbrev waiter : ℕ → ThreadInfo
waiter tid = record {
  thread = thread tid;
  call_queue = pending tid (900 + tid) ∷ [];
  wakeup_info =
      some (record { kind = WakeupKind.monitor_wait; wakeup_us = 0; monitor = 9; ready = false });
}

abbrev machine : List ThreadInfo → Vm
machine l = record {
  round_robin = l;
  executions = [];
  preemption_us = 30000;
  reference_pending = false;
  js_handles = 41 ∷ 0 ∷ 42 ∷ [];
}

-- Every call returns 7 at once.
abbrev returns_seven : Interpret
returns_seven c vm = (c, Future.ready 7, vm)

may_sleep_us-is_runnable_example : All (λ i. is_runnable false 45 i ≡ false) (napper ∷ enterer ∷ [])
unfolding may_sleep_us is_sleeping is_blocked
may_sleep_us-is_runnable_example =
    may_sleep_us-is_runnable false 20 45 (napper ∷ enterer ∷ []) (omega arith) (omega arith)

monitor_notify_all-is_sleeping_example :
    All
      (λ i. (waits_for is_monitor_wait 9 i && is_sleeping false 20 i) ≡ false)
      (monitor_notify_all 9 (waiter 4 ∷ napper ∷ waiter 5 ∷ []))
monitor_notify_all-is_sleeping_example =
    monitor_notify_all-is_sleeping false 20 9 (waiter 4 ∷ napper ∷ waiter 5 ∷ [])

monitor_notify_one-twice_example :
    monitor_notify_one 9 (monitor_notify_one 9 (waiter 4 ∷ waiter 5 ∷ []))
    ≡ monitor_notify_one 9 (waiter 4 ∷ waiter 5 ∷ [])
monitor_notify_one-twice_example = monitor_notify_one-twice 9 (waiter 4 ∷ waiter 5 ∷ [])

-- The second waiter of the two still sleeps.
second_waiter_sleeps :
    monitor_notify_one 9 (monitor_notify_one 9 (waiter 4 ∷ waiter 5 ∷ []))
    ≡ set_ready (waiter 4) ∷ waiter 5 ∷ []
unfolding monitor_notify_one
second_waiter_sleeps = refl

make_js_handle-deref_js_handle_example :
    (deref_js_handle (41 ∷ 0 ∷ 42 ∷ []) (make_js_handle (41 ∷ 0 ∷ 42 ∷ []) 7).0 ≡ 0)
    × (deref_js_handle
          (make_js_handle (41 ∷ 0 ∷ 42 ∷ []) 7).1
          (make_js_handle (41 ∷ 0 ∷ 42 ∷ []) 7).0
        ≡ 7)
    × ((j : ℕ)
        → j ≢ (make_js_handle (41 ∷ 0 ∷ 42 ∷ []) 7).0
        → deref_js_handle (make_js_handle (41 ∷ 0 ∷ 42 ∷ []) 7).1 j
          ≡ deref_js_handle (41 ∷ 0 ∷ 42 ∷ []) j)
make_js_handle-deref_js_handle_example = make_js_handle-deref_js_handle (41 ∷ 0 ∷ 42 ∷ []) 7

-- The record of the worker's first call.
abbrev waiting : Execution
waiting = record { address = 600; status = Status.more; returned = 0; thread = 2; js_handle = none }

abbrev working : List ThreadInfo → Vm
working l = record (machine l) { executions = waiting ∷ [] }

rr_scheduler_step-awake_example :
    rr_scheduler_step returns_seven (λ k. 20) 1 (working (napper ∷ worker ∷ enterer ∷ [])) ≡ (
      Status.more,
      record (machine []) {
        round_robin =
            enterer ∷ napper ∷ record (woken 30020 worker) { call_queue = pending 2 601 ∷ [] } ∷ [];
        executions = record waiting { status = Status.done; returned = 7 } ∷ [];
      },
    )
unfolding is_sleeping is_blocked only_daemons_running
rr_scheduler_step-awake_example =
    let after = enterer ∷ napper ∷ woken 30020 worker ∷ [] in
    rr_scheduler_step-awake returns_seven (λ k. 20) 0 (working (napper ∷ worker ∷ enterer ∷ []))
      (napper ∷ []) worker (enterer ∷ []) (pending 2 600) (pending 2 601 ∷ []) (call 2)
      (Future.ready 7) (working after) (enterer ∷ napper ∷ []) (woken 30020 worker) (pending 2 600)
      (pending 2 601 ∷ []) [] [] waiting [] refl refl (refl, tt) (refl, tt) (refl, tt) refl refl
      refl refl refl (refl, (refl, tt)) refl refl refl tt refl

-- The array has room for four.
abbrev has_room : List ℕ → Bool
has_room l = ltb (length l) 4

rr_scheduler_enumerate_gc_roots-Mem_example :
    Mem {A = ℕ} 77 (77 ∷ 77 ∷ 77 ∷ 77 ∷ [])
    × (rr_scheduler_enumerate_gc_roots has_room (napper ∷ worker ∷ enterer ∷ []) (5 ∷ []) ≡ none)
unfolding is_nth_arg_reference argument_roots queue_roots call_roots
rr_scheduler_enumerate_gc_roots-Mem_example =
    rr_scheduler_enumerate_gc_roots-Mem has_room (5 ∷ []) (napper ∷ []) (enterer ∷ []) worker
      (pending 2 600 ∷ []) [] (pending 2 601) 1 77 refl refl refl

-- Three roots fit behind none.
roots_arrive :
    rr_scheduler_enumerate_gc_roots has_room (napper ∷ worker ∷ []) [] ≡ some (77 ∷ 77 ∷ 77 ∷ [])
unfolding rr_scheduler_enumerate_gc_roots is_nth_arg_reference
roots_arrive = refl
