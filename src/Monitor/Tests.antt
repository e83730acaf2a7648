-- ===== src/Monitor/Tests.antt =====
-- vm/monitors.c: a run of three threads, and the theorems at concrete worlds.
use b_jvm.Common.{ℕ, ◌≡◌, refl, true, false, List, [], ◌∷◌, ◌++◌, some, arith}
use b_jvm.Scheduler.{WakeupKind, WakeupInfo, ThreadInfo, is_sleeping, set_ready}
use b_jvm.Monitor.{
  HeaderWord, World, Outcome, no_wakeup, enter_waiting, resume_acquire, current_thread_hold_count,
  monitor_release,
}
use b_jvm.Monitor.Owner.{Action, Answer}
use b_jvm.Monitor.Interleave.{Request, run, lock_run, locks_of, run-lock_run}
use b_jvm.Monitor.Handover.{monitor_release-resume_acquire}

-- No object has been locked.
abbrev start : World
start = record { headers = λ p. HeaderWord.mark_word 1; round_robin = [] }

abbrev request : ℕ → Action → Request
request t a = record { thread = t; object = 9; action = a }

abbrev script : List Request
script =
    request 1 (Action.acquire true)
    ∷ request 1 (Action.acquire true)
    ∷ request 2 (Action.acquire true)
    ∷ request 2 Action.release
    ∷ request 1 Action.release_all
    ∷ request 2 (Action.acquire true)
    ∷ request 2 Action.release
    ∷ request 1 (Action.reacquire 2)
    ∷ request 1 Action.query
    ∷ []

script_locks :
    lock_run script (locks_of start)
    ≡ Answer.ok
      ∷ Answer.ok
      ∷ Answer.blocked
      ∷ Answer.refused
      ∷ Answer.count 2
      ∷ Answer.ok
      ∷ Answer.ok
      ∷ Answer.ok
      ∷ Answer.count 2
      ∷ []
unfolding lock_run
script_locks = refl

run-lock_run_example : run script start ≡ lock_run script (locks_of start)
run-lock_run_example =
    run-lock_run script 0 start (λ p. tt)
      (tt, (tt, (tt, (tt, (tt, (tt, (tt, (omega arith, (tt, tt))))))))) (omega arith)

-- The thread 3 waits to enter the monitor of the object 9.
abbrev enterer : ThreadInfo
enterer = record {
  thread = record {
    tid = 3;
    thread_obj = 103;
    interrupted = false;
    unpark_permit = false;
    is_daemon = false;
    fuel = 0;
    yield_at_time = 0;
    synchronous_depth = 0;
  };
  call_queue = [];
  wakeup_info = some (enter_waiting 9 no_wakeup);
}

abbrev locked : World
locked = record {
  headers = λ p. HeaderWord.expanded_data (record { mark_word = 1; tid = some 1; hold_count = 1 });
  round_robin = enterer ∷ [];
}

monitor_release-resume_acquire_example :
    ((monitor_release 1 9 locked).0 ≡ Outcome.ok)
    × ((monitor_release 1 9 locked).1.round_robin ≡ [] ++ set_ready enterer ∷ [])
    × (is_sleeping false 20 (set_ready enterer) ≡ false)
    × ((resume_acquire 3 9 (enter_waiting 9 no_wakeup) (monitor_release 1 9 locked).1).0
        ≡ Outcome.ok)
    × (current_thread_hold_count 3 9
          (resume_acquire 3 9 (enter_waiting 9 no_wakeup) (monitor_release 1 9 locked).1).1
        ≡ 1)
monitor_release-resume_acquire_example =
    monitor_release-resume_acquire 1 3 9 1 20 false (enter_waiting 9 no_wakeup) locked [] enterer []
      refl refl tt refl

abbrev woken : WakeupInfo
woken = record { kind = WakeupKind.monitor_enter_waiting; wakeup_us = 0; monitor = 9; ready = true }
