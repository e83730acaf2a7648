-- ===== src/Scheduler/Step.antt =====
-- vm/roundrobin_scheduler.c: the scheduler's step and what it is made of. `interpret` stands for
-- `call_interpreter`, which runs a call until it returns or yields, and `raise` for
-- `raise_vm_exception` with an IllegalStateException. A C pointer to a thread's info is the thread
-- that it belongs to: no two infos share one.
mod Places
pub mod Turn
use mathlib.Core.List.{Perm}
use b_jvm.Common.{
  ℕ, zero, suc, ◌+◌, ◌-◌, ◌≤◌, ◌≡◌, refl, Bool, true, false, ◌&&◌, ◌||◌, not, List, [], ◌∷◌, ◌++◌,
  Option, none, some, ◌==◌, if◌then◌else◌, length, take, remove_at, min, All,
}
use b_jvm.Scheduler.{
  WakeupInfo, Call, PendingCall, ThreadInfo, is_sleeping, monitor_notify_all, only_daemons_running,
}
use b_jvm.Scheduler.Next.{uint64_max, get_next_thr, get_next_thr-awake, get_next_thr-asleep}
use b_jvm.Scheduler.Sleep.{is_sleeping-earlier}
use b_jvm.Scheduler.Handles.{make_js_handle}

pub data Status : Type 0 where
  done : Status
  more : Status
  invalid : Status

-- `js_handle` is none for -1.
pub record Execution : Type 0 where
  pub address : ℕ
  pub status : Status
  pub returned : ℕ
  pub thread : ℕ
  pub js_handle : Option ℕ

pub record Vm : Type 0 where
  pub round_robin : List ThreadInfo
  pub executions : List Execution
  pub preemption_us : ℕ
  pub reference_pending : Bool
  pub js_handles : List ℕ

pub data Future : Type 0 where
  ready : ℕ → Future
  not_ready : Option WakeupInfo → Future

-- The call is left as far as it has come.
abbrev pub Interpret : Type 0
Interpret = Call → Vm → Call × Future × Vm

abbrev pub modify : ℕ → (ThreadInfo → ThreadInfo) → List ThreadInfo → List ThreadInfo
modify tid f [] = []
modify tid f (i ∷ l) = if i.thread.tid == tid then f i ∷ l else i ∷ modify tid f l

abbrev pub modify_info : ℕ → (ThreadInfo → ThreadInfo) → Vm → Vm
modify_info tid f vm = record vm { round_robin = modify tid f vm.round_robin }

abbrev pub find_info : ℕ → List ThreadInfo → Option ThreadInfo
find_info tid [] = none
find_info tid (i ∷ l) = if i.thread.tid == tid then some i else find_info tid l

abbrev remove_info : ℕ → List ThreadInfo → List ThreadInfo
remove_info tid [] = []
remove_info tid (i ∷ l) = if i.thread.tid == tid then l else i ∷ remove_info tid l

-- The threads that wait for the dead one, as `Thread.join` does, are notified.
unfoldable free_thread_info : ThreadInfo → Vm → Vm
unfolding monitor_notify_all
free_thread_info info vm = record vm {
  round_robin = monitor_notify_all info.thread.thread_obj vm.round_robin;
}

abbrev pub pop_call : ThreadInfo → ThreadInfo
pop_call i = record i { call_queue = remove_at i.call_queue 0 }

-- The first call is over; a thread without another one leaves.
unfoldable unshift : ThreadInfo → Vm → Vm
unfolding free_thread_info
unshift info vm =
    if length (remove_at info.call_queue 0) == 0
    then free_thread_info info
        (record vm { round_robin = remove_info info.thread.tid vm.round_robin })
    else modify_info info.thread.tid pop_call vm

abbrev modify_execution : ℕ → (Execution → Execution) → List Execution → List Execution
modify_execution a f [] = []
modify_execution a f (e ∷ es) = if e.address == a then f e ∷ es else e ∷ modify_execution a f es

abbrev finished : List ThreadInfo → Bool
finished l = length l == 0 || only_daemons_running l

abbrev status_of : Vm → Status
status_of vm = if finished vm.round_robin then Status.done else Status.more

abbrev fill : ℕ → Option ℕ → Execution → Execution
fill result handle e = record e { status = Status.done; returned = result; js_handle = handle }

-- The record of a call that has returned; a reference gets a handle.
unfoldable complete : PendingCall → ℕ → Vm → Vm
unfolding make_js_handle
complete p result vm =
    let made = make_js_handle vm.js_handles result in
    if p.call.returns_reference && not (result == 0)
    then record vm {
      js_handles = made.1;
      executions = modify_execution p.execution (fill result (some made.0)) vm.executions;
    }
    else record vm { executions = modify_execution p.execution (fill result none) vm.executions }

abbrev pub set_first_call : Call → List PendingCall → List PendingCall
set_first_call c [] = []
set_first_call c (p ∷ ps) = record p { call = c } ∷ ps

-- What follows `call_interpreter` in the step; `info` is read again, as the call may change it.
unfoldable settle : ℕ → PendingCall → Call × Future × Vm → Vm
unfolding complete unshift
settle tid p (c, Future.ready result, vm) = elim (find_info tid vm.round_robin) [
  | none ↦ complete p result vm
  | some info ↦ unshift info (complete p result vm)
]
settle tid p (c, Future.not_ready wakeup, vm) =
    modify_info tid
      (λ i. record i { wakeup_info = wakeup; call_queue = set_first_call c i.call_queue }) vm

abbrev pub with_fuel : ThreadInfo → ThreadInfo
with_fuel i = record i { thread = record i.thread { fuel = 200000 } }

-- The time slice, saturated where the sum does not fit 64 bits.
abbrev awake_until : ℕ → ThreadInfo → ThreadInfo
awake_until t i = record i {
  wakeup_info = none;
  thread = record i.thread { yield_at_time = min t uint64_max };
}

module _ (interpret : Interpret) where
  -- The awake thread's first call goes on.
  unfoldable run_info : (Vm → Status × Vm) → ℕ → ThreadInfo → Vm → Status × Vm
  unfolding settle
  run_info again now info vm =
      let tid = info.thread.tid in
      let woken = modify_info tid (awake_until (now + vm.preemption_us)) vm in
      elim info.call_queue [
        | [] ↦
            again
              (record woken { round_robin = take (length woken.round_robin - 1) woken.round_robin })
        | p ∷ ps ↦ let after = settle tid p (interpret p.call woken) in (status_of after, after)
      ]

  unfoldable step_with :
      (Vm → Status × Vm) → ℕ → Vm → Option (ThreadInfo × List ThreadInfo) → Status × Vm
  unfolding run_info is_sleeping
  step_with again now vm none = (Status.done, vm)
  step_with again now vm (some (info, l)) =
      let turned = record vm { round_robin = modify info.thread.tid with_fuel l } in
      if is_sleeping vm.reference_pending now info
      then (Status.more, turned)
      else run_info again now info turned

  -- `clock` gives the successive readings of the time: one in the step, then one in
  -- `get_next_thr`. The number bounds how often a thread without calls is passed over.
  unfoldable pub rr_scheduler_step : (ℕ → ℕ) → ℕ → Vm → Status × Vm
  unfolding step_with get_next_thr
  rr_scheduler_step clock zero vm = (Status.invalid, vm)
  rr_scheduler_step clock (suc n) vm =
      if finished vm.round_robin
      then (Status.done, vm)
      else step_with (rr_scheduler_step (λ k. clock (2 + k)) n) (clock 0) vm
          (get_next_thr (is_sleeping vm.reference_pending (clock 1)) vm.round_robin)

  rr_scheduler_step-settle :
      (clock : ℕ → ℕ) (n : ℕ) (vm : Vm) (pre : List ThreadInfo) (i : ThreadInfo)
      (post : List ThreadInfo) (p : PendingCall) (ps : List PendingCall)
      → vm.round_robin ≡ pre ++ i ∷ post
      → finished vm.round_robin ≡ false
      → All (λ x. is_sleeping vm.reference_pending (clock 1) x ≡ true) pre
      → is_sleeping vm.reference_pending (clock 1) i ≡ false
      → is_sleeping vm.reference_pending (clock 0) i ≡ false
      → i.call_queue ≡ p ∷ ps
      → let queue =
          modify i.thread.tid
            (awake_until (clock 0 + vm.preemption_us))
            (modify i.thread.tid with_fuel (post ++ (pre ++ i ∷ []))) in
        let after = settle i.thread.tid p (interpret p.call (record vm { round_robin = queue })) in
        rr_scheduler_step clock (suc n) vm ≡ (status_of after, after)
  unfolding rr_scheduler_step step_with run_info
  rr_scheduler_step-settle clock n vm pre i post p ps queue going asleep awake now calls =
      let next : get_next_thr (is_sleeping vm.reference_pending (clock 1)) vm.round_robin
          ≡ some (i, post ++ (pre ++ i ∷ [])) =
        rw queue (
          get_next_thr-awake (is_sleeping vm.reference_pending (clock 1)) pre i post asleep
            awake) in
      rw (going, next, now, calls) refl

  -- Where every thread sleeps and the clock does not go back, a step makes no call, unless only
  -- daemons are left: it answers that there is more to do, moves one of the threads to the end and
  -- refills its fuel, and leaves all else as it is.
  pub rr_scheduler_step-asleep :
      (clock : ℕ → ℕ) (n : ℕ) (vm : Vm) (x : ThreadInfo) (l : List ThreadInfo)
      → vm.round_robin ≡ x ∷ l
      → finished vm.round_robin ≡ false
      → clock 0 ≤ clock 1
      → All (λ i. is_sleeping vm.reference_pending (clock 1) i ≡ true) (x ∷ l)
      → (i : ThreadInfo) × (l' : List ThreadInfo) × (rr_scheduler_step clock (suc n) vm
          ≡ (Status.more, record vm { round_robin = modify i.thread.tid with_fuel l' }))
        × Perm l' vm.round_robin
  unfolding rr_scheduler_step step_with
  rr_scheduler_step-asleep clock n vm x l queue going le asleep =
      let (i, l', next, sleeping, perm) =
        get_next_thr-asleep (is_sleeping vm.reference_pending (clock 1)) x l asleep in
      let before = is_sleeping-earlier vm.reference_pending (clock 0) (clock 1) i le sleeping in
      let turned : get_next_thr (is_sleeping vm.reference_pending (clock 1)) vm.round_robin
          ≡ some (i, l') =
        rw queue next in
      (i, l', rw (going, turned, before) refl, rw queue perm)
