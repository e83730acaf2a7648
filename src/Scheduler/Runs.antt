-- ===== src/Scheduler/Runs.antt =====
-- vm/roundrobin_scheduler.c: calls handed to the scheduler, and their records.
use mathlib.Core.Option.{some_inj}
use b_jvm.Common.{
  Bool-cases, inl, inr, sym, ap, ◌∙◌, ℕ, zero, suc, ◌+◌, ◌-◌, ◌≡◌, refl, true, List, [], ◌∷◌, ◌++◌,
  Option, none, some, ◌==◌, if◌then◌else◌, length, get_or, set, remove_at, arith,
}
use b_jvm.Scheduler.{Thread, Call, PendingCall, ThreadInfo}
use b_jvm.Scheduler.Handles.{deref_js_handle, drop_js_handle}
use b_jvm.Scheduler.Step.{
  Status, Execution, Vm, Future, Interpret, modify, modify_info, find_info, set_first_call,
  pop_call,
}

-- A thread as the scheduler first sees it: the other fields are the thread's own.
abbrev new_info : Thread → ThreadInfo
new_info t = record { thread = t; call_queue = []; wakeup_info = none }

unfoldable get_or_create_thread_info : Thread → List ThreadInfo → List ThreadInfo
get_or_create_thread_info t [] = new_info t ∷ []
get_or_create_thread_info t (i ∷ l) =
    if i.thread.tid == t.tid then i ∷ l else i ∷ get_or_create_thread_info t l

-- The record as `calloc` leaves it: its `js_handle` is 0. `address` is where `calloc` puts it.
abbrev pub new_execution : ℕ → ℕ → Execution
new_execution address tid = record {
  address = address;
  status = Status.more;
  returned = 0;
  thread = tid;
  js_handle = some 0;
}

abbrev push_call : PendingCall → ThreadInfo → ThreadInfo
push_call p i = record i { call_queue = i.call_queue ++ p ∷ [] }

unfoldable pub rr_scheduler_run : ℕ → Thread → Call → Vm → Vm
unfolding get_or_create_thread_info
rr_scheduler_run address t call vm =
    let pending : PendingCall = record { call = call; execution = address } in
    record vm {
      round_robin = modify t.tid (push_call pending) (get_or_create_thread_info t vm.round_robin);
      executions = vm.executions ++ new_execution address t.tid ∷ [];
    }

abbrev last_or : List Execution → Execution → Execution
last_or [] e = e
last_or (x ∷ l) e = last_or l x

abbrev drop_last : List Execution → List Execution
drop_last [] = []
drop_last (x ∷ []) = []
drop_last (x ∷ y ∷ l) = x ∷ drop_last (y ∷ l)

-- `arrdelswap`: the last element takes the place of the one that is removed.
unfoldable delete_swap : ℕ → List Execution → List Execution
delete_swap a [] = []
delete_swap a (e ∷ []) = if e.address == a then [] else e ∷ []
delete_swap a (e ∷ f ∷ l) =
    if e.address == a then last_or l f ∷ drop_last (f ∷ l) else e ∷ delete_swap a (f ∷ l)

unfoldable pub free_execution_record : Execution → Vm → Vm
unfolding delete_swap
free_execution_record e vm = record vm {
  js_handles = elim e.js_handle [ none ↦ vm.js_handles | some h ↦ drop_js_handle vm.js_handles h ];
  executions = delete_swap e.address vm.executions;
}

get_or-set_null : (hs : List ℕ) → get_or (set hs 0 0) 0 0 ≡ 0
get_or-set_null [] = refl
get_or-set_null (h ∷ hs) = refl

-- A record that is freed before its call has returned takes away what the handle 0 stands for,
-- whoever holds it.
pub rr_scheduler_run-free_execution_record :
    (address : ℕ) (t : Thread) (call : Call) (vm : Vm)
    → deref_js_handle
        (free_execution_record
          (new_execution address t.tid)
          (rr_scheduler_run address t call vm)).js_handles
        0
      ≡ 0
unfolding free_execution_record rr_scheduler_run deref_js_handle drop_js_handle
rr_scheduler_run-free_execution_record address t call vm = get_or-set_null vm.js_handles

module _ (interpret : Interpret) (raise : ℕ → Vm → Vm) where
  abbrev deeper : ThreadInfo → ThreadInfo
  deeper i = record i {
    thread = record i.thread { synchronous_depth = i.thread.synchronous_depth + 1 };
  }

  abbrev shallower : ThreadInfo → ThreadInfo
  shallower i = record i {
    thread = record i.thread { synchronous_depth = i.thread.synchronous_depth - 1 };
  }

  -- `call->record` after `arrdel`: `call` still points at the start of the queue, where the next
  -- call now stands, or the old one where there is no next.
  abbrev record_behind : PendingCall → List PendingCall → ℕ
  record_behind p [] = p.execution
  record_behind p (q ∷ qs) = q.execution

  abbrev queue_in : Option ThreadInfo → List PendingCall
  queue_in none = []
  queue_in (some i) = i.call_queue

  abbrev pub queue_of : ℕ → Vm → List PendingCall
  queue_of tid vm = queue_in (find_info tid vm.round_robin)

  -- One round of the loop: what the interpreter leaves, and whether the loop goes on.
  unfoldable after_call : ℕ → ℕ → PendingCall → Call × Future × Vm → Option Status × Vm
  after_call address tid p (c, Future.not_ready wakeup, vm) = (
    some Status.invalid,
    raise tid (
        modify_info tid (λ i. record (shallower i) { call_queue = set_first_call c i.call_queue })
          vm),
  )
  after_call address tid p (c, Future.ready result, vm) =
      let popped = modify_info tid (λ i. pop_call (shallower i)) vm in
      (if record_behind p (queue_of tid popped) == address then some Status.done else none, popped)

  -- The loop, at most `n` rounds of it.
  unfoldable execute_loop : ℕ → ℕ → ℕ → Vm → Status × Vm
  unfolding after_call
  execute_loop zero address tid vm = (Status.done, vm)
  execute_loop (suc n) address tid vm = elim (queue_of tid vm) [
    | [] ↦ (Status.done, vm)
    | p ∷ ps ↦
        let after = after_call address tid p (interpret p.call (modify_info tid deeper vm)) in
        elim after.0 [ none ↦ execute_loop n address tid after.1 | some s ↦ (s, after.1) ]
  ]

  -- The interpreter is not supposed to hand the thread new calls, so that the queue's length bounds
  -- the rounds.
  unfoldable pub rr_scheduler_execute_immediately : Execution → Vm → Status × Vm
  unfolding execute_loop
  rr_scheduler_execute_immediately e vm =
      execute_loop (length (queue_of e.thread vm)) e.address e.thread vm

  find_info-modify :
      (tid : ℕ) (f : ThreadInfo → ThreadInfo) (l : List ThreadInfo) (i : ThreadInfo)
      → ((j : ThreadInfo) → (f j).thread.tid ≡ j.thread.tid)
      → find_info tid l ≡ some i
      → find_info tid (modify tid f l) ≡ some (f i)
  find_info-modify tid f [] i same h = cc
  find_info-modify tid f (x ∷ l) i same h = elim (Bool-cases (x.thread.tid == tid)) [
    | inl hit ↦
        let here : x ≡ i = some_inj.0 (sym (rw hit refl) ∙ h) in
        let still : ((f x).thread.tid == tid) ≡ true = ap (λ z. z == tid) (same x) ∙ hit in
        rw (hit, still) (ap (λ j. some (f j)) here)
    | inr miss ↦
        let later : find_info tid l ≡ some i = sym (rw miss refl) ∙ h in
        rw (miss, miss) (find_info-modify tid f l i same later)
  ]

  -- Of two calls in a thread's queue, the one whose record is passed comes second: the first
  -- returns, and the answer is that all is done, while the second still stands in the queue.
  pub rr_scheduler_execute_immediately-second :
      (e : Execution) (vm vm' : Vm) (p p' q : PendingCall) (ps qs : List PendingCall) (c : Call)
      (result : ℕ) (i : ThreadInfo)
      → queue_of e.thread vm ≡ p ∷ ps
      → interpret p.call (modify_info e.thread deeper vm) ≡ (c, Future.ready result, vm')
      → find_info e.thread vm'.round_robin ≡ some i
      → i.call_queue ≡ p' ∷ q ∷ qs
      → q.execution ≡ e.address
      → ((rr_scheduler_execute_immediately e vm).0 ≡ Status.done)
        × (queue_of e.thread (rr_scheduler_execute_immediately e vm).1 ≡ q ∷ qs)
  unfolding rr_scheduler_execute_immediately execute_loop after_call
  rr_scheduler_execute_immediately-second e vm vm' p p' q ps qs c result i first ran found queue
        same =
      let pop = λ (j : ThreadInfo). pop_call (shallower j) in
      let found' : find_info e.thread (modify e.thread pop vm'.round_robin) ≡ some (pop i) =
        find_info-modify e.thread pop vm'.round_robin i (λ j. refl) found in
      let popped : queue_of e.thread (modify_info e.thread pop vm') ≡ q ∷ qs =
        ap queue_in found' ∙ ap (λ l. remove_at l 0) queue in
      let stops : (q.execution == e.address) ≡ true = ground arith in
      let runs : rr_scheduler_execute_immediately e vm
          ≡ (Status.done, modify_info e.thread pop vm') =
        rw (first, execute_loop, first, ran, popped, stops, ran) refl in
      rw runs (refl, popped)
