-- ===== src/Scheduler/Step/Turn.antt =====
-- vm/roundrobin_scheduler.c: what a step of the scheduler makes of the thread whose turn it is.
use b_jvm.Common.{
  ℕ, zero, suc, ◌+◌, ◌≡◌, refl, ap, ◌∙◌, Bool, true, false, List, [], ◌∷◌, ◌++◌, none, some, ◌==◌,
  if◌then◌else◌, min, length, All, arith, Bool-cases, inl, inr,
}
use b_jvm.Scheduler.{PendingCall, Call, ThreadInfo, is_sleeping, monitor_notify_all}
use b_jvm.Scheduler.Next.{uint64_max}
use b_jvm.Scheduler.Handles.{make_js_handle}
use b_jvm.Scheduler.Step.{
  Status, Execution, Vm, Future, Interpret, modify, find_info, remove_info, fill, pop_call,
  set_first_call, finished, status_of, awake_until, with_fuel, settle, complete, unshift,
  free_thread_info, rr_scheduler_step, rr_scheduler_step-settle,
}
use b_jvm.Scheduler.Step.Places.{
  Without, modify-past, modify-append, remove_info-append, find_info-append,
  modify_execution-append,
}

-- The thread as the interpreter finds it.
abbrev pub woken : ℕ → ThreadInfo → ThreadInfo
woken until i = record i {
  wakeup_info = none;
  thread = record i.thread { fuel = 200000; yield_at_time = min until uint64_max };
}

-- What becomes of the thread `j` with the calls `q ∷ qs`, which stands between `l` and `r`: it keeps
-- the call and what it waits for; the call is over; or it leaves, and whoever joins it is notified.
abbrev pub threads_after :
    Future
    → Call
    → List ThreadInfo
    → ThreadInfo
    → PendingCall
    → List PendingCall
    → List ThreadInfo
    → List ThreadInfo
threads_after (Future.not_ready wakeup) c l j q qs r =
    l ++ record j { wakeup_info = wakeup; call_queue = record q { call = c } ∷ qs } ∷ r
threads_after (Future.ready result) c l j q [] r = monitor_notify_all j.thread.thread_obj (l ++ r)
threads_after (Future.ready result) c l j q (s ∷ qs) r = l ++ record j { call_queue = s ∷ qs } ∷ r

-- What is written to the record of the call; a null reference gets no handle.
abbrev pub execution_after : Future → Bool → List ℕ → Execution → Execution
execution_after (Future.not_ready wakeup) is_reference handles e = e
execution_after (Future.ready zero) is_reference handles e = record e {
  status = Status.done;
  returned = 0;
  js_handle = none;
}
execution_after (Future.ready (suc n)) false handles e = record e {
  status = Status.done;
  returned = suc n;
  js_handle = none;
}
execution_after (Future.ready (suc n)) true handles e = record e {
  status = Status.done;
  returned = suc n;
  js_handle = some (make_js_handle handles (suc n)).0;
}

abbrev pub handles_after : Future → Bool → List ℕ → List ℕ
handles_after (Future.ready (suc n)) true handles = (make_js_handle handles (suc n)).1
handles_after future is_reference handles = handles

complete_lem :
    (p : PendingCall) (result : ℕ) (c : Call) (vm : Vm) (es : List Execution) (e : Execution)
    (es' : List Execution)
    → vm.executions ≡ es ++ e ∷ es'
    → All (λ x. (x.address == p.execution) ≡ false) es
    → e.address ≡ p.execution
    → complete p result vm ≡ record vm {
      executions =
          es
          ++ execution_after (Future.ready result) p.call.returns_reference vm.js_handles e ∷ es';
      js_handles = handles_after (Future.ready result) p.call.returns_reference vm.js_handles;
    }
unfolding complete
complete_lem p zero c vm es e es' records none_before same =
    let written = modify_execution-append p.execution (fill zero none) es e es' none_before same in
    elim (Bool-cases p.call.returns_reference) [
      | inl reference ↦ rw (reference, records, written) refl
      | inr primitive ↦ rw (primitive, records, written) refl
    ]
complete_lem p (suc n) c vm es e es' records none_before same =
    elim (Bool-cases p.call.returns_reference) [
      | inl reference ↦
          let some_object : (suc n == 0) ≡ false = ground arith in
          let handle = some (make_js_handle vm.js_handles (suc n)).0 in
          let written =
            modify_execution-append p.execution (fill (suc n) handle) es e es' none_before same in
          rw (reference, some_object, records, written) refl
      | inr primitive ↦
          let written =
            modify_execution-append p.execution (fill (suc n) none) es e es' none_before same in
          rw (primitive, records, written) refl
    ]

unshift_lem :
    (result : ℕ) (c : Call) (vm : Vm) (l : List ThreadInfo) (j : ThreadInfo) (q : PendingCall)
    (qs : List PendingCall) (r : List ThreadInfo)
    → vm.round_robin ≡ l ++ j ∷ r
    → Without j.thread.tid l
    → j.call_queue ≡ q ∷ qs
    → unshift j vm ≡ record vm { round_robin = threads_after (Future.ready result) c l j q qs r }
unfolding unshift free_thread_info
unshift_lem result c vm l j q [] r queue none_before calls =
    let removed : remove_info j.thread.tid vm.round_robin ≡ l ++ r =
      ap (remove_info j.thread.tid) queue
      ∙ remove_info-append j.thread.tid l j r none_before refl in
    rw (calls, removed) refl
unshift_lem result c vm l j q (s ∷ qs) r queue none_before calls =
    let popped : modify j.thread.tid pop_call vm.round_robin ≡ l ++ pop_call j ∷ r =
      ap (modify j.thread.tid pop_call) queue
      ∙ modify-append j.thread.tid pop_call l j r none_before refl in
    let more : (suc (length qs) == 0) ≡ false = ground arith in rw (calls, popped, calls, more) refl

settle_lem :
    (tid : ℕ) (p : PendingCall) (future : Future) (c : Call) (vm : Vm) (l : List ThreadInfo)
    (j : ThreadInfo) (q : PendingCall) (qs : List PendingCall) (r : List ThreadInfo)
    (es : List Execution) (e : Execution) (es' : List Execution)
    → vm.round_robin ≡ l ++ j ∷ r
    → Without tid l
    → j.thread.tid ≡ tid
    → j.call_queue ≡ q ∷ qs
    → vm.executions ≡ es ++ e ∷ es'
    → All (λ x. (x.address == p.execution) ≡ false) es
    → e.address ≡ p.execution
    → settle tid p (c, future, vm) ≡ record vm {
      round_robin = threads_after future c l j q qs r;
      executions = es ++ execution_after future p.call.returns_reference vm.js_handles e ∷ es';
      js_handles = handles_after future p.call.returns_reference vm.js_handles;
    }
unfolding settle
settle_lem tid p (Future.not_ready wakeup) c vm l j q qs r es e es' queue none_before same calls
      records fresh at =
    let keep = λ (i : ThreadInfo). record i {
      wakeup_info = wakeup;
      call_queue = set_first_call c i.call_queue;
    } in
    let kept = modify-append tid keep l j r none_before same in
    rw (queue, kept, calls, records) refl
settle_lem tid p (Future.ready result) c vm l j q qs r es e es' queue none_before same calls records
      fresh at =
    let found : find_info tid vm.round_robin ≡ some j =
      ap (find_info tid) queue ∙ find_info-append tid l j r none_before same in
    let written = complete_lem p result c vm es e es' records fresh at in
    let over : settle tid p (c, Future.ready result, vm) ≡ unshift j (complete p result vm) =
      rw (settle, found) refl in
    over
    ∙ ap (unshift j) written
    ∙ unshift_lem result c
        (record vm {
          executions =
              es
              ++ execution_after (Future.ready result) p.call.returns_reference vm.js_handles e
                ∷ es';
          js_handles = handles_after (Future.ready result) p.call.returns_reference vm.js_handles;
        })
        l j q qs r queue (rw same none_before) calls

turned-woken :
    (until : ℕ) (pre : List ThreadInfo) (i : ThreadInfo) (post : List ThreadInfo)
    → Without i.thread.tid pre
    → Without i.thread.tid post
    → modify i.thread.tid
        (awake_until until)
        (modify i.thread.tid with_fuel (post ++ (pre ++ i ∷ [])))
      ≡ post ++ (pre ++ woken until i ∷ [])
turned-woken until pre i post before behind =
    let tid = i.thread.tid in
    let last = λ (f : ThreadInfo → ThreadInfo) (x : ThreadInfo) (same : x.thread.tid ≡ tid).
      modify-past tid f post (pre ++ x ∷ []) behind
      ∙ ap (λ m. post ++ m) (modify-append tid f pre x [] before same) in
    ap (modify tid (awake_until until)) (last with_fuel i refl)
    ∙ last (awake_until until) (with_fuel i) refl

-- Unless only daemons are left, a step turns to the first thread that does not sleep: the
-- interpreter is given the first of its calls, with the thread at the end of the round robin, its
-- wake-up record cleared, its fuel refilled and its time slice set, saturated at 64 bits. Given
-- what the interpreter makes of this: if the call yields, the thread keeps the call as far as it
-- has come and what it waits for; if it returns, the record of the call holds that and the
-- result, a reference that is not null under a new handle, and the call leaves the queue; a
-- thread without another call leaves the round robin, and whoever waits for it to die is
-- notified. The other threads and records are left as they are, and the step answers whether more
-- than daemons remain. The thread has a call, sleeps at neither of the two times that the step
-- reads, and shares its tid with none of the others; the interpreter leaves it in the round robin
-- with a call, and its record among the records.
pub rr_scheduler_step-awake :
    (interpret : Interpret) (clock : ℕ → ℕ) (n : ℕ) (vm : Vm) (pre : List ThreadInfo)
    (i : ThreadInfo) (post : List ThreadInfo) (p : PendingCall) (ps : List PendingCall) (c : Call)
    (future : Future) (vm' : Vm) (l : List ThreadInfo) (j : ThreadInfo) (q : PendingCall)
    (qs : List PendingCall) (r : List ThreadInfo) (es : List Execution) (e : Execution)
    (es' : List Execution)
    → vm.round_robin ≡ pre ++ i ∷ post
    → finished vm.round_robin ≡ false
    → Without i.thread.tid pre
    → Without i.thread.tid post
    → All (λ x. is_sleeping vm.reference_pending (clock 1) x ≡ true) pre
    → is_sleeping vm.reference_pending (clock 1) i ≡ false
    → is_sleeping vm.reference_pending (clock 0) i ≡ false
    → i.call_queue ≡ p ∷ ps
    → interpret p.call
        (record vm { round_robin = post ++ (pre ++ woken (clock 0 + vm.preemption_us) i ∷ []) })
      ≡ (c, future, vm')
    → vm'.round_robin ≡ l ++ j ∷ r
    → Without i.thread.tid l
    → j.thread.tid ≡ i.thread.tid
    → j.call_queue ≡ q ∷ qs
    → vm'.executions ≡ es ++ e ∷ es'
    → All (λ x. (x.address == p.execution) ≡ false) es
    → e.address ≡ p.execution
    → let threads = threads_after future c l j q qs r in
      rr_scheduler_step interpret clock (suc n) vm ≡ (
        if finished threads then Status.done else Status.more,
        record vm' {
          round_robin = threads;
          executions = es ++ execution_after future p.call.returns_reference vm'.js_handles e ∷ es';
          js_handles = handles_after future p.call.returns_reference vm'.js_handles;
        },
      )
rr_scheduler_step-awake interpret clock n vm pre i post p ps c future vm' l j q qs r es e es' queue
      going before behind asleep awake now calls ran left none_before same left_calls records fresh
      at =
    let tid = i.thread.tid in
    let turned = turned-woken (clock 0 + vm.preemption_us) pre i post before behind in
    let after : settle tid p (
          interpret p.call (record vm {
            round_robin =
                modify tid (awake_until (clock 0 + vm.preemption_us))
                  (modify tid with_fuel (post ++ (pre ++ i ∷ [])));
          }))
        ≡ settle tid p (c, future, vm') =
      ap (λ m. settle tid p (interpret p.call (record vm { round_robin = m }))) turned
      ∙ ap (settle tid p) ran in
    rr_scheduler_step-settle interpret clock n vm pre i post p ps queue going asleep awake now calls
    ∙ ap (λ v. (status_of v, v))
        (after
          ∙ settle_lem tid p future c vm' l j q qs r es e es' left none_before same left_calls
              records fresh at)
