-- ===== src/Scheduler/Roots.antt =====
-- vm/roundrobin_scheduler.c: the objects that the pending calls keep alive. The vector of the roots is
-- passed by value: `arrput` of stb_ds, which is not modelled, may move it to a larger allocation, and
-- the caller's pointer then leads to freed memory.
use mathlib.Core.List.{Mem, mem-cons_self, mem-cons_of_mem, mem-append_left, mem-append_right}
use mathlib.Core.Option.{some_inj}
use b_jvm.Common.{
  Bool-cases, inl, inr, sym, ap, ◌∙◌, ℕ, zero, suc, ◌+◌, ◌-◌, ◌≡◌, refl, Bool, true, false, ◌||◌,
  ◌&&◌, List, [], ◌∷◌, ◌++◌, Option, none, some, ◌==◌, if◌then◌else◌, get_elem?, get_or, arith,
  append_assoc, append-nil,
}
use b_jvm.Scheduler.{Call, PendingCall, ThreadInfo}

unfoldable pub is_nth_arg_reference : Call → ℕ → Bool
is_nth_arg_reference c i =
    if c.is_static
    then get_or c.arg_references i false
    else i == 0 || get_or c.arg_references (i - 1) false

-- What is to be appended: the arguments from the `k`th on that are references.
unfoldable pub call_roots : Call → List ℕ → ℕ → List ℕ
unfolding is_nth_arg_reference
call_roots c [] k = []
call_roots c (a ∷ args) k =
    if is_nth_arg_reference c k then a ∷ call_roots c args (suc k) else call_roots c args (suc k)

unfoldable pub queue_roots : List PendingCall → List ℕ
unfolding call_roots
queue_roots [] = []
queue_roots (p ∷ ps) = call_roots p.call p.call.args 0 ++ queue_roots ps

unfoldable pub argument_roots : List ThreadInfo → List ℕ
unfolding queue_roots
argument_roots [] = []
argument_roots (i ∷ l) = queue_roots i.call_queue ++ argument_roots l

-- `items`: the function's own array; `is_in_place`: whether the caller's pointer still leads to it.
record RootVector : Type 0 where
  items : List ℕ
  is_in_place : Bool

abbrev seen_by_caller : RootVector → Option (List ℕ)
seen_by_caller r = if r.is_in_place then some r.items else none

-- `stays` is whether `arrput` has room left behind these items, and so leaves them where they are.
module _ (stays : List ℕ → Bool) where
  abbrev push_root : ℕ → RootVector → RootVector
  push_root a r = record { items = r.items ++ a ∷ []; is_in_place = r.is_in_place && stays r.items }

  -- The three nested loops: over the arguments of a call from the `k`th on, the calls of a thread,
  -- and the threads.
  unfoldable enumerate_args : Call → List ℕ → ℕ → RootVector → RootVector
  unfolding is_nth_arg_reference
  enumerate_args c [] k r = r
  enumerate_args c (a ∷ args) k r =
      enumerate_args c args (suc k) (if is_nth_arg_reference c k then push_root a r else r)

  unfoldable enumerate_calls : List PendingCall → RootVector → RootVector
  unfolding enumerate_args
  enumerate_calls [] r = r
  enumerate_calls (p ∷ ps) r = enumerate_calls ps (enumerate_args p.call p.call.args 0 r)

  unfoldable enumerate_threads : List ThreadInfo → RootVector → RootVector
  unfolding enumerate_calls
  enumerate_threads [] r = r
  enumerate_threads (i ∷ l) r = enumerate_threads l (enumerate_calls i.call_queue r)

  -- What the caller's array holds afterwards; `none` where its pointer leads to freed memory.
  unfoldable pub rr_scheduler_enumerate_gc_roots : List ThreadInfo → List ℕ → Option (List ℕ)
  unfolding enumerate_threads
  rr_scheduler_enumerate_gc_roots l vector =
      seen_by_caller (enumerate_threads l (record { items = vector; is_in_place = true }))

  -- Whether the items stay in place while all of these are appended to them.
  abbrev pub stays_through : List ℕ → List ℕ → Bool
  stays_through items [] = true
  stays_through items (a ∷ more) = stays items && stays_through (items ++ a ∷ []) more

  abbrev push_all : List ℕ → RootVector → RootVector
  push_all [] r = r
  push_all (a ∷ more) r = push_all more (push_root a r)

  push_all-append :
      (more bs : List ℕ) (r : RootVector) → push_all (more ++ bs) r ≡ push_all bs (push_all more r)
  push_all-append [] bs r = refl
  push_all-append (a ∷ more) bs r = push_all-append more bs (push_root a r)

  enumerate_args_lem :
      (c : Call) (args : List ℕ) (k : ℕ) (r : RootVector)
      → enumerate_args c args k r ≡ push_all (call_roots c args k) r
  unfolding enumerate_args call_roots
  enumerate_args_lem c [] k r = refl
  enumerate_args_lem c (a ∷ args) k r = elim (Bool-cases (is_nth_arg_reference c k)) [
    | inl kept ↦ rw kept (enumerate_args_lem c args (suc k) (push_root a r))
    | inr left_out ↦ rw left_out (enumerate_args_lem c args (suc k) r)
  ]

  enumerate_calls_lem :
      (ps : List PendingCall) (r : RootVector) → enumerate_calls ps r ≡ push_all (queue_roots ps) r
  unfolding enumerate_calls queue_roots
  enumerate_calls_lem [] r = refl
  enumerate_calls_lem (p ∷ ps) r =
      enumerate_calls_lem ps (enumerate_args p.call p.call.args 0 r)
      ∙ ap (push_all (queue_roots ps)) (enumerate_args_lem p.call p.call.args 0 r)
      ∙ sym (push_all-append (call_roots p.call p.call.args 0) (queue_roots ps) r)

  enumerate_threads_lem :
      (l : List ThreadInfo) (r : RootVector) → enumerate_threads l r ≡ push_all (argument_roots l) r
  unfolding enumerate_threads argument_roots
  enumerate_threads_lem [] r = refl
  enumerate_threads_lem (i ∷ l) r =
      enumerate_threads_lem l (enumerate_calls i.call_queue r)
      ∙ ap (push_all (argument_roots l)) (enumerate_calls_lem i.call_queue r)
      ∙ sym (push_all-append (queue_roots i.call_queue) (argument_roots l) r)

  push_all-moved :
      (more items : List ℕ)
      → seen_by_caller (push_all more (record { items = items; is_in_place = false })) ≡ none
  push_all-moved [] items = refl
  push_all-moved (a ∷ more) items = push_all-moved more (items ++ a ∷ [])

  push_all-in_place :
      (more items : List ℕ)
      → seen_by_caller (push_all more (record { items = items; is_in_place = true }))
        ≡ (if stays_through items more then some (items ++ more) else none)
  push_all-in_place [] items = ap some (sym (append-nil items))
  push_all-in_place (a ∷ more) items = elim (Bool-cases (stays items)) [
    | inl room ↦
        ap after room
        ∙ push_all-in_place more (items ++ a ∷ [])
        ∙ rw (room, append_assoc items (a ∷ []) more) refl
    | inr full ↦ ap after full ∙ push_all-moved more (items ++ a ∷ []) ∙ rw full refl
  ]
    where
      after : Bool → Option (List ℕ)
      after b = seen_by_caller (push_all more (record { items = items ++ a ∷ []; is_in_place = b }))

call_roots-Mem :
    (c : Call) (args : List ℕ) (n k a : ℕ)
    → get_elem? args k ≡ some a
    → is_nth_arg_reference c (n + k) ≡ true
    → Mem a (call_roots c args n)
unfolding call_roots
call_roots-Mem c [] n k a at reference = cc
call_roots-Mem c (x ∷ args) n zero a at reference =
    let here : is_nth_arg_reference c n ≡ true =
      sym (ap (is_nth_arg_reference c) (omega arith)) ∙ reference in
    let same : x ≡ a = some_inj.0 at in rw (here, same) mem-cons_self
call_roots-Mem c (x ∷ args) n (suc k) a at reference =
    let rest : Mem a (call_roots c args (suc n)) =
      call_roots-Mem c args (suc n) k a at
        (sym (ap (is_nth_arg_reference c) (omega arith)) ∙ reference) in
    elim (Bool-cases (is_nth_arg_reference c n)) [
      | inl kept ↦ rw kept (mem-cons_of_mem x rest)
      | inr left_out ↦ rw left_out rest
    ]

-- The queue of a thread holds the call, and the round robin the thread.
queue_roots-append :
    (a : ℕ) (ps : List PendingCall) (p : PendingCall) (qs : List PendingCall)
    → Mem a (call_roots p.call p.call.args 0)
    → Mem a (queue_roots (ps ++ p ∷ qs))
unfolding queue_roots
queue_roots-append a [] p qs h = mem-append_left (queue_roots qs) h
queue_roots-append a (x ∷ ps) p qs h =
    mem-append_right (call_roots x.call x.call.args 0) (queue_roots-append a ps p qs h)

roots-append :
    (a : ℕ) (l : List ThreadInfo) (i : ThreadInfo) (r : List ThreadInfo)
    → Mem a (queue_roots i.call_queue)
    → Mem a (argument_roots (l ++ i ∷ r))
unfolding argument_roots
roots-append a [] i r h = mem-append_left (argument_roots r) h
roots-append a (x ∷ l) i r h = mem-append_right (queue_roots x.call_queue) (roots-append a l i r h)

-- Every reference among the arguments of a call that waits in the queue of any thread is among
-- the roots of the pending calls. The caller finds these behind the items of its vector if the
-- vector stays in place through all of the appends; if one of them moves it, the caller is left
-- with a pointer to freed memory.
pub rr_scheduler_enumerate_gc_roots-Mem :
    (stays : List ℕ → Bool) (vector : List ℕ) (l r : List ThreadInfo) (i : ThreadInfo)
    (ps qs : List PendingCall) (p : PendingCall) (k a : ℕ)
    → i.call_queue ≡ ps ++ p ∷ qs
    → get_elem? p.call.args k ≡ some a
    → is_nth_arg_reference p.call k ≡ true
    → let roots = argument_roots (l ++ i ∷ r) in
      Mem a roots
      × (rr_scheduler_enumerate_gc_roots stays (l ++ i ∷ r) vector
          ≡ (if stays_through stays vector roots then some (vector ++ roots) else none))
unfolding rr_scheduler_enumerate_gc_roots
rr_scheduler_enumerate_gc_roots-Mem stays vector l r i ps qs p k a queue at reference =
    let kept : Mem a (call_roots p.call p.call.args 0) =
      call_roots-Mem p.call p.call.args 0 k a at
        (sym (ap (is_nth_arg_reference p.call) (omega arith)) ∙ reference) in
    (
      roots-append a l i r (rw queue (queue_roots-append a ps p qs kept)),
      ap seen_by_caller (
            enumerate_threads_lem stays (l ++ i ∷ r)
              (record { items = vector; is_in_place = true }))
          ∙ push_all-in_place stays (argument_roots (l ++ i ∷ r)) vector,
    )
