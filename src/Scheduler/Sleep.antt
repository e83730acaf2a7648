-- ===== src/Scheduler/Sleep.antt =====
-- vm/roundrobin_scheduler.c: `rr_scheduler_may_sleep_us`, how long the caller may sleep before it
-- steps the scheduler again.
use b_jvm.Common.{
  ℕ, ◌+◌, ◌-◌, ◌≤◌, ◌<◌, ◌≡◌, refl, sym, ◌∙◌, Option-cases, Bool, true, false, ◌&&◌, ◌||◌, not,
  List, [], ◌∷◌, Option, none, some, ltb, leb, ◌==◌, if◌then◌else◌, length, All, arith, Bool-cases,
  inl, inr,
}
use mathlib.Core.Option.{some_inj}
use b_jvm.Scheduler.{
  Thread, ThreadInfo, WakeupInfo, is_sleeping, sleeps, is_enter_waiting, waits, is_blocked,
  is_reference_pending,
}
use b_jvm.Scheduler.Next.{wakeup_us, uint64_max, wakeup_of}

abbrev has_calls : ThreadInfo → Bool
has_calls info = ltb 0 (length info.call_queue)

-- A thread that the scheduler could run at the given time.
unfoldable pub is_runnable : Bool → ℕ → ThreadInfo → Bool
unfolding is_sleeping
is_runnable pending time info = has_calls info && not (is_sleeping pending time info)

abbrev sooner : ThreadInfo → ℕ → ℕ
sooner info least =
    if not (wakeup_us info == 0) && ltb (wakeup_us info) least then wakeup_us info else least

-- The loop; `none` is its early `return 0`.
unfoldable min_wakeup : Bool → ℕ → List ThreadInfo → ℕ → Option ℕ
unfolding is_sleeping
min_wakeup pending time [] least = some least
min_wakeup pending time (i ∷ l) least =
    if has_calls i
    then if is_sleeping pending time i then min_wakeup pending time l (sooner i least) else none
    else min_wakeup pending time l least

abbrev sleep_for : ℕ → Option ℕ → ℕ
sleep_for time none = 0
sleep_for time (some least) = if ltb time least then least - time else 0

unfoldable pub may_sleep_us : Bool → ℕ → List ThreadInfo → ℕ
unfolding min_wakeup
may_sleep_us pending time l = sleep_for time (min_wakeup pending time l uint64_max)

sleeps-later :
    (pending : Bool) (now later : ℕ) (t : Thread) (o : Option WakeupInfo)
    → sleeps pending now t o ≡ true
    → ((wakeup_of o == 0) || leb later (wakeup_of o)) ≡ true
    → sleeps pending later t o ≡ true
unfolding sleeps waits
sleeps-later pending now later t none h up = h
sleeps-later pending now later t (some w) h up =
    let until : (reference blocked kept : Bool) (wakeup : ℕ)
        → (if reference
            then not pending
            else (if blocked then kept && (wakeup == 0 || leb now wakeup) else false))
          ≡ true
        → ((wakeup == 0) || leb later wakeup) ≡ true
        → (if reference
            then not pending
            else (if blocked then kept && (wakeup == 0 || leb later wakeup) else false))
          ≡ true =
      λ reference blocked kept wakeup g v. ground arith in
    until (is_reference_pending w.kind) (is_blocked t w)
      (not (t.interrupted && not (is_enter_waiting w.kind))) w.wakeup_us h up

sleeps-earlier :
    (pending : Bool) (earlier now : ℕ) (t : Thread) (o : Option WakeupInfo)
    → earlier ≤ now
    → sleeps pending now t o ≡ true
    → sleeps pending earlier t o ≡ true
unfolding sleeps waits
sleeps-earlier pending earlier now t none le h = h
sleeps-earlier pending earlier now t (some w) le h =
    let until : (reference blocked kept : Bool) (wakeup : ℕ)
        → (if reference
            then not pending
            else (if blocked then kept && (wakeup == 0 || leb now wakeup) else false))
          ≡ true
        → (if reference
            then not pending
            else (if blocked then kept && (wakeup == 0 || leb earlier wakeup) else false))
          ≡ true =
      λ reference blocked kept wakeup g. ground arith in
    until (is_reference_pending w.kind) (is_blocked t w)
      (not (t.interrupted && not (is_enter_waiting w.kind))) w.wakeup_us h

-- A thread that sleeps has slept at any earlier time, its wait unchanged.
pub is_sleeping-earlier :
    (pending : Bool) (earlier now : ℕ) (i : ThreadInfo)
    → earlier ≤ now
    → is_sleeping pending now i ≡ true
    → is_sleeping pending earlier i ≡ true
unfolding is_sleeping
is_sleeping-earlier pending earlier now i le h =
    sleeps-earlier pending earlier now i.thread i.wakeup_info le h

-- The thread sleeps, if it has calls, up to the time `d`.
abbrev sleeps_until : ℕ → ThreadInfo → Bool
sleeps_until d i = not (has_calls i) || ((wakeup_us i == 0) || leb d (wakeup_us i))

min_wakeup_lem :
    (pending : Bool) (time : ℕ) (l : List ThreadInfo) (least d : ℕ)
    → min_wakeup pending time l least ≡ some d
    → (d ≤ least)
      × All (λ i. (not (has_calls i) || is_sleeping pending time i) ≡ true) l
      × All (λ i. sleeps_until d i ≡ true) l
unfolding min_wakeup
min_wakeup_lem pending time [] least d h = (omega (arith, some_inj.0 h), tt, tt)
min_wakeup_lem pending time (i ∷ l) least d h = elim (Bool-cases (has_calls i)) [
  | inl calls ↦ elim (Bool-cases (is_sleeping pending time i)) [
    | inl asleep ↦
        let step : min_wakeup pending time (i ∷ l) least
            ≡ min_wakeup pending time l (sooner i least) =
          rw (calls, asleep) refl in
        let rest = min_wakeup_lem pending time l (sooner i least) d (sym step ∙ h) in
        (
          ground (arith, rest.0),
          (rw (asleep) (ground arith), rest.1),
          (ground (arith, rest.0), rest.2),
        )
    | inr awake ↦
        let step : min_wakeup pending time (i ∷ l) least ≡ none = rw (calls, awake) refl in
        absurd cc
  ]
  | inr idle ↦
      let step : min_wakeup pending time (i ∷ l) least ≡ min_wakeup pending time l least =
        rw idle refl in
      let rest = min_wakeup_lem pending time l least d (sym step ∙ h) in
      (rest.0, (rw idle refl, rest.1), (rw idle refl, rest.2))
]

is_runnable-later :
    (pending : Bool) (time later d : ℕ) (l : List ThreadInfo)
    → later ≤ d
    → All (λ i. (not (has_calls i) || is_sleeping pending time i) ≡ true) l
    → All (λ i. sleeps_until d i ≡ true) l
    → All (λ i. is_runnable pending later i ≡ false) l
unfolding is_runnable is_sleeping
is_runnable-later pending time later d [] le h until = tt
is_runnable-later pending time later d (i ∷ l) le h until = (
  elim (Bool-cases (has_calls i)) [
    | inl calls ↦
        let asleep : is_sleeping pending time i ≡ true = sym (rw calls refl) ∙ h.0 in
        let up : ((wakeup_us i == 0) || leb later (wakeup_us i)) ≡ true =
          ground (arith, calls, until.0) in
        rw (calls, sleeps-later pending time later i.thread i.wakeup_info asleep up) refl
    | inr idle ↦ rw idle refl
  ],
  is_runnable-later pending time later d l le h.1 until.1,
)

-- Where the answer is not 0, no thread can run now, nor at any time before it has passed, unless
-- an event other than the time wakes one.
pub may_sleep_us-is_runnable :
    (pending : Bool) (time later : ℕ) (l : List ThreadInfo)
    → 0 < may_sleep_us pending time l
    → later ≤ time + may_sleep_us pending time l
    → All (λ i. is_runnable pending later i ≡ false) l
unfolding may_sleep_us
may_sleep_us-is_runnable pending time later l some_time le =
    elim (Option-cases (min_wakeup pending time l uint64_max)) [
      | inl early ↦
          let none_left : may_sleep_us pending time l ≡ 0 = rw early refl in
          absurd (omega (arith, none_left))
      | inr found ↦
          let answer : may_sleep_us pending time l ≡ sleep_for time (some found.0) =
            rw (found.1) refl in
          let lem = min_wakeup_lem pending time l uint64_max found.0 found.1 in
          is_runnable-later pending time later found.0 l (ground (arith, answer, some_time, le))
            lem.1 lem.2
    ]
