-- ===== src/Monitor/Interleave.antt =====
-- vm/monitors.c: any sequence of the threads' operations on any objects, in the order in which the
-- scheduler lets them run.
use b_jvm.Common.{
  ℕ, ◌+◌, ◌-◌, ◌^◌, ◌<◌, ◌≤◌, ◌≡◌, ◌≢◌, refl, sym, ap, subst, ◌∙◌, true, false, List, [], ◌∷◌, ◌==◌,
  arith, Bool-cases, inl, inr, All,
}
use b_jvm.Monitor.{World, update}
use b_jvm.Monitor.Owner.{
  Lock, owner, Action, Answer, lock_step, perform, weight, IsWithin, IsRequest,
}
use b_jvm.Monitor.Refine.{Meets, perform_lem}

pub record Request : Type 0 where
  pub thread : ℕ
  pub object : ℕ
  pub action : Action

unfoldable pub run : List Request → World → List Answer
unfolding perform
run [] w = []
run (r ∷ rs) w = let done = perform r.action r.thread r.object w in done.0 ∷ run rs done.1

-- The locks of the specification, one for each object.
unfoldable pub lock_run : List Request → (ℕ → Lock) → List Answer
lock_run [] locks = []
lock_run (r ∷ rs) locks =
    let done = lock_step r.action r.thread (locks r.object) in
    done.0 ∷ lock_run rs (update locks r.object done.1)

abbrev pub total : List Request → ℕ
total [] = 0
total (r ∷ rs) = weight r.action + total rs

abbrev pub locks_of : World → ℕ → Lock
locks_of w p = owner (w.headers p)

IsWithin-weaken : (b c : ℕ) (l : Lock) → b ≤ c → IsWithin b l → IsWithin c l
IsWithin-weaken b c Lock.fresh le h = tt
IsWithin-weaken b c Lock.free le h = tt
IsWithin-weaken b c (Lock.held o n) le h = (h.0, omega (arith, h.1))

lock_step-IsWithin :
    (a : Action) (t bound : ℕ) (l : Lock)
    → IsRequest a
    → IsWithin bound l
    → IsWithin (bound + weight a) (lock_step a t l).1
lock_step-IsWithin (Action.acquire true) t bound Lock.fresh ok h = (omega arith, omega arith)
lock_step-IsWithin (Action.acquire false) t bound Lock.fresh ok h = tt
lock_step-IsWithin (Action.acquire room) t bound Lock.free ok h = (omega arith, omega arith)
lock_step-IsWithin (Action.acquire room) t bound (Lock.held o c) ok h = elim (Bool-cases (o == t)) [
  | inl mine ↦ rw mine (omega arith, omega (arith, h.1))
  | inr other ↦ rw other (h.0, omega (arith, h.1))
]
lock_step-IsWithin Action.release t bound Lock.fresh ok h = tt
lock_step-IsWithin Action.release t bound Lock.free ok h = tt
lock_step-IsWithin Action.release t bound (Lock.held o c) ok h = elim (Bool-cases (o == t)) [
  | inl mine ↦ elim (Bool-cases (c - 1 == 0)) [
    | inl last ↦ rw (mine, last) tt
    | inr more ↦ rw (mine, more) (ground (arith, more), omega (arith, h.1))
  ]
  | inr other ↦ rw other (h.0, omega (arith, h.1))
]
lock_step-IsWithin Action.release_all t bound Lock.fresh ok h = tt
lock_step-IsWithin Action.release_all t bound Lock.free ok h = tt
lock_step-IsWithin Action.release_all t bound (Lock.held o c) ok h = elim (Bool-cases (o == t)) [
  | inl mine ↦ rw mine tt
  | inr other ↦ rw other (h.0, omega (arith, h.1))
]
lock_step-IsWithin (Action.reacquire n) t bound Lock.fresh ok h = tt
lock_step-IsWithin (Action.reacquire n) t bound Lock.free ok h = (ok, omega arith)
lock_step-IsWithin (Action.reacquire n) t bound (Lock.held o c) ok h = elim (Bool-cases (o == t)) [
  | inl mine ↦ rw mine (h.0, omega (arith, h.1))
  | inr other ↦ rw other (h.0, omega (arith, h.1))
]
lock_step-IsWithin Action.query t bound Lock.fresh ok h = tt
lock_step-IsWithin Action.query t bound Lock.free ok h = tt
lock_step-IsWithin Action.query t bound (Lock.held o c) ok h = elim (Bool-cases (o == t)) [
  | inl mine ↦ rw mine (h.0, omega (arith, h.1))
  | inr other ↦ rw other (h.0, omega (arith, h.1))
]

-- The locks after an operation are the specification's.
locks_after :
    (w w' : World) (obj : ℕ) (l : Lock)
    → owner (w'.headers obj) ≡ l
    → ((p : ℕ) → p ≢ obj → w'.headers p ≡ w.headers p)
    → (p : ℕ) → update (locks_of w) obj l p ≡ locks_of w' p
locks_after w w' obj l here there p = elim (Bool-cases (p == obj)) [
  | inl same ↦ let e : obj ≡ p = ground (arith, same) in rw same (sym here ∙ ap (locks_of w') e)
  | inr other ↦
      let ne : p ≢ obj = λ e. ground (arith, other, e) in rw other (ap owner (sym (there p ne)))
]

IsWithin-after :
    (a : Action) (t obj bound : ℕ) (w w' : World)
    → IsRequest a
    → ((p : ℕ) → IsWithin bound (locks_of w p))
    → Meets w obj (perform a t obj w) (lock_step a t (locks_of w obj))
    → (p : ℕ) → IsWithin (bound + weight a) (locks_of (perform a t obj w).1 p)
IsWithin-after a t obj bound w w' ok within meets p = elim (Bool-cases (p == obj)) [
  | inl same ↦
      let e : obj ≡ p = ground (arith, same) in
      subst (λ q. IsWithin (bound + weight a) (locks_of (perform a t obj w).1 q)) e
        (subst (IsWithin (bound + weight a)) (sym meets.locks)
          (lock_step-IsWithin a t bound (locks_of w obj) ok (within obj)))
  | inr other ↦
      let ne : p ≢ obj = λ e. ground (arith, other, e) in
      subst (λ h. IsWithin (bound + weight a) (owner h)) (sym (meets.others p ne))
        (IsWithin-weaken bound (bound + weight a) (locks_of w p) (omega arith) (within p))
]

-- Whatever the threads ask for, in whatever order, each call from its start, the answers are those
-- of one reentrant lock for each object, in a world where held monitors have a positive count, as
-- long as fewer than 2^32 holds can add up and no monitor is taken back with a count of 0.
pub run-lock_run :
    (rs : List Request) (bound : ℕ) (w : World)
    → ((p : ℕ) → IsWithin bound (locks_of w p))
    → All (λ (r : Request). IsRequest r.action) rs
    → bound + total rs < 2 ^ 32
    → run rs w ≡ lock_run rs (locks_of w)
unfolding run lock_run
run-lock_run [] bound w within ok fits = refl
run-lock_run (r ∷ rs) bound w within ok fits =
    let meets = perform_lem r.action r.thread r.object bound w (within r.object) (omega arith) in
    let next = (perform r.action r.thread r.object w).1 in
    let want = (lock_step r.action r.thread (locks_of w r.object)).1 in
    let same : update (locks_of w) r.object want ≡ locks_of next =
      λ i p. locks_after w next r.object want meets.locks meets.others p i in
    let rest =
      run-lock_run rs (bound + weight r.action) next
        (IsWithin-after r.action r.thread r.object bound w next ok.0 within meets) ok.1
        (omega arith) in
    rw (same, meets.answers, rest) refl
