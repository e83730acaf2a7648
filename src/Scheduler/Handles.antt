-- ===== src/Scheduler/Handles.antt =====
-- vm/bjvm.c: the table of objects that JavaScript holds on to, by index.
use b_jvm.Common.{
  ℕ, zero, suc, ◌+◌, ◌≡◌, ◌≢◌, refl, ap, List, [], ◌∷◌, ◌==◌, if◌then◌else◌, get_or, set, arith,
  Bool-cases, inl, inr,
}

-- Out of range, or null.
unfoldable pub deref_js_handle : List ℕ → ℕ → ℕ
deref_js_handle handles index = get_or handles index 0

-- The first null entry from index `i` on is taken, or a new one is pushed.
unfoldable make_js_handle_at : List ℕ → ℕ → ℕ → ℕ × List ℕ
make_js_handle_at [] obj i = (i, obj ∷ [])
make_js_handle_at (h ∷ hs) obj i =
    let rest = make_js_handle_at hs obj (suc i) in
    if h == 0 then (i, obj ∷ hs) else (rest.0, h ∷ rest.1)

unfoldable pub make_js_handle : List ℕ → ℕ → ℕ × List ℕ
unfolding make_js_handle_at
make_js_handle handles obj = make_js_handle_at handles obj 0

unfoldable pub drop_js_handle : List ℕ → ℕ → List ℕ
drop_js_handle handles index = set handles index 0

record Handled (hs : List ℕ) (obj : ℕ) (index : ℕ) (hs' : List ℕ) : Type 0 where
  free : get_or hs index 0 ≡ 0
  made : get_or hs' index 0 ≡ obj
  kept : (j : ℕ) → j ≢ index → get_or hs' j 0 ≡ get_or hs j 0

get_or-nil : (j : ℕ) → get_or {A = ℕ} [] j 0 ≡ 0
get_or-nil zero = refl
get_or-nil (suc j) = refl

get_or-one : (obj j : ℕ) → j ≢ 0 → get_or (obj ∷ []) j 0 ≡ 0
get_or-one obj zero ne = absurd (ne refl)
get_or-one obj (suc j) ne = refl

get_or-head : (hs : List ℕ) (h obj j : ℕ) → j ≢ 0 → get_or (obj ∷ hs) j 0 ≡ get_or (h ∷ hs) j 0
get_or-head hs h obj zero ne = absurd (ne refl)
get_or-head hs h obj (suc j) ne = refl

get_or-tail :
    (h : ℕ) (hs hs' : List ℕ) (k : ℕ)
    → ((j : ℕ) → j ≢ k → get_or hs' j 0 ≡ get_or hs j 0)
    → (j : ℕ) → j ≢ suc k
    → get_or (h ∷ hs') j 0 ≡ get_or (h ∷ hs) j 0
get_or-tail h hs hs' k kept zero ne = refl
get_or-tail h hs hs' k kept (suc j) ne = kept j (λ e. ne (ap suc e))

-- The index that the search answers stands `k` entries further on.
make_js_handle_at_lem :
    (hs : List ℕ) (obj i : ℕ)
    → (k : ℕ) × ((make_js_handle_at hs obj i).0 ≡ i + k)
      × Handled hs obj k (make_js_handle_at hs obj i).1
unfolding make_js_handle_at
make_js_handle_at_lem [] obj i =
    (0, omega arith, record { free = refl; made = refl; kept = λ j ne. get_or-one obj j ne })
make_js_handle_at_lem (h ∷ hs) obj i = elim (Bool-cases (h == 0)) [
  | inl null ↦ (
    0,
    rw null (omega arith),
    rw null (record { free = ground arith; made = refl; kept = λ j ne. get_or-head hs h obj j ne }),
  )
  | inr used ↦
      let (k, at, rest) = make_js_handle_at_lem hs obj (suc i) in
      (
        suc k,
        rw used (omega (arith, at)),
        rw used (record {
          free = rest.free;
          made = rest.made;
          kept = λ j ne. get_or-tail h hs _ k rest.kept j ne;
        }),
      )
]

-- A new handle reads as its object, its index was not in use, and every other index reads as
-- before.
pub make_js_handle-deref_js_handle :
    (hs : List ℕ) (obj : ℕ)
    → (deref_js_handle hs (make_js_handle hs obj).0 ≡ 0)
      × (deref_js_handle (make_js_handle hs obj).1 (make_js_handle hs obj).0 ≡ obj)
      × ((j : ℕ)
          → j ≢ (make_js_handle hs obj).0
          → deref_js_handle (make_js_handle hs obj).1 j ≡ deref_js_handle hs j)
unfolding deref_js_handle make_js_handle
make_js_handle-deref_js_handle hs obj =
    let (k, at, rest) = make_js_handle_at_lem hs obj 0 in
    let same : (make_js_handle_at hs obj 0).0 ≡ k = omega (arith, at) in
    (rw same rest.free, rw same rest.made, rw same rest.kept)
