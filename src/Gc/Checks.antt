-- ===== src/Gc/Checks.antt =====
-- vm/gc.c: tests whether every reference of a given heap that is followed leads to an object.
use b_jvm.Common.{
  ℕ, ◌≡◌, refl, Bool, true, false, ◌&&◌, List, [], ◌∷◌, Option, none, some, sym, subst, ◌==◌,
  if◌then◌else◌, arith, Bool-cases, inl, inr,
}
use mathlib.Core.Option.{some_inj}
use b_jvm.Gc.{Object, Cell, Heap, find, Bounds, is_followed, strong}
use b_jvm.Gc.Mark.{object_of}
use b_jvm.Gc.Visit.{IsClosed}

abbrev pub is_found : Option Cell → Bool
is_found none = false
is_found (some c) = true

abbrev pub check_refs : Bounds → Heap → List ℕ → Bool
check_refs vm h [] = true
check_refs vm h (a ∷ l) =
    (if is_followed vm a then is_found (find a h) else true) && check_refs vm h l

abbrev pub check_cells : Bounds → Heap → Heap → Bool
check_cells vm h [] = true
check_cells vm h (c ∷ g) = check_refs vm h (strong c.object) && check_cells vm h g

both : (a b : Bool) → (a && b) ≡ true → (a ≡ true) × (b ≡ true)
both a b h = ground arith

reached : (a : ℕ) (h : Heap) → is_found (find a h) ≡ true → (o : Object) × (object_of a h ≡ some o)
reached a h e = go (find a h) refl e
  where
    go :
        (f : Option Cell)
        → find a h ≡ f
        → is_found f ≡ true
        → (o : Object) × (object_of a h ≡ some o)
    go none at e = cc
    go (some c) at e = (c.object, rw at refl)

taken : (f g : Bool) → (if f then g else true) ≡ true → f ≡ true → g ≡ true
taken f g e p = ground arith

pub check_refs-IsClosed :
    (vm : Bounds) (h : Heap) (l : List ℕ) → check_refs vm h l ≡ true → IsClosed vm l h
check_refs-IsClosed vm h [] e a v = cc
check_refs-IsClosed vm h (b ∷ l) e a v =
    let (first, rest) =
      both (if is_followed vm b then is_found (find b h) else true) (check_refs vm h l) e in
    elim (Bool-cases (b == a)) [
      | inl p ↦
          let same : b ≡ a = ground arith in
          reached a h (
            subst (λ x. is_found (find x h) ≡ true) same
              (taken (is_followed vm b) (is_found (find b h)) first
                (subst (λ x. is_followed vm x ≡ true) (sym same) v.1)))
      | inr p ↦ check_refs-IsClosed vm h l rest a (rw p at v.0, v.1)
    ]

pub check_cells-IsHeap :
    (vm : Bounds) (h g : Heap) (a : ℕ) (o : Object)
    → check_cells vm h g ≡ true
    → object_of a g ≡ some o
    → IsClosed vm (strong o) h
check_cells-IsHeap vm h [] a o e at = cc
check_cells-IsHeap vm h (c ∷ g) a o e at =
    let (first, rest) = both (check_refs vm h (strong c.object)) (check_cells vm h g) e in
    elim (Bool-cases (c.address == a)) [
      | inl p ↦
          let same : c.object ≡ o = some_inj.0 (rw (p) at at) in
          check_refs-IsClosed vm h (strong o)
            (subst (λ x. check_refs vm h (strong x) ≡ true) same first)
      | inr p ↦ check_cells-IsHeap vm h g a o rest (rw (p) at at)
    ]
