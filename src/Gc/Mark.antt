-- ===== src/Gc/Mark.antt =====
-- vm/gc.c: what marking an object does to the heap, and what a visit to a list of references does.
use b_jvm.Common.{
  ℕ, suc, ◌+◌, ◌≤◌, ◌≡◌, ◌≢◌, refl, sym, ap, subst, Bool, true, false, List, [], ◌∷◌, Option, none,
  some, ◌==◌, if◌then◌else◌, length, arith, Bool-cases, inl, inr,
}
use b_jvm.Gc.{Object, Cell, Heap, find, mark}

abbrev pub object_in : Option Cell → Option Object
object_in none = none
object_in (some c) = some c.object

abbrev pub object_of : ℕ → Heap → Option Object
object_of a h = object_in (find a h)

abbrev pub flag_in : Option Cell → ℕ
flag_in none = 0
flag_in (some c) = if c.reachable then 1 else 0

-- 1 for a marked object, else 0.
abbrev pub marked : ℕ → Heap → ℕ
marked a h = flag_in (find a h)

abbrev pub unmarked : Heap → ℕ
unmarked [] = 0
unmarked (c ∷ h) = (if c.reachable then 0 else 1) + unmarked h

abbrev pub count : ℕ → List ℕ → ℕ
count a [] = 0
count a (x ∷ l) = (if x == a then 1 else 0) + count a l

abbrev pub contains : List ℕ → ℕ → Bool
contains [] a = false
contains (x ∷ l) a = if x == a then true else contains l a

pub object_of-mark : (a b : ℕ) (h : Heap) → object_of b (mark a h) ≡ object_of b h
object_of-mark a b [] = refl
object_of-mark a b (c ∷ h) = ground (arith, object_of-mark a b h)

pub marked-mark : (a b : ℕ) (h : Heap) → a ≢ b → marked b (mark a h) ≡ marked b h
marked-mark a b [] ne = refl
marked-mark a b (c ∷ h) ne = ground (arith, marked-mark a b h ne)

pub marked-mark_self : (a : ℕ) (h : Heap) (c : Cell) → find a h ≡ some c → marked a (mark a h) ≡ 1
marked-mark_self a [] c e = cc
marked-mark_self a (x ∷ h) c e = ground (arith, marked-mark_self a h c)

pub unmarked-mark :
    (a : ℕ) (h : Heap) (c : Cell)
    → find a h ≡ some c
    → c.reachable ≡ false
    → suc (unmarked (mark a h)) ≡ unmarked h
unmarked-mark a [] c e new = cc
unmarked-mark a (x ∷ h) c e new = ground (arith, unmarked-mark a h c)

pub found :
    (a : ℕ) (h : Heap) (o : Object) → object_of a h ≡ some o → (c : Cell) × (find a h ≡ some c)
found a h o e = go (find a h) e refl
  where
    go : (f : Option Cell) → object_in f ≡ some o → find a h ≡ f → (c : Cell) × (find a h ≡ some c)
    go none e at = cc
    go (some c) e at = (c, at)

pub marked-found :
    (a : ℕ) (h : Heap) (c : Cell) → find a h ≡ some c → marked a h ≡ (if c.reachable then 1 else 0)
marked-found a h c at = rw at refl

pub marked-mark_eq :
    (a b : ℕ) (h : Heap) (c : Cell)
    → find a h ≡ some c
    → marked b (mark a h) ≡ (if a == b then 1 else marked b h)
marked-mark_eq a b h c at = elim (Bool-cases (a == b)) [
  | inl p ↦
      let e : a ≡ b = ground arith in
      rw p (subst (λ x. marked x (mark a h) ≡ 1) e (marked-mark_self a h c at))
  | inr p ↦ rw p (marked-mark a b h (ground arith))
]

pub mark_lem : (a : ℕ) (h : Heap) → marked a h ≡ 1 → mark a h ≡ h
mark_lem a [] m = refl
mark_lem a (c ∷ h) m = elim (Bool-cases (c.address == a)) [
  | inl p ↦ rw p (
      let e : c.reachable ≡ true = ground arith in
      ap (λ (r : Bool). record c { reachable = r } ∷ h) (sym e))
  | inr p ↦ rw p (ap (λ t. c ∷ t) (mark_lem a h (ground arith)))
]

pub marked-le : (a : ℕ) (h : Heap) → marked a h ≤ 1
marked-le a h = go (find a h)
  where
    go : (f : Option Cell) → flag_in f ≤ 1
    go none = omega arith
    go (some c) = ground arith

pub unmarked-le : (h : Heap) → unmarked h ≤ length h
unmarked-le [] = omega arith
unmarked-le (c ∷ h) = ground (arith, unmarked-le h)

pub marked_found : (a : ℕ) (h : Heap) → marked a h ≡ 1 → (c : Cell) × (find a h ≡ some c)
marked_found a h m = go (find a h) m refl
  where
    go : (f : Option Cell) → flag_in f ≡ 1 → find a h ≡ f → (c : Cell) × (find a h ≡ some c)
    go none e at = cc
    go (some c) e at = (c, at)
