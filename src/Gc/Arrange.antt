-- ===== src/Gc/Arrange.antt =====
-- vm/gc.c: in the order of their addresses, the objects and the monitors stand apart.
use b_jvm.Common.{
  ℕ, ◌+◌, ◌%◌, ◌≤◌, ◌<◌, ◌≡◌, ◌≢◌, refl, ap, ◌∙◌, List, [], ◌∷◌, Option, none, some, ◌==◌, arith,
  Bool-cases, inl, inr, map,
}
use b_jvm.Gc.{Cell, Heap, Entry, find}
use b_jvm.Gc.Mark.{object_of, object_in, count}
use b_jvm.Gc.Compact.{Compaction, location, size_of, size_in, place, compact, unmark}
use b_jvm.Gc.Slide.{extent, IsSpaced}
use b_jvm.Gc.Search.{key}
use b_jvm.Gc.Counts.{IsSorted}
use b_jvm.Gc.Relocate.{entry_of}
use b_jvm.Gc.Noted.{Stands}

-- What stands in the heap stands behind its start, aligned and not empty, and reaches no further than to
-- what stands next.
pub record IsLaidOut (k start : ℕ) (h : Heap) : Type 0 where
  pub each :
      (e : Entry) → Stands h e → (start ≤ location e) × (location e % 8 ≡ 0) × (0 < size_of k h e)
  pub spaced :
      (e f : Entry)
      → Stands h e
      → Stands h f
      → key e < key f
      → location e + extent k h e ≤ location f

pub key-entry_of : (x : ℕ) → key (entry_of x) ≡ x
key-entry_of x = elim (Bool-cases (x % 2 == 1)) [ inl p ↦ rw p (ground arith) | inr p ↦ rw p refl ]

pub map-key-entry_of : (l : List ℕ) → map key (map entry_of l) ≡ l
map-key-entry_of [] = refl
map-key-entry_of (x ∷ l) =
    ap (λ y. y ∷ map key (map entry_of l)) (key-entry_of x) ∙ ap (λ t. x ∷ t) (map-key-entry_of l)

size_in-object_in : (f g : Option Cell) → object_in f ≡ object_in g → size_in f ≡ size_in g
size_in-object_in none none e = refl
size_in-object_in none (some d) e = cc
size_in-object_in (some c) none e = cc
size_in-object_in (some c) (some d) e = cc

module _ (k : ℕ) where
  size_of_same :
      (g h : Heap) (e : Entry)
      → ((a : ℕ) → object_of a g ≡ object_of a h)
      → size_of k g e ≡ size_of k h e
  size_of_same g h (Entry.object a) same = size_in-object_in (find a g) (find a h) (same a)
  size_of_same g h (Entry.monitor m) same = refl

  pub extent_same :
      (g h : Heap) (e : Entry)
      → ((a : ℕ) → object_of a g ≡ object_of a h)
      → extent k g e ≡ extent k h e
  extent_same g h e same = rw (size_of_same g h e same) refl

  pub IsSpaced-same :
      (g h : Heap) (p : ℕ) (l : List Entry)
      → ((a : ℕ) → object_of a g ≡ object_of a h)
      → IsSpaced k h p l
      → IsSpaced k g p l
  IsSpaced-same g h p [] same x = tt
  IsSpaced-same g h p (e ∷ l) same (a, b, z, x) =
      rw (size_of_same g h e same) (a, b, z, IsSpaced-same g h (location e + extent k h e) l same x)

  pub sorted-IsSpaced :
      (start : ℕ) (h : Heap) (q : ℕ) (l : List ℕ)
      → IsLaidOut k start h
      → IsSorted l
      → ((x : ℕ) → count x l ≤ 1)
      → ((x : ℕ) → 0 < count x l → Stands h (entry_of x))
      → ((x : ℕ) → 0 < count x l → q ≤ location (entry_of x))
      → IsSpaced k h q (map entry_of l)
  sorted-IsSpaced start h q [] laid sorted once stands from = tt
  sorted-IsSpaced start h q (x ∷ l) laid (first, sorted) once stands from =
      let there : 0 < count x (x ∷ l) = ground arith in
      let later : (y : ℕ) → 0 < count y l → 0 < count y (x ∷ l) = λ y more. omega arith in
      let (low, even, big) = laid.each (entry_of x) (stands x there) in
      (
        from x there,
        even,
        big,
        sorted-IsSpaced start h (location (entry_of x) + extent k h (entry_of x)) l laid sorted
            (λ y. omega (arith, once y)) (λ y more. stands y (later y more))
            (λ y more.
              laid.spaced (entry_of x) (entry_of y) (stands x there) (stands y (later y more)) (
                omega (
                  arith,
                  key-entry_of x,
                  key-entry_of y,
                  first y more,
                  distinct x y l (once x) more,
                ))),
      )
    where
      distinct : (x y : ℕ) (l : List ℕ) → count x (x ∷ l) ≤ 1 → 0 < count y l → x ≢ y
      distinct x y l once more e = absurd (ground (arith, ap (λ z. count z l) e))

  object_of-unmark : (a b : ℕ) (h : Heap) → object_of b (unmark a h) ≡ object_of b h
  object_of-unmark a b [] = refl
  object_of-unmark a b (c ∷ h) = ground (arith, object_of-unmark a b h)

  pub object_of-compact :
      (l : List Entry) (s : Compaction) (b : ℕ)
      → object_of b (compact k l s).heap ≡ object_of b s.heap
  unfolding compact
  object_of-compact [] s b = refl
  object_of-compact (Entry.object a ∷ l) s b =
      object_of-compact l (place k (Entry.object a) s) b ∙ object_of-unmark a b s.heap
  object_of-compact (Entry.monitor m ∷ l) s b = object_of-compact l (place k (Entry.monitor m) s) b
