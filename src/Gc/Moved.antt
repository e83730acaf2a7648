-- ===== src/Gc/Moved.antt =====
-- vm/gc.c: the objects at their new locations.
use b_jvm.Common.{
  ℕ, zero, suc, ◌+◌, ◌≤◌, ◌<◌, ◌≡◌, refl, sym, ap, ◌∙◌, false, List, [], ◌∷◌, some, ◌==◌, arith,
  Bool-cases, inl, inr, length, get_or, get_elem?,
}
use mathlib.Core.Option.{some_inj}
use b_jvm.Gc.{Cell, Heap, Entry, find}
use b_jvm.Gc.Compact.{location}
use b_jvm.Gc.Slide.{extent, IsSpaced, destinations}
use b_jvm.Gc.Relocate.{moved_objects}

-- Every object of the array is in the heap.
abbrev pub IsFound : Heap → List Entry → Type 0
IsFound g l = (i a : ℕ) → get_elem? l i ≡ some (Entry.object a) → (c : Cell) × (find a g ≡ some c)

-- The cells are those of the objects of the array, each at its new location.
pub record IsCopied (g : Heap) (l : List Entry) (ds : List ℕ) (cells : List Cell) : Type 0 where
  pub kept :
      (i a : ℕ) (c : Cell)
      → get_elem? l i ≡ some (Entry.object a)
      → find a g ≡ some c
      → find (get_or ds i 0) cells ≡ some (record c { address = get_or ds i 0 })
  pub only :
      (d : ℕ) (c : Cell)
      → find d cells ≡ some c
      → (i : ℕ) × (a : ℕ) × (get_elem? l i ≡ some (Entry.object a)) × (d ≡ get_or ds i 0)

module _ (k : ℕ) (h : Heap) where
  pub destination-ge :
      (p q : ℕ) (l : List Entry) (i : ℕ)
      → IsSpaced k h q l
      → i < length l
      → p ≤ get_or (destinations k h p l) i 0
  destination-ge p q [] i x lt = absurd (omega arith)
  destination-ge p q (e ∷ l) zero x lt = omega arith
  destination-ge p q (e ∷ l) (suc i) (a, b, z, x) lt =
      omega
        (arith, destination-ge (p + extent k h e) (location e + extent k h e) l i x (omega arith))

  -- The new locations are in order.
  pub destination-lt :
      (p q : ℕ) (l : List Entry) (i j : ℕ)
      → IsSpaced k h q l
      → i < j
      → j < length l
      → get_or (destinations k h p l) i 0 < get_or (destinations k h p l) j 0
  destination-lt p q [] i j x lt to = absurd (omega arith)
  destination-lt p q (e ∷ l) i zero x lt to = absurd (omega arith)
  destination-lt p q (e ∷ l) zero (suc j) (a, b, z, x) lt to =
      omega
        (arith, destination-ge (p + extent k h e) (location e + extent k h e) l j x (omega arith))
  destination-lt p q (e ∷ l) (suc i) (suc j) (a, b, z, x) lt to =
      destination-lt (p + extent k h e) (location e + extent k h e) l i j x (omega arith)
        (omega arith)

pub index-lt : (l : List Entry) (i : ℕ) (e : Entry) → get_elem? l i ≡ some e → i < length l
index-lt [] i e at = cc
index-lt (x ∷ l) zero e at = omega arith
index-lt (x ∷ l) (suc i) e at = omega (arith, index-lt l i e at)

-- A monitor is no cell.
monitor-IsCopied :
    (g : Heap) (m d : ℕ) (l : List Entry) (ds : List ℕ) (cells : List Cell)
    → IsCopied g l ds cells
    → IsCopied g (Entry.monitor m ∷ l) (d ∷ ds) cells
monitor-IsCopied g m d l ds cells copied = record {
  kept = λ i a c at here. kept_at i a c at here;
  only = λ x c here. let (i, a, at, e) = copied.only x c here in (suc i, a, at, e);
}
  where
    kept_at :
        (i a : ℕ) (c : Cell)
        → get_elem? (Entry.monitor m ∷ l) i ≡ some (Entry.object a)
        → find a g ≡ some c
        → find (get_or (d ∷ ds) i 0) cells ≡ some (record c { address = get_or (d ∷ ds) i 0 })
    kept_at zero a c at here = cc
    kept_at (suc i) a c at here = copied.kept i a c at here

-- An object is the cell in front.
object-IsCopied :
    (g : Heap) (b d : ℕ) (c : Cell) (l : List Entry) (ds : List ℕ) (cells : List Cell)
    → find b g ≡ some c
    → ((i : ℕ) → i < length l → d < get_or ds i 0)
    → IsCopied g l ds cells
    → IsCopied g (Entry.object b ∷ l) (d ∷ ds) (record c { address = d } ∷ cells)
object-IsCopied g b d c l ds cells there above copied = record {
  kept = λ i a x at here. kept_at i a x at here;
  only = λ x y here. only_at x y here;
}
  where
    kept_at :
        (i a : ℕ) (x : Cell)
        → get_elem? (Entry.object b ∷ l) i ≡ some (Entry.object a)
        → find a g ≡ some x
        → find (get_or (d ∷ ds) i 0) (record c { address = d } ∷ cells)
          ≡ some (record x { address = get_or (d ∷ ds) i 0 })
    kept_at zero a x at here =
        let same : b ≡ a = cc in
        let cell : c ≡ x = some_inj.0 (sym there ∙ (ap (λ z. find z g) same ∙ here)) in
        ground (arith, cell)
    kept_at (suc i) a x at here =
        let far = above i (index-lt l i (Entry.object a) at) in
        let other : (d == get_or ds i 0) ≡ false = ground arith in
        rw other (copied.kept i a x at here)

    only_at :
        (x : ℕ) (y : Cell)
        → find x (record c { address = d } ∷ cells) ≡ some y
        → (i : ℕ) × (a : ℕ) × (get_elem? (Entry.object b ∷ l) i ≡ some (Entry.object a))
          × (x ≡ get_or (d ∷ ds) i 0)
    only_at x y here = elim (Bool-cases (d == x)) [
      | inl p ↦ (0, b, refl, ground arith)
      | inr p ↦ let (i, a, at, e) = copied.only x y (rw p at here) in (suc i, a, at, e)
    ]

module _ (k : ℕ) (h g : Heap) where
  pub moved_objects-IsCopied :
      (p q : ℕ) (l : List Entry)
      → IsSpaced k h q l
      → IsFound g l
      → (cells : List Cell) × (moved_objects g l (destinations k h p l) ≡ some cells)
        × IsCopied g l (destinations k h p l) cells
  unfolding moved_objects
  moved_objects-IsCopied p q [] spaced found =
      ([], refl, record { kept = λ i a c at here. cc; only = λ d c here. cc })
  moved_objects-IsCopied p q (Entry.monitor m ∷ l) (a, b, z, spaced) found =
      let (cells, e, copied) =
        moved_objects-IsCopied (p + extent k h (Entry.monitor m)) (m + extent k h (Entry.monitor m))
          l spaced (λ i. found (suc i)) in
      (cells, e, monitor-IsCopied g m p l _ cells copied)
  moved_objects-IsCopied p q (Entry.object b ∷ l) (low, even, big, spaced) found =
      let sz = extent k h (Entry.object b) in
      let (cells, e, copied) =
        moved_objects-IsCopied (p + sz) (b + sz) l spaced (λ i. found (suc i)) in
      let (c, there) = found 0 b refl in
      (
        record c { address = p } ∷ cells,
        rw (there, e) refl,
        object-IsCopied g b p c l _ cells there
            (λ i lt. omega (arith, destination-ge k h (p + sz) (b + sz) l i spaced lt)) copied,
      )
