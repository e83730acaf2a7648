-- ===== src/Gc/Slide.antt =====
-- vm/gc.c: where the copying loop takes the objects, and what stands there afterwards.
use b_jvm.Common.{
  ℕ, ◌+◌, ◌-◌, ◌%◌, ◌≤◌, ◌<◌, ◌≡◌, refl, sym, ap, ◌∙◌, subst, ◌⊎◌, inl, inr, List, [], ◌∷◌, arith,
  ◌++◌, append_assoc, append-nil,
}
use b_jvm.Layout.{align_up}
use b_jvm.Gc.{Heap, Entry, find}
use b_jvm.Gc.Compact.{
  Memory, Compaction, location, size_of, place, compact, unmark, cleared, memmove, size_in,
}

-- The bytes that an object or a monitor takes.
abbrev pub extent : ℕ → Heap → Entry → ℕ
extent k h e = align_up (size_of k h e) 8

-- From `p` on, the entries stand in the order of their addresses, aligned and not empty, and none reaches
-- into the next.
abbrev pub IsSpaced : ℕ → Heap → ℕ → List Entry → Type 0
IsSpaced k h p [] = Unit {0}
IsSpaced k h p (e ∷ l) =
    (p ≤ location e)
    × (location e % 8 ≡ 0)
    × (0 < size_of k h e)
    × IsSpaced k h (location e + extent k h e) l

-- The new locations, when the first entry goes to `p`.
abbrev pub destinations : ℕ → Heap → ℕ → List Entry → List ℕ
destinations k h p [] = []
destinations k h p (e ∷ l) = p ∷ destinations k h (p + extent k h e) l

-- From `p` on, the memory `m'` holds the contents that the entries have in `m`, one after another,
-- and no entry stands below its new location.
abbrev pub IsMoved : ℕ → Heap → Memory → Memory → ℕ → List Entry → Type 0
IsMoved k h m m' p [] = Unit {0}
IsMoved k h m m' p (e ∷ l) =
    (p ≤ location e)
    × ((i : ℕ) → i < extent k h e → m' (p + i) ≡ m (location e + i))
    × IsMoved k h m m' (p + extent k h e) l

size-unmark : (a b : ℕ) (h : Heap) → size_in (find b (unmark a h)) ≡ size_in (find b h)
size-unmark a b [] = refl
size-unmark a b (c ∷ h) = ground (arith, size-unmark a b h)

size_of-cleared : (k : ℕ) (e f : Entry) (h : Heap) → size_of k (cleared e h) f ≡ size_of k h f
size_of-cleared k (Entry.object a) (Entry.object b) h = size-unmark a b h
size_of-cleared k (Entry.monitor m) (Entry.object b) h = refl
size_of-cleared k e (Entry.monitor m) h = refl

-- The writer is aligned.
align_up_self : (p : ℕ) → p % 8 ≡ 0 → align_up p 8 ≡ p
align_up_self p e = omega arith

extent-aligned : (k : ℕ) (h : Heap) (e : Entry) → extent k h e % 8 ≡ 0
extent-aligned k h e = omega arith

memmove_inside :
    (to from n : ℕ) (m : Memory) (p i : ℕ)
    → to ≡ p
    → i < n
    → memmove to from n m (p + i) ≡ m (from + i)
unfolding memmove
memmove_inside to from n m p i e lt =
    let same : from + (p + i - to) ≡ from + i = omega arith in ground (arith, ap m same)

memmove_outside :
    (to from n : ℕ) (m : Memory) (q : ℕ) → (q < to) ⊎ (to + n ≤ q) → memmove to from n m q ≡ m q
unfolding memmove
memmove_outside to from n m q h = ground arith

module _ (k : ℕ) where
  IsSpaced-cleared :
      (e : Entry) (h : Heap) (p : ℕ) (l : List Entry)
      → IsSpaced k h p l
      → IsSpaced k (cleared e h) p l
  IsSpaced-cleared e h p [] x = tt
  IsSpaced-cleared e h p (f ∷ l) (a, b, z, c) =
      rw (size_of-cleared k e f h) (a, b, z, IsSpaced-cleared e h (location f + extent k h f) l c)

  IsMoved-cleared :
      (e : Entry) (h : Heap) (m m' : Memory) (p : ℕ) (l : List Entry)
      → IsMoved k (cleared e h) m m' p l
      → IsMoved k h m m' p l
  IsMoved-cleared e h m m' p [] x = tt
  IsMoved-cleared e h m m' p (f ∷ l) x =
      let (a, b, c) =
        subst
          (λ n.
            (p ≤ location f)
            × ((i : ℕ) → i < align_up n 8 → m' (p + i) ≡ m (location f + i))
            × IsMoved k (cleared e h) m m' (p + align_up n 8) l)
          (size_of-cleared k e f h) x in
      (a, b, IsMoved-cleared e h m m' (p + extent k h f) l c)

  destinations-cleared :
      (e : Entry) (h : Heap) (p : ℕ) (l : List Entry)
      → destinations k (cleared e h) p l ≡ destinations k h p l
  destinations-cleared e h p [] = refl
  destinations-cleared e h p (f ∷ l) =
      rw (size_of-cleared k e f h) (ap (λ t. p ∷ t) (destinations-cleared e h (p + extent k h f) l))

  IsMoved-agrees :
      (h : Heap) (m n m' : Memory) (p q : ℕ) (l : List Entry)
      → ((a : ℕ) → q ≤ a → m a ≡ n a)
      → IsSpaced k h q l
      → IsMoved k h m m' p l
      → IsMoved k h n m' p l
  IsMoved-agrees h m n m' p q [] agrees spaced x = tt
  IsMoved-agrees h m n m' p q (e ∷ l) agrees (from, even, big, spaced) (a, b, c) = (
    a,
    λ i lt. b i lt ∙ agrees (location e + i) (omega arith),
    IsMoved-agrees h m n m' (p + extent k h e) (location e + extent k h e) l
        (λ x le. agrees x (omega arith)) spaced c,
  )

  -- What stands below the writer stays.
  compact_below :
      (l : List Entry) (s : Compaction) (q : ℕ)
      → q < s.write_ptr
      → (compact k l s).memory q ≡ s.memory q
  unfolding compact
  compact_below [] s q h = refl
  compact_below (e ∷ l) s q h =
      let to = align_up s.write_ptr 8 in
      let sz = extent k s.heap e in
      compact_below l (place k e s) q (omega arith)
      ∙ memmove_outside to (location e) sz s.memory q (inl (omega arith))

  pub compact-IsMoved :
      (l : List Entry) (s : Compaction) (q : ℕ)
      → s.write_ptr % 8 ≡ 0
      → s.write_ptr ≤ q
      → IsSpaced k s.heap q l
      → IsMoved k s.heap s.memory (compact k l s).memory s.write_ptr l
  unfolding compact
  compact-IsMoved [] s q even le spaced = tt
  compact-IsMoved (e ∷ l) s q even le (from, here, big, spaced) =
      let sz = extent k s.heap e in
      let to : align_up s.write_ptr 8 ≡ s.write_ptr = align_up_self s.write_ptr even in
      let s' = place k e s in
      let next : s'.write_ptr ≡ s.write_ptr + sz = ap (λ p. p + sz) to in
      let rest : IsMoved k s'.heap s'.memory (compact k l s').memory s'.write_ptr l =
        compact-IsMoved l s' (location e + sz) (omega arith) (omega arith)
          (IsSpaced-cleared e s.heap (location e + sz) l spaced) in
      (
        omega arith,
        λ i lt.
            compact_below l s' (s.write_ptr + i) (omega arith)
            ∙ memmove_inside (align_up s.write_ptr 8) (location e) sz s.memory s.write_ptr i to lt,
        subst (λ p. IsMoved k s.heap s.memory (compact k l s').memory p l) next
            (IsMoved-agrees s.heap s'.memory s.memory (compact k l s').memory s'.write_ptr
              (location e + sz) l
              (λ a far.
                memmove_outside (align_up s.write_ptr 8) (location e) sz s.memory a
                  (inr (omega arith)))
              spaced
              (IsMoved-cleared e s.heap s'.memory (compact k l s').memory s'.write_ptr l rest)),
      )

  -- The array of the new locations.
  pub compact-destinations :
      (l : List Entry) (s : Compaction)
      → s.write_ptr % 8 ≡ 0
      → (compact k l s).new_location ≡ s.new_location ++ destinations k s.heap s.write_ptr l
  unfolding compact
  compact-destinations [] s even = sym (append-nil s.new_location)
  compact-destinations (e ∷ l) s even =
      let sz = extent k s.heap e in
      let to = align_up s.write_ptr 8 in
      let aligned : to ≡ s.write_ptr = align_up_self s.write_ptr even in
      let s' = place k e s in
      compact-destinations l s' (omega arith)
      ∙ (append_assoc s.new_location (to ∷ []) (destinations k (cleared e s.heap) (to + sz) l)
          ∙ ap (λ t. s.new_location ++ t)
              (ap (λ t. to ∷ t) (destinations-cleared e s.heap (to + sz) l)
                ∙ ap (λ p. p ∷ destinations k s.heap (p + sz) l) aligned))
