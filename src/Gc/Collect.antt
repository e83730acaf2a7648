-- ===== src/Gc/Collect.antt =====
-- vm/gc.c: the copying loop together with the search for a new location, and with the mark phase.
use b_jvm.Common.{
  ℕ, zero, suc, ◌+◌, ◌-◌, ◌*◌, ◌/◌, ◌%◌, ◌≤◌, ◌<◌, ◌≡◌, ◌≢◌, refl, ap, subst, ◌∙◌, true, false,
  List, [], ◌∷◌, some, length, get_elem?, get_or, ◌==◌, if◌then◌else◌, arith, inl, inr, map, ◌⊎◌,
  ◌++◌,
}
use mathlib.Core.Option.{some_inj}
use b_jvm.Gc.{Heap, Entry, Marking, Bounds, mark_phase}
use b_jvm.Gc.Mark.{marked}
use b_jvm.Gc.Visit.{IsClosed}
use b_jvm.Gc.Live.{times, IsHeap}
use b_jvm.Gc.Phase.{mark_phase-Live}
use b_jvm.Gc.Compact.{Memory, Compaction, location, size_of, place, compact, unmark}
use b_jvm.Gc.Slide.{extent, IsSpaced, IsMoved, destinations, compact-IsMoved, compact-destinations}
use b_jvm.Gc.Search.{
  key, IsAscending, relocate_object, binary_search_for_pointer, binary_search_for_pointer_lem,
}

module _ (k : ℕ) where
  key-ge :
      (h : Heap) (q : ℕ) (l : List Entry) (j : ℕ)
      → IsSpaced k h q l
      → j < length (map key l)
      → q ≤ get_or (map key l) j 0
  key-ge h q [] j x lt = absurd (omega arith)
  key-ge h q (Entry.object a ∷ l) zero x lt = x.0
  key-ge h q (Entry.monitor m ∷ l) zero x lt = omega arith
  key-ge h q (e ∷ l) (suc j) (a, b, z, x) lt =
      omega (arith, key-ge h (location e + extent k h e) l j x (omega arith))

  key-lt : (e : Entry) (n : ℕ) → 0 < n → key e < location e + (n + 8 - 1) / 8 * 8
  key-lt (Entry.object a) n h = omega arith
  key-lt (Entry.monitor m) n h = omega arith

  IsSpaced-IsAscending :
      (h : Heap) (q : ℕ) (l : List Entry) → IsSpaced k h q l → IsAscending (map key l)
  IsSpaced-IsAscending h q [] x i j lt to = absurd (omega arith)
  IsSpaced-IsAscending h q (e ∷ l) (a, b, z, x) zero zero lt to = absurd (omega arith)
  IsSpaced-IsAscending h q (e ∷ l) (a, b, z, x) zero (suc j) lt to =
      omega (
        arith,
        key-ge h (location e + extent k h e) l j x (omega arith),
        key-lt e (size_of k h e) z,
      )
  IsSpaced-IsAscending h q (e ∷ l) (a, b, z, x) (suc i) zero lt to = absurd (omega arith)
  IsSpaced-IsAscending h q (e ∷ l) (a, b, z, x) (suc i) (suc j) lt to =
      IsSpaced-IsAscending h (location e + extent k h e) l x i j (omega arith) (omega arith)

  key_at :
      (l : List Entry) (i : ℕ) (e : Entry)
      → get_elem? l i ≡ some e
      → (get_or (map key l) i 0 ≡ key e) × (i < length (map key l))
  key_at [] i e at = cc
  key_at (x ∷ l) zero e at = (ground (arith), omega arith)
  key_at (x ∷ l) (suc i) e at = let (a, b) = key_at l i e at in (a, omega arith)

  pub moved_at :
      (h : Heap) (m m' : Memory) (p : ℕ) (l : List Entry) (i : ℕ) (e : Entry)
      → IsMoved k h m m' p l
      → get_elem? l i ≡ some e
      → (get_or (destinations k h p l) i 0 ≤ location e)
        × ((j : ℕ)
            → j < extent k h e
            → m' (get_or (destinations k h p l) i 0 + j) ≡ m (location e + j))
  moved_at h m m' p [] i e x at = cc
  moved_at h m m' p (f ∷ l) zero e (a, b, c) at =
      let same : f ≡ e = some_inj.0 at in
      subst (λ g. (p ≤ location g) × ((j : ℕ) → j < extent k h g → m' (p + j) ≡ m (location g + j)))
        same (a, b)
  moved_at h m m' p (f ∷ l) (suc i) e (a, b, c) at = moved_at h m m' (p + extent k h f) l i e c at

  -- When objects in the order of their addresses, aligned, not empty and apart from each other
  -- are copied to the start of the heap, a reference to one of them is relocated to an address
  -- not above its own, where the whole contents of the object stand.
  pub relocate_object-compact :
      (l : List Entry) (s : Compaction) (q i a : ℕ)
      → s.new_location ≡ []
      → s.write_ptr % 8 ≡ 0
      → s.write_ptr ≤ q
      → IsSpaced k s.heap q l
      → get_elem? l i ≡ some (Entry.object a)
      → a ≢ 0
      → (d : ℕ) × (relocate_object (map key l) (compact k l s).new_location a ≡ (d, true))
        × (d ≤ a)
        × ((j : ℕ)
            → j < extent k s.heap (Entry.object a)
            → (compact k l s).memory (d + j) ≡ s.memory (a + j))
  unfolding relocate_object
  relocate_object-compact l s q i a empty even le spaced at some_object =
      let (same, lt) = key_at l i (Entry.object a) at in
      let search =
        binary_search_for_pointer_lem (map key l) a (IsSpaced-IsAscending s.heap q l spaced) in
      let hit : binary_search_for_pointer a (map key l) ≡ some i = search.0 i lt same in
      let (down, copied) =
        moved_at s.heap s.memory (compact k l s).memory s.write_ptr l i (Entry.object a)
          (compact-IsMoved k l s q even le spaced) at in
      let there : (compact k l s).new_location ≡ destinations k s.heap s.write_ptr l =
        compact-destinations k l s even
        ∙ ap (λ t. t ++ destinations k s.heap s.write_ptr l) empty in
      let some_other : (a == 0) ≡ false = ground arith in
      (
        get_or (destinations k s.heap s.write_ptr l) i 0,
        rw (some_other, hit, there) refl,
        down,
        copied,
      )

  marked-unmark : (a b : ℕ) (h : Heap) → marked b (unmark a h) ≡ (if a == b then 0 else marked b h)
  marked-unmark a b [] = ground arith
  marked-unmark a b (c ∷ h) = ground (arith, marked-unmark a b h)

  compact_clears :
      (l : List Entry) (s : Compaction) (b : ℕ)
      → (0 < times b l) ⊎ (marked b s.heap ≡ 0)
      → marked b (compact k l s).heap ≡ 0
  unfolding compact
  compact_clears [] s b h = ground arith
  compact_clears (Entry.object a ∷ l) s b h =
      compact_clears l (place k (Entry.object a) s) b (ground (arith, marked-unmark a b s.heap))
  compact_clears (Entry.monitor m ∷ l) s b h = compact_clears l (place k (Entry.monitor m) s) b h

-- When the copying loop runs over a reordering of what the mark phase noted, no object is marked
-- afterwards, which is what the next mark phase starts from.
pub compact-mark_phase :
    (k : ℕ) (vm : Bounds) (roots : List ℕ) (h : Heap)
    → IsHeap vm h
    → IsClosed vm roots h
    → ((a : ℕ) → marked a h ≡ 0)
    → (m : Marking) → mark_phase vm roots h ≡ some m
    → (l : List Entry) → ((a : ℕ) → times a l ≡ times a m.objs)
    → (s : Compaction) → s.heap ≡ m.heap
    → (a : ℕ) → marked a (compact k l s).heap ≡ 0
compact-mark_phase k vm roots h heap_ok roots_ok clear m e l same s is a =
    compact_clears k l s a (elim (mark_phase-Live vm roots h heap_ok roots_ok clear m e a) [
      | inl x ↦ inl (omega (arith, same a))
      | inr x ↦ inr (ap (λ g. marked a g) is ∙ x.1)
    ])
