-- ===== src/Gc/Found.antt =====
-- vm/gc.c: which references the sorted array relocates, and where to.
use b_jvm.Common.{
  ℕ, zero, suc, ◌+◌, ◌-◌, ◌%◌, ◌≤◌, ◌<◌, ◌≡◌, ◌≢◌, refl, ap, true, false, List, [], ◌∷◌, Option,
  none, some, ◌==◌, arith, Bool-cases, inl, inr, map, length, get_or, get_elem?,
}
use b_jvm.Gc.{Entry}
use b_jvm.Gc.Mark.{count}
use b_jvm.Gc.Scan.{◌!◌}
use b_jvm.Gc.Search.{
  IsAscending, binary_search_for_pointer, binary_search_for_pointer_lem, relocate_object,
}
use b_jvm.Gc.Counts.{IsSorted, IsSorted-IsAscending, index_of_count, count-get_or}
use b_jvm.Gc.Relocate.{entry_of, relocate_monitor}

pub entry_at :
    (l : List ℕ) (i : ℕ) → i < length l → get_elem? (map entry_of l) i ≡ some (entry_of (l ! i))
entry_at [] i lt = absurd (omega arith)
entry_at (x ∷ l) zero lt = refl
entry_at (x ∷ l) (suc i) lt = entry_at l i (omega arith)

pub object_entry : (a : ℕ) → a % 2 ≡ 0 → entry_of a ≡ Entry.object a
object_entry a even = ground arith

pub monitor_entry : (m : ℕ) → m % 2 ≡ 0 → entry_of (m + 1) ≡ Entry.monitor m
monitor_entry m even =
    let odd : ((m + 1) % 2 == 1) ≡ true = ground arith in
    let back : m + 1 - 1 ≡ m = omega arith in rw odd (ap Entry.monitor back)

-- The index of an object in the array is that of its address.
pub object_index :
    (l : List ℕ) (i a : ℕ)
    → get_elem? (map entry_of l) i ≡ some (Entry.object a)
    → (i < length l) × (l ! i ≡ a)
object_index [] i a at = cc
object_index (x ∷ l) zero a at = elim (Bool-cases (x % 2 == 1)) [
  | inl p ↦ let e = rw p at at in cc
  | inr p ↦ (omega arith, let e = rw p at at in cc)
]
object_index (x ∷ l) (suc i) a at = let (lt, e) = object_index l i a at in (omega arith, e)

module _ (objs new_location : List ℕ) (sorted : IsSorted objs)
    (once : (x : ℕ) → count x objs ≤ 1) where
  asc : IsAscending objs
  asc = IsSorted-IsAscending objs sorted once

  pub found_at :
      (x : ℕ)
      → 0 < count x objs
      → (i : ℕ) × (i < length objs) × (objs ! i ≡ x) × (binary_search_for_pointer x objs ≡ some i)
  found_at x more =
      let (i, lt, e) = index_of_count x objs more in
      (i, lt, e, (binary_search_for_pointer_lem objs x asc).0 i lt e)

  pub hit_at :
      (x i : ℕ) → i < length objs → objs ! i ≡ x → binary_search_for_pointer x objs ≡ some i
  hit_at x i lt e = (binary_search_for_pointer_lem objs x asc).0 i lt e

  not_found : (x : ℕ) → count x objs ≡ 0 → binary_search_for_pointer x objs ≡ none
  not_found x nil = go (binary_search_for_pointer x objs) refl
    where
      go :
          (r : Option ℕ)
          → binary_search_for_pointer x objs ≡ r
          → binary_search_for_pointer x objs ≡ none
      go none e = e
      go (some i) e =
          let (same, lt) = (binary_search_for_pointer_lem objs x asc).1 i e in
          absurd (omega (arith, count-get_or objs i lt, ap (λ y. count y objs) same))

  -- An address of the array goes to the location at its index.
  pub relocate_object_found :
      (x i : ℕ)
      → x ≢ 0
      → binary_search_for_pointer x objs ≡ some i
      → relocate_object objs new_location x ≡ (get_or new_location i 0, true)
  unfolding relocate_object
  relocate_object_found x i ne e = let other : (x == 0) ≡ false = ground arith in rw (other, e) refl

  pub relocate_object_missing :
      (x : ℕ) → x ≢ 0 → count x objs ≡ 0 → relocate_object objs new_location x ≡ (x, false)
  unfolding relocate_object
  relocate_object_missing x ne nil =
      let other : (x == 0) ≡ false = ground arith in rw (other, not_found x nil) refl

  pub relocate_monitor_found :
      (m i : ℕ)
      → m ≢ 0
      → binary_search_for_pointer (m + 1) objs ≡ some i
      → relocate_monitor objs new_location m ≡ some (get_or new_location i 0)
  relocate_monitor_found m i ne e =
      let other : (m == 0) ≡ false = ground arith in rw (other, e) refl

pub relocate_object_null :
    (objs new_location : List ℕ) → relocate_object objs new_location 0 ≡ (0, true)
unfolding relocate_object
relocate_object_null objs new_location = refl
