-- ===== src/Gc/Search.antt =====
-- vm/gc.c: `binary_search_for_pointer` and `relocate_object`. The upper bound is kept one higher than
-- `high`, which is -1 for an empty range.
use b_jvm.Common.{
  ℕ, zero, suc, ◌+◌, ◌-◌, ◌/◌, ◌≤◌, ◌<◌, ◌≡◌, subst, Bool, true, false, List, Option, none, some,
  length, get_or, ltb, ◌==◌, if◌then◌else◌, arith,
}
use b_jvm.Gc.{Entry}

-- What stands in the array: the address of a monitor with the lowest bit set.
abbrev pub key : Entry → ℕ
key (Entry.object a) = a
key (Entry.monitor m) = m + 1

-- The loop over low .. high - 1, in at most `n` rounds.
unfoldable search_loop : ℕ → List ℕ → ℕ → ℕ → ℕ → Option ℕ
search_loop zero ptrs ptr low high = none
search_loop (suc n) ptrs ptr low high =
    let mid = (low + (high - 1)) / 2 in
    let above = search_loop n ptrs ptr (mid + 1) high in
    let below = search_loop n ptrs ptr low mid in
    if ltb low high
    then (let x = get_or ptrs mid 0 in
        if x == ptr then some mid else if ltb x ptr then above else below)
    else none

unfoldable pub binary_search_for_pointer : ℕ → List ℕ → Option ℕ
unfolding search_loop
binary_search_for_pointer ptr ptrs = search_loop (length ptrs) ptrs ptr 0 (length ptrs)

abbrev relocated : List ℕ → ℕ → Option ℕ → ℕ × Bool
relocated new_location obj none = (obj, false)
relocated new_location obj (some i) = (get_or new_location i 0, true)

-- The new value of the reference, and whether it could be relocated.
unfoldable pub relocate_object : List ℕ → List ℕ → ℕ → ℕ × Bool
unfolding binary_search_for_pointer
relocate_object objs new_location obj =
    if obj == 0
    then (obj, true)
    else relocated new_location obj (binary_search_for_pointer obj objs)

abbrev pub IsAscending : List ℕ → Type 0
IsAscending ptrs = (i j : ℕ) → i < j → j < length ptrs → get_or ptrs i 0 < get_or ptrs j 0

search_loop_finds :
    (n : ℕ) (ptrs : List ℕ) (low high i : ℕ)
    → IsAscending ptrs
    → high ≤ low + n
    → high ≤ length ptrs
    → low ≤ i
    → i < high
    → search_loop n ptrs (get_or ptrs i 0) low high ≡ some i
unfolding search_loop
search_loop_finds zero ptrs low high i asc fuel le from to = absurd (omega arith)
search_loop_finds (suc n) ptrs low high i asc fuel le from to =
    let mid = (low + (high - 1)) / 2 in
    ground (
      arith,
      asc mid i,
      asc i mid,
      search_loop_finds n ptrs (mid + 1) high i asc,
      search_loop_finds n ptrs low mid i asc,
    )

search_loop_sound :
    (n : ℕ) (ptrs : List ℕ) (ptr low high i : ℕ)
    → high ≤ length ptrs
    → search_loop n ptrs ptr low high ≡ some i
    → (get_or ptrs i 0 ≡ ptr) × (i < length ptrs)
unfolding search_loop
search_loop_sound zero ptrs ptr low high i le e = cc
search_loop_sound (suc n) ptrs ptr low high i le e =
    let mid = (low + (high - 1)) / 2 in
    ground
      (arith, search_loop_sound n ptrs ptr (mid + 1) high i, search_loop_sound n ptrs ptr low mid i)

-- In an array in ascending order, the search finds every pointer at its index, and no other pointer.
pub binary_search_for_pointer_lem :
    (ptrs : List ℕ) (ptr : ℕ)
    → IsAscending ptrs
    → ((i : ℕ)
        → i < length ptrs
        → get_or ptrs i 0 ≡ ptr
        → binary_search_for_pointer ptr ptrs ≡ some i)
      × ((i : ℕ)
          → binary_search_for_pointer ptr ptrs ≡ some i
          → (get_or ptrs i 0 ≡ ptr) × (i < length ptrs))
unfolding binary_search_for_pointer
binary_search_for_pointer_lem ptrs ptr asc = (
  λ i lt e.
      subst (λ p. search_loop (length ptrs) ptrs p 0 (length ptrs) ≡ some i) e
        (search_loop_finds (length ptrs) ptrs 0 (length ptrs) i asc (omega arith) (omega arith)
          (omega arith) lt),
  λ i e. search_loop_sound (length ptrs) ptrs ptr 0 (length ptrs) i (omega arith) e,
)
