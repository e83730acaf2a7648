-- ===== src/Gc/Quick.antt =====
-- vm/gc.c: `quicksort_pointers` sorts, and `binary_search_for_pointer` finds in what it leaves.
use b_jvm.Common.{
  ℕ, zero, suc, ◌+◌, ◌-◌, ◌/◌, ◌≤◌, ◌<◌, ◌≡◌, refl, subst, true, false, List, [], ◌∷◌, ◌++◌, some,
  length, take, drop, leb, arith, Bool-cases, inl, inr,
}
use b_jvm.Gc.Mark.{count}
use b_jvm.Gc.Sort.{Partition, partition, quicksort_pointers}
use b_jvm.Gc.Search.{binary_search_for_pointer, binary_search_for_pointer_lem}
use b_jvm.Gc.Scan.{◌!◌}
use b_jvm.Gc.Rounds.{IsPartitioned}
use b_jvm.Gc.Parts.{partition-Divides}
use b_jvm.Gc.Counts.{
  count-get_or, index_of_count, IsSorted-IsAscending, count-append, count-take-drop,
  count-take-middle, take-le, drop-ge, IsSorted, append-IsSorted, constant-IsSorted, length-take,
  length-drop,
}

-- The part between the two that are sorted.
abbrev between : Partition → List ℕ
between s = take (s.left - s.right) (drop s.right s.ptrs)

quicksort_pointers-of_partition :
    (n : ℕ) (xs : List ℕ) (s : Partition) (before behind : List ℕ)
    → leb (length xs) 1 ≡ false
    → partition
        (length xs + 2)
        (xs ! (length xs / 2))
        (record { ptrs = xs; left = 0; right = length xs })
      ≡ some s
    → quicksort_pointers n (take s.right s.ptrs) ≡ some before
    → quicksort_pointers n (drop s.left s.ptrs) ≡ some behind
    → quicksort_pointers (suc n) xs ≡ some (before ++ (between s ++ behind))
unfolding quicksort_pointers
quicksort_pointers-of_partition n xs s before behind a b c d = cc

module _ (p : ℕ) (xs : List ℕ) (s : Partition) (ok : IsPartitioned p xs s) (met : s.right ≤ s.left)
    (before behind : List ℕ)
    (same_before : (x : ℕ) → count x before ≡ count x (take s.right s.ptrs))
    (same_behind : (x : ℕ) → count x behind ≡ count x (drop s.left s.ptrs)) where
  count-joined : (x : ℕ) → count x (before ++ (between s ++ behind)) ≡ count x xs
  count-joined x = omega (
    arith,
    count-append x before (between s ++ behind),
    count-append x (between s) behind,
    count-take-middle x s.right s.left s.ptrs met,
    count-take-drop x s.left s.ptrs,
    same_before x,
    same_behind x,
    ok.same x,
  )

  before-le : (y : ℕ) → 0 < count y before → y ≤ p
  before-le y h =
      take-le s.right p y s.ptrs (λ i lt. ok.low i (omega arith)) (omega (arith, same_before y))

  between-eq : (y : ℕ) → 0 < count y (between s) → y ≡ p
  between-eq y h =
      let low =
        take-le s.left p y s.ptrs ok.low
          (omega (arith, count-take-middle y s.right s.left s.ptrs met)) in
      let high =
        drop-ge s.right p y s.ptrs (λ i from to. ok.high i from (omega (arith, ok.size)))
          (omega (arith, count-take-drop y (s.left - s.right) (drop s.right s.ptrs))) in
      omega arith

  behind-ge : (y : ℕ) → 0 < count y behind → p ≤ y
  behind-ge y h =
      drop-ge s.left p y s.ptrs (λ i from to. ok.high i (omega arith) (omega (arith, ok.size)))
        (omega (arith, same_behind y))

  joined-IsSorted : IsSorted before → IsSorted behind → IsSorted (before ++ (between s ++ behind))
  joined-IsSorted sa sb =
      let rest =
        append-IsSorted (between s) behind (constant-IsSorted p (between s) between-eq) sb
          (λ x y f g. omega (arith, between-eq x f, behind-ge y g)) in
      append-IsSorted before (between s ++ behind) sa rest (λ x y f g.
        elim (Bool-cases (leb 1 (count y behind))) [
          | inl e ↦ omega (arith, before-le x f, behind-ge y (ground arith))
          | inr e ↦
              let split = count-append y (between s) behind in
              omega (arith, before-le x f, between-eq y (ground arith))
        ])

abbrev pub Sorts : ℕ → List ℕ → Type 0
Sorts n xs =
    (ys : List ℕ) × (quicksort_pointers n xs ≡ some ys)
    × IsSorted ys
    × ((x : ℕ) → count x ys ≡ count x xs)

short-Sorts : (n : ℕ) (xs : List ℕ) → leb (length xs) 1 ≡ true → Sorts n xs
unfolding quicksort_pointers
short-Sorts zero [] h = ([], refl, tt, λ x. refl)
short-Sorts (suc n) [] h = ([], refl, tt, λ x. refl)
short-Sorts zero (y ∷ []) h = (y ∷ [], refl, (λ z p. absurd (omega arith), tt), λ x. refl)
short-Sorts (suc n) (y ∷ []) h = (y ∷ [], refl, (λ z p. absurd (omega arith), tt), λ x. refl)
short-Sorts n (y ∷ z ∷ xs) h = absurd (ground arith)

pub Sorts-of_fuel : (n : ℕ) (xs : List ℕ) → length xs ≤ n → Sorts n xs
Sorts-of_fuel zero xs h = short-Sorts zero xs (ground arith)
Sorts-of_fuel (suc n) xs h = elim (Bool-cases (leb (length xs) 1)) [
  | inl e ↦ short-Sorts (suc n) xs e
  | inr e ↦
      let m = length xs / 2 in
      let (s, f, ok, inside, met) =
        partition-Divides (length xs + 2) xs m (ground arith) (omega arith) in
      let moved = inside.moved in
      let back = inside.back in
      let (before, g, sa, same_before) =
        Sorts-of_fuel n (take s.right s.ptrs)
          (omega (arith, length-take s.right s.ptrs, ok.size)) in
      let (behind, k, sb, same_behind) =
        Sorts-of_fuel n (drop s.left s.ptrs) (omega (arith, length-drop s.left s.ptrs, ok.size)) in
      (
        before ++ (between s ++ behind),
        quicksort_pointers-of_partition n xs s before behind e f g k,
        joined-IsSorted (xs ! m) xs s ok met before behind same_before same_behind sa sb,
        count-joined (xs ! m) xs s ok met before behind same_before same_behind,
      )
]

-- The sort of an array, with as many levels of recursion as the array is long, never reads
-- outside the array and ends, and leaves every pointer as often as it was there, with none behind
-- a greater one.
pub quicksort_pointers_ends : (xs : List ℕ) → Sorts (length xs) xs
quicksort_pointers_ends xs = Sorts-of_fuel (length xs) xs (omega arith)

-- After an array in which no pointer stands twice is sorted, the binary search finds each pointer
-- that stood in it, at an index where it is, and no other.
pub binary_search_for_pointer-quicksort_pointers :
    (xs : List ℕ)
    → ((x : ℕ) → count x xs ≤ 1)
    → (ys : List ℕ) × (quicksort_pointers (length xs) xs ≡ some ys)
      × ((x : ℕ)
          → 0 < count x xs
          → (i : ℕ) × (binary_search_for_pointer x ys ≡ some i) × (ys ! i ≡ x))
      × ((x i : ℕ) → binary_search_for_pointer x ys ≡ some i → 0 < count x xs)
binary_search_for_pointer-quicksort_pointers xs once =
    let (ys, f, sorted, same) = quicksort_pointers_ends xs in
    let asc = IsSorted-IsAscending ys sorted (λ x. omega (arith, once x, same x)) in
    (
      ys,
      f,
      λ x h.
          let (i, lt, e) = index_of_count x ys (omega (arith, same x)) in
          (i, (binary_search_for_pointer_lem ys x asc).0 i lt e, e),
      λ x i e.
          let (g, lt) = (binary_search_for_pointer_lem ys x asc).1 i e in
          subst (λ z. 0 < count z xs) g (omega (arith, count-get_or ys i lt, same (ys ! i))),
    )
