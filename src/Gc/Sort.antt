-- ===== src/Gc/Sort.antt =====
-- vm/gc.c: `quicksort_pointers`. `right` is kept one higher, as it may pass below the first element.
-- `none` is a read outside the array, or too few rounds.
use b_jvm.Common.{
  ℕ, zero, suc, ◌+◌, ◌-◌, ◌/◌, true, false, List, ◌++◌, Option, none, some, ◌>>=◌, length,
  get_elem?, get_or, set, take, drop, ltb, leb, if◌then◌else◌,
}

-- `while (*left < pivot) left++`
unfoldable pub scan_left : ℕ → List ℕ → ℕ → ℕ → Option ℕ
scan_left zero ptrs pivot left = none
scan_left (suc n) ptrs pivot left = elim (get_elem? ptrs left) [
  | none ↦ none
  | some x ↦ elim (ltb x pivot) [ true ↦ scan_left n ptrs pivot (suc left) | false ↦ some left ]
]

-- `while (*right > pivot) right--`
unfoldable pub scan_right : List ℕ → ℕ → ℕ → Option ℕ
scan_right ptrs pivot zero = none
scan_right ptrs pivot (suc right) = elim (get_elem? ptrs right) [
  | none ↦ none
  | some x ↦ elim (ltb pivot x) [ true ↦ scan_right ptrs pivot right | false ↦ some (suc right) ]
]

abbrev pub swap : List ℕ → ℕ → ℕ → List ℕ
swap ptrs i j = set (set ptrs i (get_or ptrs j 0)) j (get_or ptrs i 0)

pub record Partition : Type 0 where
  pub ptrs : List ℕ
  pub left : ℕ
  pub right : ℕ

-- `while (left <= right)`
unfoldable pub partition : ℕ → ℕ → Partition → Option Partition
unfolding scan_left scan_right
partition zero pivot s = none
partition (suc n) pivot s = elim (ltb s.left s.right) [
  | false ↦ some s
  | true ↦ scan_left (length s.ptrs) s.ptrs pivot s.left >>= λ left.
      scan_right s.ptrs pivot s.right >>= λ right. elim (ltb left right) [
        | true ↦
            partition n pivot
              (record { ptrs = swap s.ptrs left (right - 1); left = left + 1; right = right - 1 })
        | false ↦ partition n pivot (record s { left = left; right = right })
      ]
]

-- The two recursive calls sort the parts before and behind; what lies between them stays.
unfoldable pub quicksort_pointers : ℕ → List ℕ → Option (List ℕ)
unfolding partition
quicksort_pointers zero ptrs = if leb (length ptrs) 1 then some ptrs else none
quicksort_pointers (suc n) ptrs = elim (leb (length ptrs) 1) [
  | true ↦ some ptrs
  | false ↦
      let start : Partition = record { ptrs = ptrs; left = 0; right = length ptrs } in
      partition (length ptrs + 2) (get_or ptrs (length ptrs / 2) 0) start >>= λ s.
      quicksort_pointers n (take s.right s.ptrs) >>= λ before.
      quicksort_pointers n (drop s.left s.ptrs) >>= λ behind.
      some (before ++ (take (s.left - s.right) (drop s.right s.ptrs) ++ behind))
]
