-- ===== src/Gc/Rounds.antt =====
-- vm/gc.c: the rounds of the loop of `quicksort_pointers`, and what holds before and behind.
use b_jvm.Common.{
  ℕ, suc, ◌+◌, ◌-◌, ◌≤◌, ◌<◌, ◌≡◌, ◌∙◌, true, false, List, some, length, ltb, arith, Bool-cases,
  inl, inr,
}
use b_jvm.Gc.Mark.{count}
use b_jvm.Gc.Sort.{scan_left, scan_right, swap, Partition, partition}
use b_jvm.Gc.Scan.{◌!◌, swap_at, length-swap, count-swap}

pub record IsPartitioned (p : ℕ) (xs : List ℕ) (s : Partition) : Type 0 where
  pub size : length s.ptrs ≡ length xs
  pub same : (x : ℕ) → count x s.ptrs ≡ count x xs
  pub low : (i : ℕ) → i < s.left → s.ptrs ! i ≤ p
  pub high : (i : ℕ) → s.right ≤ i → i < length xs → p ≤ s.ptrs ! i

-- Both ends have moved.
pub record IsInside (xs : List ℕ) (s : Partition) : Type 0 where
  pub moved : 0 < s.left
  pub ends : s.left ≤ length xs
  pub back : s.right < length xs

module _ (n : ℕ) (p : ℕ) (s : Partition) (l r : ℕ) where
  pub partition-swaps :
      ltb s.left s.right ≡ true
      → scan_left (length s.ptrs) s.ptrs p s.left ≡ some l
      → scan_right s.ptrs p s.right ≡ some r
      → ltb l r ≡ true
      → partition (suc n) p s
        ≡ partition n p (record { ptrs = swap s.ptrs l (r - 1); left = l + 1; right = r - 1 })
  unfolding partition
  partition-swaps a b c d = cc

  pub partition-passes :
      ltb s.left s.right ≡ true
      → scan_left (length s.ptrs) s.ptrs p s.left ≡ some l
      → scan_right s.ptrs p s.right ≡ some r
      → ltb l r ≡ false
      → partition (suc n) p s ≡ partition n p (record s { left = l; right = r })
  unfolding partition
  partition-passes a b c d = cc

pub partition-stops :
    (n : ℕ) (p : ℕ) (s : Partition) → ltb s.left s.right ≡ false → partition (suc n) p s ≡ some s
unfolding partition
partition-stops n p s a = cc

module _ (p : ℕ) (xs : List ℕ) (s : Partition) (l r : ℕ) (ok : IsPartitioned p xs s)
    (low' : (i : ℕ) → s.left ≤ i → i < l → s.ptrs ! i ≤ p)
    (high' : (i : ℕ) → r ≤ i → i < s.right → p ≤ s.ptrs ! i) where
  below : (i : ℕ) → i < l → s.ptrs ! i ≤ p
  below i h = elim (Bool-cases (ltb i s.left)) [
    | inl e ↦ ok.low i (ground arith)
    | inr e ↦ low' i (ground arith) h
  ]

  above : (i : ℕ) → r ≤ i → i < length xs → p ≤ s.ptrs ! i
  above i h k = elim (Bool-cases (ltb i s.right)) [
    | inl e ↦ high' i h (ground arith)
    | inr e ↦ ok.high i (ground arith) k
  ]

  pub passed-IsPartitioned : IsPartitioned p xs (record s { left = l; right = r })
  passed-IsPartitioned = record { size = ok.size; same = ok.same; low = below; high = above }

  pub swapped-IsPartitioned :
      l < r
      → r ≤ length xs
      → p ≤ s.ptrs ! l
      → s.ptrs ! (r - 1) ≤ p
      → IsPartitioned p xs (record { ptrs = swap s.ptrs l (r - 1); left = l + 1; right = r - 1 })
  swapped-IsPartitioned lt to stop_left stop_right =
      let size = ok.size in
      let i_in : l < length s.ptrs = omega arith in
      let j_in : r - 1 < length s.ptrs = omega arith in
      record {
        size = length-swap s.ptrs l (r - 1) i_in j_in ∙ ok.size;
        same = λ x. count-swap s.ptrs l (r - 1) i_in j_in x ∙ ok.same x;
        low = λ i h. ground (arith, swap_at s.ptrs l (r - 1) i_in j_in i, below i);
        high = λ i h k. ground (arith, swap_at s.ptrs l (r - 1) i_in j_in i, above i);
      }
