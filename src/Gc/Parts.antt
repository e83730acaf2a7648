-- ===== src/Gc/Parts.antt =====
-- vm/gc.c: the loop of `quicksort_pointers` ends, with the array divided at the pivot.
use b_jvm.Common.{
  ℕ, zero, suc, ◌+◌, ◌-◌, ◌≤◌, ◌<◌, ◌≡◌, refl, ◌∙◌, List, some, length, ltb, arith, Bool-cases, inl,
  inr,
}
use b_jvm.Gc.Sort.{swap, Partition, partition}
use b_jvm.Gc.Scan.{◌!◌, scan_left_lem, scan_right_lem}
use b_jvm.Gc.Rounds.{
  IsPartitioned, IsInside, partition-swaps, partition-passes, partition-stops, passed-IsPartitioned,
  swapped-IsPartitioned,
}

abbrev pub Divides : ℕ → ℕ → List ℕ → Partition → Type 0
Divides n p xs s =
    (t : Partition) × (partition n p s ≡ some t)
    × IsPartitioned p xs t
    × IsInside xs t
    × (t.right ≤ t.left)

Divides-of_eq :
    (n k p : ℕ) (xs : List ℕ) (s t : Partition)
    → partition n p s ≡ partition k p t
    → Divides k p xs t
    → Divides n p xs s
Divides-of_eq n k p xs s t e (u, f, ok, inside, le) = (u, e ∙ f, ok, inside, le)

swapped-IsInside :
    (xs a : List ℕ) (l r : ℕ)
    → l < r
    → l < length xs
    → r ≤ length xs
    → IsInside xs (record { ptrs = a; left = l + 1; right = r - 1 })
swapped-IsInside xs a l r lt in_ to = record {
  moved = omega arith;
  ends = omega arith;
  back = omega arith;
}

inside-Divides :
    (n p : ℕ) (xs : List ℕ) (s : Partition)
    → IsPartitioned p xs s
    → IsInside xs s
    → s.right + 2 ≤ s.left + n
    → 1 ≤ n
    → Divides n p xs s
inside-Divides zero p xs s ok inside fuel some_fuel = absurd (omega arith)
inside-Divides (suc n) p xs s ok inside fuel some_fuel = elim (Bool-cases (ltb s.left s.right)) [
  | inr e ↦ (s, partition-stops n p s e, ok, inside, ground arith)
  | inl e ↦
      let size = ok.size in
      let moved = inside.moved in
      let back = inside.back in
      let lt : s.left < s.right = ground arith in
      let (l, fl, from_l, to_l, low, stop_l) =
        scan_left_lem (length s.ptrs) s.ptrs p s.left s.right (omega arith) (omega arith)
          (omega arith) (ok.high s.right (omega arith) back) in
      let (r, fr, from_r, to_r, high, stop_r) =
        scan_right_lem s.ptrs p s.right (s.left - 1) (omega arith) (omega arith)
          (ok.low (s.left - 1) (omega arith)) in
      elim (Bool-cases (ltb l r)) [
        | inl c ↦
            let next : Partition = record {
              ptrs = swap s.ptrs l (r - 1);
              left = l + 1;
              right = r - 1;
            } in
            Divides-of_eq (suc n) n p xs s next (partition-swaps n p s l r e fl fr c) (
              inside-Divides n p xs next
                (swapped-IsPartitioned p xs s l r ok low high (ground arith) (omega arith) stop_l
                  stop_r)
                (swapped-IsInside xs (swap s.ptrs l (r - 1)) l r (ground arith) (omega arith)
                  (omega arith))
                (omega arith) (omega arith))
        | inr c ↦
            let next : Partition = record s { left = l; right = r } in
            Divides-of_eq (suc n) n p xs s next (partition-passes n p s l r e fl fr c) (
              inside-Divides n p xs next (passed-IsPartitioned p xs s l r ok low high)
                (record { moved = omega arith; ends = omega arith; back = omega arith })
                (ground arith) (omega arith))
      ]
]

pub partition-Divides :
    (n : ℕ) (xs : List ℕ) (m : ℕ)
    → m < length xs
    → length xs + 2 ≤ n
    → Divides n (xs ! m) xs (record { ptrs = xs; left = 0; right = length xs })
partition-Divides zero xs m in_ fuel = absurd (omega arith)
partition-Divides (suc n) xs m in_ fuel =
    let p = xs ! m in
    let s : Partition = record { ptrs = xs; left = 0; right = length xs } in
    let ok : IsPartitioned p xs s = record {
      size = refl;
      same = λ x. refl;
      low = λ i h. absurd (omega arith);
      high = λ i h k. absurd (omega arith);
    } in
    let (l, fl, from_l, to_l, low, stop_l) =
      scan_left_lem (length xs) xs p 0 m (omega arith) in_ (omega arith) (omega arith) in
    let (r, fr, from_r, to_r, high, stop_r) =
      scan_right_lem xs p (length xs) m in_ (omega arith) (omega arith) in
    let next : Partition = record { ptrs = swap xs l (r - 1); left = l + 1; right = r - 1 } in
    Divides-of_eq (suc n) n p xs s next
      (partition-swaps n p s l r (ground arith) fl fr (ground arith))
      (inside-Divides n p xs next
        (swapped-IsPartitioned p xs s l r ok low high (omega arith) to_r stop_l stop_r)
        (swapped-IsInside xs (swap xs l (r - 1)) l r (omega arith) (omega arith) to_r) (omega arith)
        (omega arith))
