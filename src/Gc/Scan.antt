-- ===== src/Gc/Scan.antt =====
-- vm/gc.c: the two scans and the exchange of `quicksort_pointers`.
use b_jvm.Common.{
  ℕ, zero, suc, ◌+◌, ◌-◌, ◌≤◌, ◌<◌, ◌≡◌, ◌≢◌, refl, ap, ◌∙◌, true, false, List, [], ◌∷◌, some,
  length, get_elem?, get_or, set, length-set, ltb, ◌==◌, if◌then◌else◌, arith, Bool-cases, inl, inr,
}
use b_jvm.Gc.Mark.{count}
use b_jvm.Gc.Sort.{scan_left, scan_right, swap}

infix 80 ◌!◌
abbrev pub ◌!◌ : List ℕ → ℕ → ℕ
a ! i = get_or a i 0

pub get_elem?-eq-get_or : (a : List ℕ) (i : ℕ) → i < length a → get_elem? a i ≡ some (a ! i)
get_elem?-eq-get_or [] i h = absurd (omega arith)
get_elem?-eq-get_or (x ∷ a) zero h = refl
get_elem?-eq-get_or (x ∷ a) (suc i) h = get_elem?-eq-get_or a i (omega arith)

pub get_or-set :
    (a : List ℕ) (i j v : ℕ) → i < length a → set a i v ! j ≡ (if i == j then v else a ! j)
get_or-set [] i j v h = absurd (omega arith)
get_or-set (x ∷ a) zero zero v h = refl
get_or-set (x ∷ a) zero (suc j) v h = ground arith
get_or-set (x ∷ a) (suc i) zero v h = ground arith
get_or-set (x ∷ a) (suc i) (suc j) v h = ground (arith, get_or-set a i j v)

count-set :
    (x : ℕ) (a : List ℕ) (i v : ℕ)
    → i < length a
    → count x (set a i v) + (if a ! i == x then 1 else 0) ≡ count x a + (if v == x then 1 else 0)
count-set x [] i v h = absurd (omega arith)
count-set x (y ∷ a) zero v h = omega arith
count-set x (y ∷ a) (suc i) v h = omega (arith, count-set x a i v (omega arith))

module _ (a : List ℕ) (i j : ℕ) (hi : i < length a) (hj : j < length a) where
  pub swap_at :
      (k : ℕ) → swap a i j ! k ≡ (if j == k then a ! i else if i == k then a ! j else a ! k)
  swap_at k = ground (
    arith,
    get_or-set (set a i (a ! j)) j k (a ! i),
    length-set a i (a ! j),
    get_or-set a i k (a ! j),
  )

  pub length-swap : length (swap a i j) ≡ length a
  length-swap = length-set (set a i (a ! j)) j (a ! i) ∙ length-set a i (a ! j)

  pub count-swap : (x : ℕ) → count x (swap a i j) ≡ count x a
  count-swap x =
      let b = set a i (a ! j) in
      let size : length b ≡ length a = length-set a i (a ! j) in
      let kept : b ! j ≡ a ! j = ground (arith, get_or-set a i j (a ! j)) in
      ground (arith, count-set x b j (a ! i) (omega arith), count-set x a i (a ! j) hi)

scan_left-passes :
    (n : ℕ) (a : List ℕ) (p left x : ℕ)
    → get_elem? a left ≡ some x
    → ltb x p ≡ true
    → scan_left (suc n) a p left ≡ scan_left n a p (suc left)
unfolding scan_left
scan_left-passes n a p left x e f = cc

scan_left-stops :
    (n : ℕ) (a : List ℕ) (p left x : ℕ)
    → get_elem? a left ≡ some x
    → ltb x p ≡ false
    → scan_left (suc n) a p left ≡ some left
unfolding scan_left
scan_left-stops n a p left x e f = cc

scan_right-passes :
    (a : List ℕ) (p right x : ℕ)
    → get_elem? a right ≡ some x
    → ltb p x ≡ true
    → scan_right a p (suc right) ≡ scan_right a p right
unfolding scan_right
scan_right-passes a p right x e f = cc

scan_right-stops :
    (a : List ℕ) (p right x : ℕ)
    → get_elem? a right ≡ some x
    → ltb p x ≡ false
    → scan_right a p (suc right) ≡ some (suc right)
unfolding scan_right
scan_right-stops a p right x e f = cc

pub scan_left_lem :
    (n : ℕ) (a : List ℕ) (p left k : ℕ)
    → left ≤ k
    → k < length a
    → k < left + n
    → p ≤ a ! k
    → (l : ℕ) × (scan_left n a p left ≡ some l)
      × (left ≤ l)
      × (l ≤ k)
      × ((i : ℕ) → left ≤ i → i < l → a ! i ≤ p)
      × (p ≤ a ! l)
scan_left_lem zero a p left k from to fuel stop = absurd (omega arith)
scan_left_lem (suc n) a p left k from to fuel stop =
    let here = get_elem?-eq-get_or a left (omega arith) in
    elim (Bool-cases (ltb (a ! left) p)) [
      | inr e ↦ (
        left,
        scan_left-stops n a p left (a ! left) here e,
        omega arith,
        from,
        λ i x y. absurd (omega arith),
        ground arith,
      )
      | inl e ↦
          let below : a ! left < p = ground arith in
          let next : left ≢ k = λ q. absurd (omega (arith, ap (λ n. a ! n) q)) in
          let (l, f, from', to', low, high) =
            scan_left_lem n a p (suc left) k (omega (arith, next)) to (omega arith) stop in
          (
            l,
            scan_left-passes n a p left (a ! left) here e ∙ f,
            omega arith,
            to',
            λ i x y. first a p left i l below x (λ z. low i z y),
            high,
          )
    ]
  where
    first :
        (a : List ℕ) (p left i l : ℕ)
        → a ! left < p
        → left ≤ i
        → (suc left ≤ i → a ! i ≤ p)
        → a ! i ≤ p
    first a p left i l below x rest = elim (Bool-cases (left == i)) [
      | inl e ↦ let same : left ≡ i = ground arith in omega (arith, ap (λ n. a ! n) same)
      | inr e ↦ rest (ground arith)
    ]

pub scan_right_lem :
    (a : List ℕ) (p right k : ℕ)
    → k < right
    → right ≤ length a
    → a ! k ≤ p
    → (r : ℕ) × (scan_right a p right ≡ some r)
      × (k < r)
      × (r ≤ right)
      × ((i : ℕ) → r ≤ i → i < right → p ≤ a ! i)
      × (a ! (r - 1) ≤ p)
scan_right_lem a p zero k from to stop = absurd (omega arith)
scan_right_lem a p (suc right) k from to stop =
    let here = get_elem?-eq-get_or a right (omega arith) in
    elim (Bool-cases (ltb p (a ! right))) [
      | inr e ↦ (
        suc right,
        scan_right-stops a p right (a ! right) here e,
        from,
        omega arith,
        λ i x y. absurd (omega arith),
        last e,
      )
      | inl e ↦
          let above : p < a ! right = ground arith in
          let next : right ≢ k = λ q. absurd (omega (arith, ap (λ n. a ! n) q)) in
          let (r, f, from', to', high, low) =
            scan_right_lem a p right k (omega (arith, next)) (omega arith) stop in
          (
            r,
            scan_right-passes a p right (a ! right) here e ∙ f,
            from',
            omega arith,
            λ i x y. end_of above i y (λ z. high i x z),
            low,
          )
    ]
  where
    last : ltb p (a ! right) ≡ false → a ! (suc right - 1) ≤ p
    last e = let same : suc right - 1 ≡ right = omega arith in rw same (ground arith)

    end_of : p < a ! right → (i : ℕ) → i < suc right → (i < right → p ≤ a ! i) → p ≤ a ! i
    end_of above i y rest = elim (Bool-cases (i == right)) [
      | inl e ↦ let same : i ≡ right = ground arith in rw same (omega arith)
      | inr e ↦ rest (ground arith)
    ]
