-- ===== src/Gc/Counts.antt =====
-- vm/gc.c: how often a pointer stands in the parts of an array, and arrays in order.
use b_jvm.Common.{
  ℕ, zero, suc, ◌+◌, ◌-◌, ◌≤◌, ◌<◌, ◌≡◌, refl, List, [], ◌∷◌, ◌++◌, length, take, drop, leb, ◌==◌,
  arith, Bool-cases, inl, inr,
}
use b_jvm.Gc.Mark.{count}
use b_jvm.Gc.Scan.{◌!◌}
use b_jvm.Gc.Search.{IsAscending}

pub count-append : (x : ℕ) (a b : List ℕ) → count x (a ++ b) ≡ count x a + count x b
count-append x [] b = omega arith
count-append x (y ∷ a) b = omega (arith, count-append x a b)

pub count-take-drop : (x k : ℕ) (a : List ℕ) → count x (take k a) + count x (drop k a) ≡ count x a
count-take-drop x zero a = omega arith
count-take-drop x (suc k) [] = omega arith
count-take-drop x (suc k) (y ∷ a) = omega (arith, count-take-drop x k a)

count-take-empty : (x k : ℕ) → count x (take k []) ≡ 0
count-take-empty x zero = refl
count-take-empty x (suc k) = refl

pub count-take-middle :
    (x r l : ℕ) (a : List ℕ)
    → r ≤ l
    → count x (take l a) ≡ count x (take r a) + count x (take (l - r) (drop r a))
count-take-middle x zero l a h = let all : l - 0 ≡ l = omega arith in rw all (omega arith)
count-take-middle x (suc r) zero a h = absurd (omega arith)
count-take-middle x (suc r) (suc l) [] h = omega (arith, count-take-empty x (suc l - suc r))
count-take-middle x (suc r) (suc l) (y ∷ a) h =
    let less : suc l - suc r ≡ l - r = omega arith in
    rw less (omega (arith, count-take-middle x r l a (omega arith)))

pub length-take : (k : ℕ) (a : List ℕ) → length (take k a) ≤ k
length-take zero a = omega arith
length-take (suc k) [] = omega arith
length-take (suc k) (x ∷ a) = omega (arith, length-take k a)

pub length-drop : (k : ℕ) (a : List ℕ) → length (drop k a) ≡ length a - k
length-drop zero a = omega arith
length-drop (suc k) [] = omega arith
length-drop (suc k) (x ∷ a) = omega (arith, length-drop k a)

pub take-le :
    (k p y : ℕ) (a : List ℕ) → ((i : ℕ) → i < k → a ! i ≤ p) → 0 < count y (take k a) → y ≤ p
take-le zero p y a low h = absurd (omega arith)
take-le (suc k) p y [] low h = absurd (omega arith)
take-le (suc k) p y (x ∷ a) low h = elim (Bool-cases (x == y)) [
  | inl e ↦ let first = low 0 (omega arith) in ground arith
  | inr e ↦ take-le k p y a (λ i lt. low (suc i) (omega arith)) (ground arith)
]

pub drop-ge :
    (k p y : ℕ) (a : List ℕ)
    → ((i : ℕ) → k ≤ i → i < length a → p ≤ a ! i)
    → 0 < count y (drop k a)
    → p ≤ y
drop-ge zero p y [] high h = absurd (omega arith)
drop-ge zero p y (x ∷ a) high h = elim (Bool-cases (x == y)) [
  | inl e ↦ let first = high 0 (omega arith) (omega arith) in ground arith
  | inr e ↦
      drop-ge zero p y a (λ i from lt. high (suc i) (omega arith) (omega arith)) (ground arith)
]
drop-ge (suc k) p y [] high h = absurd (omega arith)
drop-ge (suc k) p y (x ∷ a) high h =
    drop-ge k p y a (λ i from lt. high (suc i) (omega arith) (omega arith)) h

abbrev pub IsSorted : List ℕ → Type 0
IsSorted [] = Unit
IsSorted (x ∷ a) = ((y : ℕ) → 0 < count y a → x ≤ y) × IsSorted a

pub append-IsSorted :
    (a b : List ℕ)
    → IsSorted a
    → IsSorted b
    → ((x y : ℕ) → 0 < count x a → 0 < count y b → x ≤ y)
    → IsSorted (a ++ b)
append-IsSorted [] b sa sb h = sb
append-IsSorted (z ∷ a) b (first, sa) sb h = (
  λ y in_. elim (Bool-cases (leb 1 (count y a))) [
    | inl e ↦ first y (ground arith)
    | inr e ↦ let split = count-append y a b in h z y (ground arith) (ground arith)
  ],
  append-IsSorted a b sa sb (λ x y p q. h x y (ground arith) q),
)

pub constant-IsSorted : (p : ℕ) (a : List ℕ) → ((y : ℕ) → 0 < count y a → y ≡ p) → IsSorted a
constant-IsSorted p [] h = tt
constant-IsSorted p (x ∷ a) h = (
  λ y in_. let first = h x (ground arith) in let other = h y (ground arith) in omega arith,
  constant-IsSorted p a (λ y in_. h y (ground arith)),
)

pub count-get_or : (a : List ℕ) (i : ℕ) → i < length a → 0 < count (a ! i) a
count-get_or [] i h = absurd (omega arith)
count-get_or (x ∷ a) zero h = ground arith
count-get_or (x ∷ a) (suc i) h = omega (arith, count-get_or a i (omega arith))

pub IsSorted-IsAscending : (a : List ℕ) → IsSorted a → ((x : ℕ) → count x a ≤ 1) → IsAscending a
IsSorted-IsAscending [] s once i j lt in_ = absurd (omega arith)
IsSorted-IsAscending (x ∷ a) s once i zero lt in_ = absurd (omega arith)
IsSorted-IsAscending (x ∷ a) (first, s) once zero (suc j) lt in_ =
    let stands = count-get_or a j (omega arith) in
    let at_least = first (a ! j) stands in
    elim (Bool-cases (x == (a ! j))) [
      | inl e ↦ let twice = once (a ! j) in absurd (ground arith)
      | inr e ↦ ground arith
    ]
IsSorted-IsAscending (x ∷ a) (first, s) once (suc i) (suc j) lt in_ =
    IsSorted-IsAscending a s (λ y. omega (arith, once y)) i j (omega arith) (omega arith)

pub index_of_count : (y : ℕ) (a : List ℕ) → 0 < count y a → (i : ℕ) × (i < length a) × (a ! i ≡ y)
index_of_count y [] h = absurd (omega arith)
index_of_count y (x ∷ a) h = elim (Bool-cases (x == y)) [
  | inl e ↦ (0, omega arith, ground arith)
  | inr e ↦ let (i, lt, f) = index_of_count y a (ground arith) in (suc i, omega arith, f)
]
