-- ===== src/Wasm/Signed.antt =====
-- vm/wasm/wasm_utils.c: the LEB128 encoding of signed numbers, which are their 64 bits here.
use b_jvm.Common.{
  ℕ, zero, suc, ◌+◌, ◌-◌, ◌*◌, ◌/◌, ◌%◌, ◌^◌, ◌≤◌, ◌<◌, ◌≡◌, refl, Bool, true, false, ◌&&◌, ◌||◌,
  not, List, [], ◌∷◌, ◌++◌, Option, none, some, ◌>>=◌, length, ◌==◌, ltb, if◌then◌else◌, arith,
  Bool-cases, inl, inr,
}

-- `value >>= 7`, which copies the sign.
abbrev shifted : ℕ → ℕ
shifted value = if ltb value (2 ^ 63) then value / 128 else value / 128 + (2 ^ 64 - 2 ^ 57)

abbrev is_last : ℕ → ℕ → Bool
is_last value byte = (value == 0 && ltb byte 64) || (value == 2 ^ 64 - 1 && not (ltb byte 64))

-- The loop, in at most `n` rounds.
unfoldable write_signed : ℕ → ℕ → Option (List ℕ)
write_signed zero value = none
write_signed (suc n) value =
    let byte = value % 128 in
    let rest = write_signed n (shifted value) in
    if is_last (shifted value) byte
    then some (byte ∷ [])
    else rest >>= λ bytes. some ((byte + 128) ∷ bytes)

unfoldable pub wasm_writeint : ℕ → Option (List ℕ)
unfolding write_signed
wasm_writeint value = write_signed 10 value

-- How the WebAssembly specification reads such a number: the second highest bit of the last byte is
-- the sign.
unfoldable pub read_int : List ℕ → Option (ℕ × List ℕ)
read_int [] = none
read_int (b ∷ bytes) =
    if ltb b 128
    then some ((if ltb b 64 then b else b + (2 ^ 64 - 128)), bytes)
    else read_int bytes >>= λ p. some ((b - 128 + 128 * p.0) % 2 ^ 64, p.1)

abbrev half : ℕ → ℕ
half zero = 0
half (suc zero) = 64
half (suc (suc k)) = 128 * half (suc k)

-- Numbers of at most `k` groups of seven bits, the sign included.
abbrev Fits : ℕ → ℕ → Type 0
Fits k value =
    (value < 2 ^ 64)
    × (value < 2 ^ 63 → value < half k)
    × (2 ^ 63 ≤ value → 2 ^ 64 ≤ value + half k)

Fits-shifted : (k value : ℕ) → Fits (suc (suc k)) value → Fits (suc k) (shifted value)
Fits-shifted k value (word, plus, minus) = elim (Bool-cases (ltb value (2 ^ 63))) [
  | inl e ↦
      let small = plus (ground arith) in
      rw e (omega arith, λ h. omega arith, λ h. absurd (omega arith))
  | inr e ↦
      let big : 2 ^ 63 ≤ value = ground arith in
      let close = minus big in rw e (omega arith, λ h. absurd (omega arith), λ h. omega arith)
]

short-is_last : (value : ℕ) → Fits 1 value → is_last (shifted value) (value % 128) ≡ true
short-is_last value (word, plus, minus) = ground (arith, plus, minus)

last_group :
    (value : ℕ)
    → value < 2 ^ 64
    → is_last (shifted value) (value % 128) ≡ true
    → (if ltb (value % 128) 64 then value % 128 else value % 128 + (2 ^ 64 - 128)) ≡ value
last_group value word e = ground arith

more_groups :
    (value : ℕ) → value < 2 ^ 64 → (value % 128 + 128 - 128 + 128 * shifted value) % 2 ^ 64 ≡ value
more_groups value word = elim (Bool-cases (ltb value (2 ^ 63))) [
  | inl e ↦ rw e (omega arith)
  | inr e ↦ let big : 2 ^ 63 ≤ value = ground arith in rw e (omega arith)
]

group_below : (value : ℕ) → ltb (value % 128) 128 ≡ true
group_below value = ground arith

group_above : (value : ℕ) → ltb (value % 128 + 128) 128 ≡ false
group_above value = ground arith

abbrev WritesSigned : ℕ → ℕ → ℕ → List ℕ → Type 0
WritesSigned n k value rest =
    (bytes : List ℕ) × (write_signed n value ≡ some bytes)
    × (length bytes ≤ k)
    × (read_int (bytes ++ rest) ≡ some (value, rest))

last-WritesSigned :
    (n k value : ℕ) (rest : List ℕ)
    → value < 2 ^ 64
    → is_last (shifted value) (value % 128) ≡ true
    → WritesSigned (suc n) (suc k) value rest
unfolding write_signed read_int
last-WritesSigned n k value rest word e = (
  (value % 128) ∷ [],
  rw e refl,
  omega arith,
  rw (group_below value, last_group value word e) refl,
)

more-WritesSigned :
    (n k value : ℕ) (rest : List ℕ)
    → value < 2 ^ 64
    → is_last (shifted value) (value % 128) ≡ false
    → WritesSigned n k (shifted value) rest
    → WritesSigned (suc n) (suc k) value rest
unfolding write_signed read_int
more-WritesSigned n k value rest word e (bytes, f, short, g) = (
  (value % 128 + 128) ∷ bytes,
  rw (e, f) refl,
  omega arith,
  rw (group_above value, g, more_groups value word) refl,
)

write_signed-WritesSigned :
    (n k value : ℕ) (rest : List ℕ) → k ≤ n → Fits k value → WritesSigned n k value rest
write_signed-WritesSigned n zero value rest room (word, plus, minus) =
    absurd (ground (arith, plus, minus))
write_signed-WritesSigned zero (suc k) value rest room fits = absurd (omega arith)
write_signed-WritesSigned (suc n) (suc zero) value rest room fits =
    last-WritesSigned n 0 value rest fits.0 (short-is_last value fits)
write_signed-WritesSigned (suc n) (suc (suc k)) value rest room fits =
    elim (Bool-cases (is_last (shifted value) (value % 128))) [
      | inl e ↦ last-WritesSigned n (suc k) value rest fits.0 e
      | inr e ↦ more-WritesSigned n (suc k) value rest fits.0 e (
          write_signed-WritesSigned n (suc k) (shifted value) rest (omega arith)
            (Fits-shifted k value fits))
    ]

-- A signed number, given by its 64 bits, is written in at most ten bytes, in as many rounds of
-- the loop, from which, with anything behind, the decoding of the WebAssembly specification reads
-- the number and leaves what is behind.
pub read_int-wasm_writeint :
    (value : ℕ) (rest : List ℕ)
    → value < 2 ^ 64
    → (bytes : List ℕ) × (wasm_writeint value ≡ some bytes)
      × (length bytes ≤ 10)
      × (read_int (bytes ++ rest) ≡ some (value, rest))
unfolding wasm_writeint
read_int-wasm_writeint value rest h =
    write_signed-WritesSigned 10 10 value rest (omega arith)
      (h, λ small. omega arith, λ big. omega arith)
