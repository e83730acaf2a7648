-- ===== src/Wasm.antt =====
-- vm/wasm/wasm_utils.c: the LEB128 encoding of unsigned numbers, and strings. A byte is a number.
-- What a call appends to the buffer is its result; `none` is a write outside the array `out`.
mod Signed
mod Tests
use b_jvm.Common.{
  ℕ, zero, suc, ◌+◌, ◌-◌, ◌*◌, ◌/◌, ◌%◌, ◌^◌, ◌≤◌, ◌<◌, ◌≡◌, refl, ap, append_assoc, length-append,
  true, false, List, [], ◌∷◌, ◌++◌, Option, none, some, ◌>>=◌, length, take, drop, ◌==◌, ltb,
  if◌then◌else◌, arith, Bool-cases, inl, inr,
}

-- The loop, with `n` bytes of the array left.
unfoldable write_groups : ℕ → ℕ → Option (List ℕ)
write_groups zero value = none
write_groups (suc n) value =
    let byte = value % 128 in
    let rest = write_groups n (value / 128) in
    if value / 128 == 0 then some (byte ∷ []) else rest >>= λ bytes. some ((byte + 128) ∷ bytes)

unfoldable wasm_writeuint : ℕ → Option (List ℕ)
unfolding write_groups
wasm_writeuint value = write_groups 16 value

unfoldable write_string : List ℕ → Option (List ℕ)
unfolding wasm_writeuint
write_string str = wasm_writeuint (length str) >>= λ bytes. some (bytes ++ str)

-- How the WebAssembly specification reads such a number: seven bits at a time, the lowest first, up
-- to the first byte whose highest bit is clear.
unfoldable read_uint : List ℕ → Option (ℕ × List ℕ)
read_uint [] = none
read_uint (b ∷ bytes) =
    if ltb b 128 then some (b, bytes) else read_uint bytes >>= λ p. some (b - 128 + 128 * p.0, p.1)

-- Numbers of at most `n` groups of seven bits.
abbrev limit : ℕ → ℕ
limit zero = 1
limit (suc n) = 128 * limit n

abbrev Writes : ℕ → ℕ → ℕ → List ℕ → Type 0
Writes n k value rest =
    (bytes : List ℕ) × (write_groups n value ≡ some bytes)
    × (length bytes ≤ k)
    × (read_uint (bytes ++ rest) ≡ some (value, rest))

last-Writes :
    (n k value : ℕ) (rest : List ℕ) → (value / 128 == 0) ≡ true → Writes (suc n) (suc k) value rest
unfolding write_groups read_uint
last-Writes n k value rest e =
    let below : ltb (value % 128) 128 ≡ true = ground arith in
    let same : value % 128 ≡ value = ground arith in
    ((value % 128) ∷ [], rw e refl, omega arith, rw (below, same) refl)

more-Writes :
    (n k value : ℕ) (rest : List ℕ)
    → (value / 128 == 0) ≡ false
    → Writes n k (value / 128) rest
    → Writes (suc n) (suc k) value rest
unfolding write_groups read_uint
more-Writes n k value rest e (bytes, f, short, g) =
    let above : ltb (value % 128 + 128) 128 ≡ false = ground arith in
    let same : value % 128 + 128 - 128 + 128 * (value / 128) ≡ value = omega arith in
    ((value % 128 + 128) ∷ bytes, rw (e, f) refl, omega arith, rw (above, g, same) refl)

write_groups-Writes :
    (n k value : ℕ) (rest : List ℕ) → k ≤ n → 1 ≤ k → value < limit k → Writes n k value rest
write_groups-Writes n zero value rest room some_room h = absurd (omega arith)
write_groups-Writes zero (suc k) value rest room some_room h = absurd (omega arith)
write_groups-Writes (suc n) (suc k) value rest room some_room h =
    elim (Bool-cases (value / 128 == 0)) [
      | inl e ↦ last-Writes n k value rest e
      | inr e ↦
          let fits : value / 128 < limit k = omega arith in
          more-Writes n k value rest e
            (write_groups-Writes n k (value / 128) rest (omega arith) (more k fits e) fits)
    ]
  where
    more : (k : ℕ) → value / 128 < limit k → (value / 128 == 0) ≡ false → 1 ≤ k
    more zero fits e = absurd (ground arith)
    more (suc k) fits e = omega arith

-- A number below 2^64 is written in at most ten bytes, within the array of the encoder, from
-- which, with anything behind, the decoding of the WebAssembly specification reads the number and
-- leaves what is behind.
read_uint-wasm_writeuint :
    (value : ℕ) (rest : List ℕ)
    → value < 2 ^ 64
    → (bytes : List ℕ) × (wasm_writeuint value ≡ some bytes)
      × (length bytes ≤ 10)
      × (read_uint (bytes ++ rest) ≡ some (value, rest))
unfolding wasm_writeuint
read_uint-wasm_writeuint value rest h =
    write_groups-Writes 16 10 value rest (omega arith) (omega arith) (omega arith)

-- A string stands behind the number of its bytes.
unfoldable read_string : List ℕ → Option (List ℕ × List ℕ)
unfolding read_uint
read_string bytes = read_uint bytes >>= λ p.
    if ltb (length p.1) p.0 then none else some (take p.0 p.1, drop p.0 p.1)

take-append : (a b : List ℕ) → take (length a) (a ++ b) ≡ a
take-append [] b = refl
take-append (x ∷ a) b = ap (λ l. x ∷ l) (take-append a b)

drop-append : (a b : List ℕ) → drop (length a) (a ++ b) ≡ b
drop-append [] b = refl
drop-append (x ∷ a) b = drop-append a b

ltb-false : (n m : ℕ) → m ≤ n → ltb n m ≡ false
ltb-false n m h = ground arith

read_string-write_string :
    (str rest : List ℕ)
    → length str < 2 ^ 64
    → (bytes : List ℕ) × (write_string str ≡ some bytes)
      × (read_string (bytes ++ rest) ≡ some (str, rest))
unfolding write_string read_string
read_string-write_string str rest h =
    let (bytes, f, short, g) = read_uint-wasm_writeuint (length str) (str ++ rest) h in
    let enough : ltb (length (str ++ rest)) (length str) ≡ false =
      ltb-false (length (str ++ rest)) (length str) (omega (arith, length-append str rest)) in
    let assoc : (bytes ++ str) ++ rest ≡ bytes ++ (str ++ rest) = simp append_assoc in
    (
      bytes ++ str,
      rw f refl,
      rw (assoc, g, enough, take-append str rest, drop-append str rest) refl,
    )
