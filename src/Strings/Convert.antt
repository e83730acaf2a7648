-- ===== src/Strings/Convert.antt =====
-- vm/objects.c: `convert_modified_utf8_to_chars` against the format, and the bytes of a string.
use b_jvm.Common.{
  ℕ, ◌+◌, ◌*◌, ◌/◌, ◌%◌, ◌<◌, ◌≡◌, refl, ap, ◌∙◌, true, false, ◌&&◌, List, [], ◌∷◌, ◌++◌, some,
  Bytes, leb, ◌==◌, if◌then◌else◌, All, arith, Bool-cases, inl, inr,
}
use b_jvm.Strings.{
  Lead, lead, two_bytes, three_bytes, prepend, convert_modified_utf8_to_chars, do_latin1, halves,
  of_chars, Coder,
}

-- JVMS 4.4.7: one byte for 1 to 127, two for 0 and up to 2047, three for the rest.
abbrev encode_char : ℕ → Bytes
encode_char c =
    if leb 1 c && leb c 127
    then c ∷ []
    else if leb c 2047
    then (192 + c / 64) ∷ (128 + c % 64) ∷ []
    else (224 + c / 4096) ∷ (128 + c / 64 % 64) ∷ (128 + c % 64) ∷ []

unfoldable pub encode : List ℕ → Bytes
encode [] = []
encode (c ∷ cs) = encode_char c ++ encode cs

convert-one :
    (b : ℕ) (r : Bytes)
    → lead b ≡ Lead.one
    → convert_modified_utf8_to_chars (b ∷ r) ≡ prepend b (convert_modified_utf8_to_chars r)
unfolding convert_modified_utf8_to_chars
convert-one b [] h = rw (convert_modified_utf8_to_chars, h) refl
convert-one b (x ∷ []) h = rw (convert_modified_utf8_to_chars, h) refl
convert-one b (x ∷ y ∷ r) h = rw (convert_modified_utf8_to_chars, h) refl

convert-two :
    (b x : ℕ) (r : Bytes)
    → lead b ≡ Lead.two
    → convert_modified_utf8_to_chars (b ∷ x ∷ r)
      ≡ prepend (two_bytes b x) (convert_modified_utf8_to_chars r)
unfolding convert_modified_utf8_to_chars
convert-two b x [] h = rw (convert_modified_utf8_to_chars, h) refl
convert-two b x (y ∷ r) h = rw (convert_modified_utf8_to_chars, h) refl

convert-three :
    (b x y : ℕ) (r : Bytes)
    → lead b ≡ Lead.three
    → convert_modified_utf8_to_chars (b ∷ x ∷ y ∷ r)
      ≡ prepend (three_bytes b x y) (convert_modified_utf8_to_chars r)
unfolding convert_modified_utf8_to_chars
convert-three b x y r h = rw (convert_modified_utf8_to_chars, h) refl

lead-one : (b : ℕ) → (leb 1 b && leb b 127) ≡ true → lead b ≡ Lead.one
unfolding lead
lead-one b h = rw h refl

lead-two : (q : ℕ) → q < 32 → lead (192 + q) ≡ Lead.two
unfolding lead
lead-two q h =
    let a : (leb 1 (192 + q) && leb (192 + q) 127) ≡ false = ground arith in
    let b : ((192 + q) / 32 == 6) ≡ true = ground arith in rw (a, b) refl

lead-three : (q : ℕ) → q < 16 → lead (224 + q) ≡ Lead.three
unfolding lead
lead-three q h =
    let a : (leb 1 (224 + q) && leb (224 + q) 127) ≡ false = ground arith in
    let b : ((224 + q) / 32 == 6) ≡ false = ground arith in
    let c : ((224 + q) / 16 == 14) ≡ true = ground arith in rw (a, b, c) refl

encode_char-convert :
    (c : ℕ) (r : Bytes)
    → c < 65536
    → convert_modified_utf8_to_chars (encode_char c ++ r)
      ≡ prepend c (convert_modified_utf8_to_chars r)
encode_char-convert c r h = elim (Bool-cases (leb 1 c && leb c 127)) [
  | inl one ↦ rw one (convert-one c r (lead-one c one))
  | inr more ↦ elim (Bool-cases (leb c 2047)) [
    | inl two ↦
        let back : two_bytes (192 + c / 64) (128 + c % 64) ≡ c = ground (arith, two) in
        rw (more, two)
          (convert-two (192 + c / 64) (128 + c % 64) r (lead-two (c / 64) (ground (arith, two)))
            ∙ ap (λ z. prepend z (convert_modified_utf8_to_chars r)) back)
    | inr three ↦
        let back : three_bytes (224 + c / 4096) (128 + c / 64 % 64) (128 + c % 64) ≡ c =
          omega arith in
        rw (more, three)
          (convert-three (224 + c / 4096) (128 + c / 64 % 64) (128 + c % 64) r
              (lead-three (c / 4096) (omega arith))
            ∙ ap (λ z. prepend z (convert_modified_utf8_to_chars r)) back)
  ]
]

-- Every sequence of 16-bit characters is read back from its modified UTF-8, the character 0 and
-- unpaired surrogates included.
pub convert_modified_utf8_to_chars-encode :
    (cs : List ℕ) → All (λ c. c < 65536) cs → convert_modified_utf8_to_chars (encode cs) ≡ some cs
unfolding encode convert_modified_utf8_to_chars
convert_modified_utf8_to_chars-encode [] h = refl
convert_modified_utf8_to_chars-encode (c ∷ cs) h =
    encode_char-convert c (encode cs) h.0
    ∙ ap (prepend c) (convert_modified_utf8_to_chars-encode cs h.1)

-- Two characters below 256 and the one character that their bytes make up are different strings
-- with the same key in the table of interned strings.
pub of_chars-collides :
    (a b : ℕ)
    → a < 256
    → 0 < b
    → b < 256
    → ((of_chars (a ∷ b ∷ [])).value ≡ (of_chars ((a + 256 * b) ∷ [])).value)
      × ((of_chars (a ∷ b ∷ [])).coder ≡ Coder.latin1)
      × ((of_chars ((a + 256 * b) ∷ [])).coder ≡ Coder.utf16)
unfolding of_chars do_latin1 halves
of_chars-collides a b small pos less =
    let low : (a / 256 == 0) ≡ true = ground arith in
    let high : (b / 256 == 0) ≡ true = ground arith in
    let wide : ((a + 256 * b) / 256 == 0) ≡ false = ground arith in
    let first : (a + 256 * b) % 256 ≡ a = omega arith in
    let second : (a + 256 * b) / 256 ≡ b = omega arith in
    rw (low, high, wide, first, second) (refl, refl, refl)
