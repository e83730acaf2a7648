-- ===== src/HashTable/Hash.antt =====
-- vm/adt.c, `fxhash_string`, on a little-endian machine.
use b_jvm.Common.{
  ℕ, zero, suc, ◌+◌, ◌*◌, ◌/◌, ◌^◌, [], ◌∷◌, bit_or, bit_xor, Bytes, length, take, drop, u32, u64,
  if◌then◌else◌, ◌==◌,
}

-- `memcpy(&word, p, n)` into a zeroed word
unfoldable pub load_word : Bytes → ℕ
load_word [] = 0
load_word (b ∷ bs) = b + 256 * load_word bs

abbrev pub fxhash_const : ℕ
fxhash_const = 0x517cc1b727220a95

-- `((hash << 5 | hash >> 59) ^ word) * FXHASH_CONST`
unfoldable pub fxhash_mix : ℕ → ℕ → ℕ
fxhash_mix hash word =
    u64 (bit_xor (bit_or (u64 (hash * 2 ^ 5)) (hash / 2 ^ 59)) word * fxhash_const)

-- The whole words, `n` of them, and then the bytes that are left.
unfoldable pub fxhash_words : ℕ → ℕ → Bytes → ℕ
unfolding load_word fxhash_mix
fxhash_words zero hash key = if length key == 0 then hash else fxhash_mix hash (load_word key)
fxhash_words (suc n) hash key =
    fxhash_words n (fxhash_mix hash (load_word (take 8 key))) (drop 8 key)

unfoldable pub fxhash_string : Bytes → ℕ
unfolding fxhash_words
fxhash_string key = u32 (fxhash_words (length key / 8) 0 key)
