-- ===== src/Strings.antt =====
-- vm/objects.c: Java strings from modified UTF-8, and their interning. The masks and shifts of a
-- byte are written as quotients and remainders. A string object is its coder and the bytes of its
-- array; the allocation of both succeeds.
mod Convert
mod Intern
mod Tests
use b_jvm.Common.{
  ℕ, zero, suc, ◌+◌, ◌*◌, ◌/◌, ◌%◌, ◌<◌, ◌≡◌, Bool, true, false, ◌&&◌, not, List, [], ◌∷◌, ◌++◌,
  Option, none, some, ◌>>=◌, Bytes, ltb, leb, ◌==◌, if◌then◌else◌, All, u16, map,
}
use b_jvm.HashTable.{Pointer, Table, hash_table_lookup}
use b_jvm.HashTable.Grow.{hash_table_insert}

unfoldable do_latin1 : List ℕ → Bool
do_latin1 [] = true
do_latin1 (c ∷ cs) = if not (c / 256 == 0) then false else do_latin1 cs

-- What the first byte of a character announces.
data Lead : Type 0 where
  one : Lead
  two : Lead
  three : Lead
  stop : Lead
  bad : Lead

-- `(b & 0xE0) == 0xC0` is `b / 32 == 6` on a byte, `(b & 0xF0) == 0xE0` is `b / 16 == 14`.
unfoldable lead : ℕ → Lead
lead b =
    if leb 1 b && leb b 127
    then Lead.one
    else if b / 32 == 6
    then Lead.two
    else if b / 16 == 14
    then Lead.three
    else if b == 0
    then Lead.stop
    else Lead.bad

abbrev two_bytes : ℕ → ℕ → ℕ
two_bytes b x = b % 32 * 64 + x % 64

abbrev three_bytes : ℕ → ℕ → ℕ → ℕ
three_bytes b x y = b % 16 * 4096 + x % 64 * 64 + y % 64

abbrev prepend : ℕ → Option (List ℕ) → Option (List ℕ)
prepend c none = none
prepend c (some cs) = some (c ∷ cs)

unfoldable convert_modified_utf8_to_chars : Bytes → Option (List ℕ)
unfolding lead
convert_modified_utf8_to_chars [] = some []
convert_modified_utf8_to_chars (b ∷ []) = elim (lead b) [
  | Lead.one ↦ some (b ∷ [])
  | Lead.two ↦ none
  | Lead.three ↦ none
  | Lead.stop ↦ some []
  | Lead.bad ↦ none
]
convert_modified_utf8_to_chars (b ∷ x ∷ []) = elim (lead b) [
  | Lead.one ↦ prepend b (convert_modified_utf8_to_chars (x ∷ []))
  | Lead.two ↦ some (two_bytes b x ∷ [])
  | Lead.three ↦ none
  | Lead.stop ↦ some []
  | Lead.bad ↦ none
]
convert_modified_utf8_to_chars (b ∷ x ∷ y ∷ r) = elim (lead b) [
  | Lead.one ↦ prepend b (convert_modified_utf8_to_chars (x ∷ y ∷ r))
  | Lead.two ↦ prepend (two_bytes b x) (convert_modified_utf8_to_chars (y ∷ r))
  | Lead.three ↦ prepend (three_bytes b x y) (convert_modified_utf8_to_chars r)
  | Lead.stop ↦ some []
  | Lead.bad ↦ none
]

data Coder : Type 0 where
  latin1 : Coder
  utf16 : Coder

record JString : Type 0 where
  coder : Coder
  value : Bytes

-- `memcpy` of the characters, on a little-endian machine.
unfoldable halves : List ℕ → Bytes
halves [] = []
halves (c ∷ cs) = c % 256 ∷ c / 256 ∷ halves cs

unfoldable of_chars : List ℕ → JString
unfolding do_latin1 halves
of_chars cs =
    if do_latin1 cs
    then record { coder = Coder.latin1; value = cs }
    else record { coder = Coder.utf16; value = halves cs }

unfoldable make_jstring_modified_utf8 : Bytes → Option JString
unfolding convert_modified_utf8_to_chars of_chars
make_jstring_modified_utf8 bs = convert_modified_utf8_to_chars bs >>= λ cs. some (of_chars cs)

unfoldable lookup_interned_jstring : Table → JString → Option Pointer
lookup_interned_jstring t s = hash_table_lookup t s.value

-- The object `p` has the contents `s`.
unfoldable insert_interned_jstring : Table → JString → Pointer → Option Table
insert_interned_jstring t s p = hash_table_insert t s.value p >>= λ r. some r.1

unfoldable intern_jstring : Table → JString → Pointer → Option (Pointer × Table)
unfolding lookup_interned_jstring insert_interned_jstring
intern_jstring t s p = lookup_interned_jstring t s >>= λ q.
    if q == 0 then (insert_interned_jstring t s p >>= λ t'. some (p, t')) else some (q, t)
