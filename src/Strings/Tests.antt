-- ===== src/Strings/Tests.antt =====
-- vm/objects.c: a string with a character of each length, and two strings that collide.
use b_jvm.Common.{ℕ, ◌<◌, ◌≡◌, refl, List, [], ◌∷◌, some, arith}
use b_jvm.HashTable.{Pointer, Table, make_hash_table}
use b_jvm.HashTable.Invariant.{IsValid}
use b_jvm.HashTable.Insert.{make_hash_table-IsValid}
use b_jvm.Strings.{JString, of_chars, intern_jstring, convert_modified_utf8_to_chars}
use b_jvm.Strings.Convert.{encode, convert_modified_utf8_to_chars-encode}
use b_jvm.Strings.Intern.{intern_jstring-intern_jstring}

-- a, the character 0, e with an acute accent, the euro sign, an unpaired surrogate
abbrev mixed : List ℕ
mixed = 97 ∷ 0 ∷ 233 ∷ 8364 ∷ 55357 ∷ []

mixed_bytes : encode mixed ≡ 97 ∷ 192 ∷ 128 ∷ 195 ∷ 169 ∷ 226 ∷ 130 ∷ 172 ∷ 237 ∷ 160 ∷ 189 ∷ []
unfolding encode
mixed_bytes = refl

convert_modified_utf8_to_chars-encode_example :
    convert_modified_utf8_to_chars (encode mixed) ≡ some mixed
convert_modified_utf8_to_chars-encode_example =
    convert_modified_utf8_to_chars-encode mixed
      (omega arith, (omega arith, (omega arith, (omega arith, (omega arith, tt)))))

abbrev interned : Table
interned = make_hash_table (record { num = 3; den = 4 }) 16

abbrev ab : JString
ab = of_chars (65 ∷ 66 ∷ [])

intern_jstring-intern_jstring_example :
    (q : Pointer) × (t' : Table) × (intern_jstring interned ab 8 ≡ some (q, t'))
    × (0 < q)
    × IsValid t'
    × ((s' : JString) (r : Pointer) → s'.value ≡ ab.value → intern_jstring t' s' r ≡ some (q, t'))
intern_jstring-intern_jstring_example =
    intern_jstring-intern_jstring interned ab 8
      (make_hash_table-IsValid (record { num = 3; den = 4 }) 16 (omega arith) (omega arith)).0
      (omega arith)
