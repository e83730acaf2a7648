-- ===== src/Wasm/Tests.antt =====
-- vm/wasm/wasm_utils.c: runs of the code, and the theorems at them.
use b_jvm.Common.{ℕ, ◌-◌, ◌^◌, ◌≤◌, ◌≡◌, refl, List, [], ◌∷◌, ◌++◌, some, length, arith}
use b_jvm.Wasm.{wasm_writeuint, write_string, read_uint, read_uint-wasm_writeuint}
use b_jvm.Wasm.Signed.{wasm_writeint, read_int, read_int-wasm_writeint}

-- The example of the article that the source names.
writes : wasm_writeuint 624485 ≡ some (229 ∷ 142 ∷ 38 ∷ [])
unfolding wasm_writeuint
writes = refl

read_uint-wasm_writeuint_example :
    (bytes : List ℕ) × (wasm_writeuint 624485 ≡ some bytes)
    × (length bytes ≤ 10)
    × (read_uint (bytes ++ 7 ∷ []) ≡ some (624485, 7 ∷ []))
read_uint-wasm_writeuint_example = read_uint-wasm_writeuint 624485 (7 ∷ []) (omega arith)

string : write_string (97 ∷ 98 ∷ []) ≡ some (2 ∷ 97 ∷ 98 ∷ [])
unfolding write_string
string = refl

-- -123456, the other example of the article.
abbrev negative : ℕ
negative = 2 ^ 64 - 123456

writes_negative : wasm_writeint negative ≡ some (192 ∷ 187 ∷ 120 ∷ [])
unfolding wasm_writeint
writes_negative = refl

read_int-wasm_writeint_example :
    (bytes : List ℕ) × (wasm_writeint negative ≡ some bytes)
    × (length bytes ≤ 10)
    × (read_int (bytes ++ 7 ∷ []) ≡ some (negative, 7 ∷ []))
read_int-wasm_writeint_example = read_int-wasm_writeint negative (7 ∷ []) (omega arith)
