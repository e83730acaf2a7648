-- ===== src/Common/Slices.antt =====
-- Byte strings: a `slice`, or a pointer with a length.
use Prim.Native.Nat.{ℕ}
use Prim.Native.Char.{code}
use Prim.Native.String.{String}
use mathlib.Core.Path.{◌≡◌, refl, ap}
use mathlib.Core.Bool.{Bool, true, false, ◌&&◌}
use mathlib.Core.List.{List, [], ◌∷◌}
use native.Mathlib.Omega.{arith}
use b_jvm.Common.Tests.{◌==◌}

abbrev pub Bytes : Type 0
Bytes = List ℕ

-- The bytes of an ASCII literal.
abbrev pub bytes : String → Bytes
bytes String.[] = []
bytes (String.◌∷◌ c s) = code c ∷ bytes s

-- `a_len == b_len && memcmp(a, b, a_len) == 0`
unfoldable pub mem_eq : Bytes → Bytes → Bool
mem_eq [] [] = true
mem_eq [] (b ∷ bs) = false
mem_eq (a ∷ as') [] = false
mem_eq (a ∷ as') (b ∷ bs) = a == b && mem_eq as' bs

pub mem_eq→eq : (a b : Bytes) → mem_eq a b ≡ true → a ≡ b
unfolding mem_eq
mem_eq→eq [] [] h = refl
mem_eq→eq [] (b ∷ bs) h = cc
mem_eq→eq (a ∷ as') [] h = cc
mem_eq→eq (a ∷ as') (b ∷ bs) h = ground (arith, mem_eq→eq as' bs)

pub mem_eq_refl : (a : Bytes) → mem_eq a a ≡ true
unfolding mem_eq
mem_eq_refl [] = refl
mem_eq_refl (a ∷ as') = ground (arith, mem_eq_refl as')

-- The first argument of an equal comparison can be replaced.
pub mem_eq_congr : (a b c : Bytes) → mem_eq a b ≡ true → mem_eq a c ≡ mem_eq b c
mem_eq_congr a b c h = ap (λ x. mem_eq x c) (mem_eq→eq a b h)
