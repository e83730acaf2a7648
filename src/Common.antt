-- ===== src/Common.antt =====
-- The names that every other module shares: library names passed on, Boolean tests on the native
-- numbers, C arrays as lists with native indices, and machine words.
mod Tests
mod Lists
mod Slices
mod Words
mod Order
pub use Tests.*
pub use Lists.*
pub use Slices.{Bytes, bytes, mem_eq→eq, mem_eq_refl, mem_eq_congr}
unfoldable pub use Slices.{mem_eq}
pub use Words.*
unfoldable pub use Order.{lt_wf}
pub use Prim.Native.Nat.{ℕ, zero, suc, ◌+◌, ◌-◌, ◌*◌, ◌/◌, ◌%◌, ◌^◌, ◌≤◌, ◌<◌, min, max}
pub use Prim.Native.Nat.{bit_and, bit_or, bit_xor}
pub use mathlib.Core.Path.{◌≡◌, refl, sym, ap, ◌∙◌, subst, ◌≡⟨◌⟩◌, ◌∎}
pub use mathlib.Core.Logic.{◌≢◌, ◌↔◌, ◌⊎◌, inl, inr}
pub use mathlib.Core.Bool.{Bool, true, false, not, ◌&&◌, ◌||◌}
pub use mathlib.Core.Option.{Option, none, some}
pub use mathlib.Core.List.{List, [], ◌∷◌, ◌++◌, map, append_assoc, append-nil}
pub use native.Mathlib.Omega.{arith}
