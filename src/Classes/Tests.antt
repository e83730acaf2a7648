-- ===== src/Classes/Tests.antt =====
-- vm/linkage.c and vm/bjvm.c: subclass tests in a small hierarchy.
use b_jvm.Common.{◌≡◌, ◌↔◌, refl, true, [], ◌∷◌, arith}
use b_jvm.Classes.{
  Class, address, setup_super_hierarchy, hierarchy, instanceof_super, instanceof_interface,
}
use b_jvm.Classes.Ancestors.{IsAncestor, instanceof_super_iff}

abbrev java_lang_object : Class
java_lang_object = Class.object 1

abbrev number : Class
number = Class.extends 2 (9 ∷ []) java_lang_object

abbrev integer : Class
integer = Class.extends 3 (9 ∷ 8 ∷ []) number

integer-hierarchy : hierarchy integer ≡ 1 ∷ 2 ∷ 3 ∷ []
unfolding hierarchy setup_super_hierarchy
integer-hierarchy = refl

integer-instanceof_interface :
    instanceof_interface integer (Class.extends 8 [] java_lang_object) ≡ true
unfolding instanceof_interface
integer-instanceof_interface = refl

-- 2 is the address of no other superclass of integer.
apart : (c : Class) → IsAncestor c integer → address c ≡ 2 → c ≡ number
apart c IsAncestor.self h = absurd (omega (arith, h))
apart c (IsAncestor.above IsAncestor.self) h = refl
apart c (IsAncestor.above (IsAncestor.above IsAncestor.self)) h = absurd (omega (arith, h))

instanceof_super_iff_example : (instanceof_super integer number ≡ true) ↔ IsAncestor number integer
instanceof_super_iff_example = instanceof_super_iff integer number apart
