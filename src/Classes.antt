-- ===== src/Classes.antt =====
-- vm/linkage.c and vm/bjvm.c: the array of superclasses of a class and the subclass tests. A class
-- is the number that stands for its address, its interfaces, as the i-tables list them, and its
-- superclass; java/lang/Object has none.
mod Ancestors
mod Tests
use b_jvm.Common.{
  ℕ, zero, suc, ◌+◌, ◌-◌, ◌≡◌, Bool, true, false, ◌&&◌, ◌||◌, List, [], ◌∷◌, ◌++◌, Option, none,
  some, leb, ◌==◌, if◌then◌else◌, length, get_elem?,
}

data Class : Type 0 where
  object : ℕ → Class
  extends : ℕ → List ℕ → Class → Class

abbrev address : Class → ℕ
address (Class.object a) = a
address (Class.extends a is s) = a

abbrev interfaces : Class → List ℕ
interfaces (Class.object a) = []
interfaces (Class.extends a is s) = is

-- The superclass's array, if there is a superclass, and the class itself behind it.
unfoldable setup_super_hierarchy : ℕ → Option (List ℕ) → List ℕ
setup_super_hierarchy a none = a ∷ []
setup_super_hierarchy a (some super) = super ++ a ∷ []

-- The array of a class, once its superclasses have theirs.
unfoldable hierarchy : Class → List ℕ
unfolding setup_super_hierarchy
hierarchy (Class.object a) = setup_super_hierarchy a none
hierarchy (Class.extends a is s) = setup_super_hierarchy a (some (hierarchy s))

abbrev is_some_equal : Option ℕ → ℕ → Bool
is_some_equal none a = false
is_some_equal (some b) a = b == a

unfoldable instanceof_super : Class → Class → Bool
unfolding hierarchy
instanceof_super o target =
    leb (length (hierarchy target)) (length (hierarchy o))
    && is_some_equal (get_elem? (hierarchy o) (length (hierarchy target) - 1)) (address target)

abbrev contains : List ℕ → ℕ → Bool
contains [] a = false
contains (x ∷ l) a = if x == a then true else contains l a

unfoldable instanceof_interface : Class → Class → Bool
instanceof_interface o target =
    if address o == address target then true else contains (interfaces o) (address target)
