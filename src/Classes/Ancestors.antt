-- ===== src/Classes/Ancestors.antt =====
-- vm/linkage.c and vm/bjvm.c: the test by the array of superclasses against the superclasses.
use b_jvm.Common.{
  ℕ, zero, suc, ◌-◌, ◌≡◌, ◌<◌, ◌≤◌, ◌↔◌, refl, sym, ap, subst, ◌∙◌, Bool, true, false, ◌&&◌, List,
  [], ◌∷◌, ◌++◌, some, leb, ◌==◌, length, get_elem?, length-append, arith, Bool-cases, inl, inr,
}
use b_jvm.Classes.{
  Class, address, setup_super_hierarchy, hierarchy, is_some_equal, instanceof_super,
}

-- The class itself or a superclass of it, at any remove.
pub data IsAncestor (c : Class) : Class → Type 0 where
  self : IsAncestor c c
  above : {a : ℕ} {is : List ℕ} {s : Class} → IsAncestor c s → IsAncestor c (Class.extends a is s)

-- How many classes stand above a class.
abbrev height : Class → ℕ
height (Class.object a) = 0
height (Class.extends a is s) = suc (height s)

length-hierarchy : (c : Class) → length (hierarchy c) ≡ suc (height c)
unfolding hierarchy setup_super_hierarchy
length-hierarchy (Class.object a) = refl
length-hierarchy (Class.extends a is s) =
    omega (arith, length-append (hierarchy s) (a ∷ []), length-hierarchy s)

get_elem?-append_left :
    (xs ys : List ℕ) (n : ℕ) → n < length xs → get_elem? (xs ++ ys) n ≡ get_elem? xs n
get_elem?-append_left [] ys n h = absurd (omega arith)
get_elem?-append_left (x ∷ xs) ys zero h = refl
get_elem?-append_left (x ∷ xs) ys (suc n) h = get_elem?-append_left xs ys n (omega arith)

get_elem?-last : (xs : List ℕ) (a n : ℕ) → n ≡ length xs → get_elem? (xs ++ a ∷ []) n ≡ some a
get_elem?-last [] a zero h = refl
get_elem?-last [] a (suc n) h = absurd (omega (arith, h))
get_elem?-last (x ∷ xs) a zero h = absurd (omega (arith, h))
get_elem?-last (x ∷ xs) a (suc n) h = get_elem?-last xs a n (omega (arith, h))

-- At every place of the array stands the ancestor of that height.
hierarchy-IsAncestor :
    (o : Class) (n : ℕ)
    → n ≤ height o
    → (c : Class) × IsAncestor c o × (height c ≡ n) × (get_elem? (hierarchy o) n ≡ some (address c))
unfolding hierarchy setup_super_hierarchy
hierarchy-IsAncestor (Class.object a) zero h = (Class.object a, IsAncestor.self, refl, refl)
hierarchy-IsAncestor (Class.object a) (suc n) h = absurd (omega arith)
hierarchy-IsAncestor (Class.extends a is s) n h = elim (Bool-cases (leb n (height s))) [
  | inl low ↦
      let (c, up, at, found) = hierarchy-IsAncestor s n (ground (arith, low)) in
      let inside : n < length (hierarchy s) = ground (arith, low, length-hierarchy s) in
      (c, IsAncestor.above up, at, get_elem?-append_left (hierarchy s) (a ∷ []) n inside ∙ found)
  | inr top ↦
      let last : n ≡ suc (height s) = ground (arith, top, h) in
      (
        Class.extends a is s,
        IsAncestor.self,
        sym last,
        get_elem?-last (hierarchy s) a n (omega (arith, last, length-hierarchy s)),
      )
]

-- And every ancestor stands at its height.
IsAncestor-height : {c o : Class} → IsAncestor c o → height c ≤ height o
IsAncestor-height IsAncestor.self = omega arith
IsAncestor-height (IsAncestor.above up) = omega (arith, IsAncestor-height up)

get_elem?-hierarchy_self : (c : Class) → get_elem? (hierarchy c) (height c) ≡ some (address c)
unfolding hierarchy setup_super_hierarchy
get_elem?-hierarchy_self (Class.object a) = refl
get_elem?-hierarchy_self (Class.extends a is s) =
    get_elem?-last (hierarchy s) a (suc (height s)) (omega (arith, length-hierarchy s))

get_elem?-hierarchy :
    {c o : Class} → IsAncestor c o → get_elem? (hierarchy o) (height c) ≡ some (address c)
unfolding hierarchy setup_super_hierarchy
get_elem?-hierarchy {c} IsAncestor.self = get_elem?-hierarchy_self c
get_elem?-hierarchy {c} (IsAncestor.above {a = a} {s = s} up) =
    let inside : height c < length (hierarchy s) =
      omega (arith, IsAncestor-height up, length-hierarchy s) in
    get_elem?-append_left (hierarchy s) (a ∷ []) (height c) inside ∙ get_elem?-hierarchy up

both_true : (a b : Bool) → (a && b) ≡ true → (a ≡ true) × (b ≡ true)
both_true true true h = (refl, refl)
both_true true false h = cc
both_true false b h = cc

-- For classes that their addresses tell apart, the test by the array of superclasses holds exactly
-- if the target is the class itself or one of its superclasses.
pub instanceof_super_iff :
    (o target : Class)
    → ((c : Class) → IsAncestor c o → address c ≡ address target → c ≡ target)
    → (instanceof_super o target ≡ true) ↔ IsAncestor target o
unfolding instanceof_super
instanceof_super_iff o target apart =
    let long_target = length-hierarchy target in
    let long_o = length-hierarchy o in
    let place : length (hierarchy target) - 1 ≡ height target = omega (arith, long_target) in
    (
      (λ holds.
          let parts = both_true (leb (length (hierarchy target)) (length (hierarchy o))) _ holds in
          let low : height target ≤ height o = ground (arith, parts.0, long_target, long_o) in
          let (c, up, at, found) = hierarchy-IsAncestor o (height target) low in
          let read : get_elem? (hierarchy o) (length (hierarchy target) - 1) ≡ some (address c) =
            ap (get_elem? (hierarchy o)) place ∙ found in
          let equal : (address c == address target) ≡ true =
            sym (ap (λ e. is_some_equal e (address target)) read) ∙ parts.1 in
          subst (λ d. IsAncestor d o) (apart c up (ground (arith, equal))) up),
      (λ up.
          let found = get_elem?-hierarchy up in
          let short : leb (length (hierarchy target)) (length (hierarchy o)) ≡ true =
            ground (arith, IsAncestor-height up, long_target, long_o) in
          let same : (address target == address target) ≡ true = ground arith in
          rw (short, place, found, same) refl),
    )
