-- ===== src/StackMap/Chop.antt =====
-- chop_frame of vm/stackmaptable.c takes off the last types, a double or a long whole.
use b_jvm.Common.{
  ℕ, zero, suc, ◌-◌, ◌≤◌, ◌≡◌, refl, arith, true, false, List, [], ◌∷◌, ◌++◌, some, length, take,
  drop, if◌then◌else◌, ap, sym, ◌∙◌, append_assoc, append-nil, Bool-cases, inl, inr,
}
use b_jvm.StackMap.{
  ValidationType, done, implicit, is_wide, is_implicit_top, last, init, drop_wide, chop_one, chop,
}
use b_jvm.StackMap.Encode.{Explicit, expand}
use b_jvm.StackMap.Refine.{expand-append}

module _ (a : ValidationType) where
  last-snoc : (xs : List ValidationType) → last (xs ++ a ∷ []) ≡ some a
  unfolding last
  last-snoc [] = refl
  last-snoc (x ∷ []) = refl
  last-snoc (x ∷ y ∷ xs) = last-snoc (y ∷ xs)

  init-snoc : (xs : List ValidationType) → init (xs ++ a ∷ []) ≡ xs
  unfolding init
  init-snoc [] = refl
  init-snoc (x ∷ []) = refl
  init-snoc (x ∷ y ∷ xs) = ap (λ l. x ∷ l) (init-snoc (y ∷ xs))

  drop_wide-snoc : (xs : List ValidationType) → drop_wide (xs ++ a ∷ []) ≡ done xs
  unfolding drop_wide
  drop_wide-snoc [] = ap done (init-snoc [])
  drop_wide-snoc (x ∷ xs) = ap done (init-snoc (x ∷ xs))

implicit_is : is_implicit_top implicit ≡ true
unfolding is_implicit_top
implicit_is = refl

chop_narrow :
    (xs : List ValidationType) (v : ValidationType)
    → is_implicit_top v ≡ false
    → chop_one (xs ++ v ∷ []) ≡ done xs
unfolding chop_one
chop_narrow xs v explicit = rw (last-snoc v xs, explicit, init-snoc v xs)

chop_wide :
    (xs : List ValidationType) (v : ValidationType)
    → chop_one (xs ++ v ∷ [] ++ implicit ∷ []) ≡ done xs
unfolding chop_one is_implicit_top
chop_wide xs v =
    rw (last-snoc implicit (xs ++ v ∷ []), init-snoc implicit (xs ++ v ∷ [])) (drop_wide-snoc v xs)

expand_single :
    (v : ValidationType) → expand (v ∷ []) ≡ (if is_wide v.kind then v ∷ implicit ∷ [] else v ∷ [])
unfolding expand
expand_single v = refl

chop_one-expand :
    (vs : List ValidationType) (v : ValidationType)
    → is_implicit_top v ≡ false
    → chop_one (expand (vs ++ v ∷ [])) ≡ done (expand vs)
chop_one-expand vs v explicit = elim (Bool-cases (is_wide v.kind)) [
  | inl wide ↦
      rw (expand-append vs (v ∷ []), expand_single v, wide)
        (ap chop_one (sym (append_assoc (expand vs) (v ∷ []) (implicit ∷ [])))
          ∙ chop_wide (expand vs) v)
  | inr narrow ↦
      rw (expand-append vs (v ∷ []), expand_single v, narrow) (chop_narrow (expand vs) v explicit)
]

-- A list that is not empty ends in an element.
snoc_view :
    (n : ℕ) (us : List ValidationType)
    → length us ≡ suc n
    → Explicit us
    → (us' : List ValidationType) × (u : ValidationType) × (us ≡ us' ++ u ∷ [])
      × (length us' ≡ n)
      × Explicit us'
      × (is_implicit_top u ≡ false)
snoc_view n [] h e = absurd (omega arith)
snoc_view n (u ∷ []) h e = ([], u, refl, omega arith, tt, e.0)
snoc_view zero (u ∷ w ∷ us) h e = absurd (omega arith)
snoc_view (suc n) (u ∷ w ∷ us) h e =
    let (us', x, text, size, all, one) = snoc_view n (w ∷ us) (omega arith) e.1 in
    (u ∷ us', x, ap (λ l. u ∷ l) text, ap suc size, (e.0, all), one)

pub chop-expand :
    (n : ℕ) (ws us : List ValidationType)
    → length us ≡ n
    → Explicit us
    → chop n (expand (ws ++ us)) ≡ done (expand ws)
unfolding chop
chop-expand zero ws [] h e = rw append-nil
chop-expand zero ws (u ∷ us) h e = absurd (omega arith)
chop-expand (suc n) ws us h e =
    let (us', u, text, size, all, one) = snoc_view n us h e in
    let regroup : ws ++ us ≡ (ws ++ us') ++ u ∷ [] =
      ap (λ l. ws ++ l) text ∙ sym (append_assoc ws us' (u ∷ [])) in
    rw (regroup, chop_one-expand (ws ++ us') u one) (chop-expand n ws us' size all)

take-append-drop : (m : ℕ) (vs : List ValidationType) → take m vs ++ drop m vs ≡ vs
take-append-drop zero vs = refl
take-append-drop (suc m) [] = refl
take-append-drop (suc m) (v ∷ vs) = ap (λ l. v ∷ l) (take-append-drop m vs)

length-drop : (m : ℕ) (vs : List ValidationType) → length (drop m vs) ≡ length vs - m
length-drop zero vs = omega arith
length-drop (suc m) [] = omega arith
length-drop (suc m) (v ∷ vs) = omega (arith, length-drop m vs)

Explicit-drop : (m : ℕ) (vs : List ValidationType) → Explicit vs → Explicit (drop m vs)
Explicit-drop zero vs e = e
Explicit-drop (suc m) [] e = tt
Explicit-drop (suc m) (v ∷ vs) e = Explicit-drop m vs e.1

-- `n` types are taken off the end.
pub chop-take :
    (n : ℕ) (vs : List ValidationType)
    → n ≤ length vs
    → Explicit vs
    → chop n (expand vs) ≡ done (expand (take (length vs - n) vs))
chop-take n vs h e =
    let m = length vs - n in
    let size : length (drop m vs) ≡ n = omega (arith, length-drop m vs) in
    ap (λ l. chop n (expand l)) (sym (take-append-drop m vs))
    ∙ chop-expand n (take m vs) (drop m vs) size (Explicit-drop m vs e)
