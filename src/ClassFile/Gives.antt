-- ===== src/ClassFile/Gives.antt =====
-- vm/classfile.c: postconditions of parsers, and those of the readers and of the checks of entries.
use b_jvm.Common.{
  ℕ, zero, suc, ◌+◌, ◌≤◌, ◌≡◌, refl, sym, ap, ◌∙◌, true, List, [], ◌∷◌, Option, none, some, Bytes,
  length, drop, ltb, get_elem?, arith, Bool-cases, inl, inr, subst,
}
use Prim.Native.String.{String}
use b_jvm.ClassFile.{
  CpKind, CpEntry, kind_of, FormatError, Result, ok, error, ◌>>=◌, reader_advance, reader_next,
  checked_cp_entry, check_cp_entry, checked, is_expected,
}

-- A result that is no error satisfies P.
pub data Gives {A : Type 0} (P : A → Type 0) : Result A → Type 0 where
  good : {a : A} → P a → Gives P (ok a)
  bad : {e : FormatError} → Gives P (error e)

pub Gives-bind :
    {A B : Type 0} {P : A → Type 0} {Q : B → Type 0} {m : Result A} {f : A → Result B}
    → Gives P m
    → ((a : A) → P a → Gives Q (f a))
    → Gives Q (m >>= f)
Gives-bind (Gives.good {a = a} p) k = k a p
Gives-bind Gives.bad k = Gives.bad

pub Gives-map :
    {A : Type 0} {P Q : A → Type 0} {m : Result A} → Gives P m → ((a : A) → P a → Q a) → Gives Q m
Gives-map (Gives.good {a = a} p) k = Gives.good (k a p)
Gives-map Gives.bad k = Gives.bad

pub Gives-any : {A : Type 0} (m : Result A) → Gives (λ a. Unit {0}) m
Gives-any (ok a) = Gives.good tt
Gives-any (error e) = Gives.bad

abbrev value_or : {A : Type 0} → A → Result A → A
value_or x (ok a) = a
value_or x (error e) = x

-- The postcondition at a result.
pub Gives-ok : {A : Type 0} {P : A → Type 0} {m : Result A} {a : A} → Gives P m → m ≡ ok a → P a
Gives-ok {P = P} (Gives.good {a = b} p) e = subst P (ap (value_or b) e) p
Gives-ok Gives.bad e = cc

abbrev pub Takes : {A : Type 0} → ℕ → Bytes → A × Bytes → Type 0
Takes n reader p = length reader ≡ n + length p.1

length-drop_le :
    {A : Type 0} (n : ℕ) (xs : List A) → n ≤ length xs → length xs ≡ n + length (drop n xs)
length-drop_le zero xs h = omega arith
length-drop_le (suc n) [] h = absurd (omega arith)
length-drop_le (suc n) (x ∷ xs) h = omega (arith, length-drop_le n xs (omega arith))

pub reader_advance-Takes :
    (reader : Bytes) (reason : String) (len : ℕ)
    → Gives (λ p. Takes len reader p) (reader_advance reader reason len)
unfolding reader_advance
reader_advance-Takes reader reason len = elim (Bool-cases (ltb (length reader) len)) [
  | inl e ↦ rw e Gives.bad
  | inr e ↦ rw e (Gives.good (length-drop_le len reader (ground arith)))
]

pub reader_next-Takes :
    (n : ℕ) (reader : Bytes) (reason : String)
    → Gives (λ (p : ℕ × Bytes). Takes n reader p) (reader_next n reader reason)
unfolding reader_next
reader_next-Takes n reader reason =
    Gives-bind (reader_advance-Takes reader reason n) (λ p h. Gives.good h)

-- An entry of one of the kinds stands at the index.
abbrev pub IsEntry : List CpEntry → ℕ → List CpKind → Type 0
IsEntry pool n kinds =
    (e : CpEntry) × (get_elem? pool n ≡ some e) × (is_expected kinds (kind_of e) ≡ true)

check_cp_entry-is_expected :
    (e : CpEntry) (k : CpKind) (ks : List CpKind) (reason : String)
    → Gives
        (λ x. (x ≡ e) × (is_expected (k ∷ ks) (kind_of e) ≡ true))
        (check_cp_entry e (k ∷ ks) reason)
unfolding check_cp_entry
check_cp_entry-is_expected e k ks reason = elim (Bool-cases (is_expected (k ∷ ks) (kind_of e))) [
  | inl p ↦ rw p (Gives.good (refl, refl))
  | inr p ↦ rw p Gives.bad
]

pub checked_cp_entry-is_expected :
    (pool : List CpEntry) (n : ℕ) (k : CpKind) (ks : List CpKind) (reason : String)
    → Gives
        (λ e. (get_elem? pool n ≡ some e) × (is_expected (k ∷ ks) (kind_of e) ≡ true))
        (checked_cp_entry pool n (k ∷ ks) reason)
unfolding checked_cp_entry
checked_cp_entry-is_expected pool n k ks reason = go (get_elem? pool n) refl
  where
    go :
        (o : Option CpEntry)
        → get_elem? pool n ≡ o
        → Gives
            (λ e. (get_elem? pool n ≡ some e) × (is_expected (k ∷ ks) (kind_of e) ≡ true))
            (checked pool n (k ∷ ks) reason o)
    go none at = Gives.bad
    go (some e) at = Gives-map (check_cp_entry-is_expected e k ks reason) (λ x h. (
      at ∙ ap some (sym h.0),
      subst (λ y. is_expected (k ∷ ks) (kind_of y) ≡ true) (sym h.0) h.1,
    ))
