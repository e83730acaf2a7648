-- ===== src/ClassFile/Kinds.antt =====
-- vm/classfile.c: the kinds of the entries of the constant pool, which the second pass keeps.
use b_jvm.Common.{
  ℕ, zero, suc, ◌≡◌, ◌≢◌, refl, sym, ap, ◌∙◌, subst, Bool, true, false, List, [], ◌∷◌, Option, none,
  some, Bytes, get_elem?, set, ◌⊎◌, inl, inr,
}
use mathlib.Core.Option.{some_inj}
use b_jvm.ClassFile.{CpKind, CpEntry, kind_of, is_expected, ok}
use b_jvm.ClassFile.Gives.{IsEntry}
use b_jvm.ClassFile.Pool.{Pass, parse_constant_pool_entry, is_wide}
use b_jvm.ClassFile.Linked.{IsRef, LinksTo, ref_kinds}

abbrev kind_in : Option CpEntry → Option CpKind
kind_in none = none
kind_in (some e) = some (kind_of e)

abbrev pub kind_at : ℕ → List CpEntry → Option CpKind
kind_at i pool = kind_in (get_elem? pool i)

abbrev pub SameKinds : List CpEntry → List CpEntry → Type 0
SameKinds old pool = (i : ℕ) → kind_at i pool ≡ kind_at i old

-- Where there is an entry, it has the kind.
abbrev pub HasKind : List CpEntry → ℕ → CpKind → Type 0
HasKind pool i k = (kind_at i pool ≡ none) ⊎ (kind_at i pool ≡ some k)

pub HasKind-SameKinds :
    (old pool : List CpEntry) (i : ℕ) (k : CpKind)
    → SameKinds old pool
    → HasKind old i k
    → HasKind pool i k
HasKind-SameKinds old pool i k s (inl h) = inl (s i ∙ h)
HasKind-SameKinds old pool i k s (inr h) = inr (s i ∙ h)

pub SameKinds-set :
    (pool : List CpEntry) (i : ℕ) (e : CpEntry)
    → HasKind pool i (kind_of e)
    → SameKinds pool (set pool i e)
SameKinds-set [] i e h j = refl
SameKinds-set (x ∷ pool) zero e (inl h) zero = cc
SameKinds-set (x ∷ pool) zero e (inr h) zero = sym h
SameKinds-set (x ∷ pool) zero e h (suc j) = refl
SameKinds-set (x ∷ pool) (suc i) e h zero = refl
SameKinds-set (x ∷ pool) (suc i) e h (suc j) = SameKinds-set pool i e h j

pub kind_at-set_ne :
    (pool : List CpEntry) (i j : ℕ) (e : CpEntry)
    → i ≢ j
    → kind_at j (set pool i e) ≡ kind_at j pool
kind_at-set_ne [] i j e h = refl
kind_at-set_ne (x ∷ pool) zero zero e h = absurd (h refl)
kind_at-set_ne (x ∷ pool) zero (suc j) e h = refl
kind_at-set_ne (x ∷ pool) (suc i) zero e h = refl
kind_at-set_ne (x ∷ pool) (suc i) (suc j) e h = kind_at-set_ne pool i j e (λ p. h (ap suc p))

pub set-HasKind : (pool : List CpEntry) (i : ℕ) (e : CpEntry) → HasKind (set pool i e) i (kind_of e)
set-HasKind [] i e = inl refl
set-HasKind (x ∷ pool) zero e = inr refl
set-HasKind (x ∷ pool) (suc i) e = set-HasKind pool i e

pub get_elem?-set_value :
    (pool : List CpEntry) (i : ℕ) (v e : CpEntry) → get_elem? (set pool i v) i ≡ some e → e ≡ v
get_elem?-set_value [] i v e h = cc
get_elem?-set_value (x ∷ pool) zero v e h = sym (some_inj.0 h)
get_elem?-set_value (x ∷ pool) (suc i) v e h = get_elem?-set_value pool i v e h

pub get_elem?-kind_at :
    (pool : List CpEntry) (i : ℕ) (e : CpEntry)
    → get_elem? pool i ≡ some e
    → kind_at i pool ≡ some (kind_of e)
get_elem?-kind_at pool i e at = ap kind_in at

entry_at :
    (pool : List CpEntry) (i : ℕ) (k : CpKind)
    → kind_at i pool ≡ some k
    → (e : CpEntry) × (get_elem? pool i ≡ some e) × (kind_of e ≡ k)
entry_at pool i k h = go (get_elem? pool i) refl h
  where
    go :
        (o : Option CpEntry)
        → get_elem? pool i ≡ o
        → kind_in o ≡ some k
        → (e : CpEntry) × (get_elem? pool i ≡ some e) × (kind_of e ≡ k)
    go none at h = cc
    go (some e) at h = (e, at, some_inj.0 h)

module _ (old pool : List CpEntry) (same : SameKinds old pool) where
  IsEntry-SameKinds : (n : ℕ) (ks : List CpKind) → IsEntry old n ks → IsEntry pool n ks
  IsEntry-SameKinds n ks (e, at, ok_kind) =
      let (e', at', k) = entry_at pool n (kind_of e) (same n ∙ get_elem?-kind_at old n e at) in
      (e', at', subst (λ x. is_expected ks x ≡ true) (sym k) ok_kind)

  IsRef-SameKinds : (r : Option ℕ) (ks : List CpKind) → IsRef old r ks → IsRef pool r ks
  IsRef-SameKinds none ks h = h
  IsRef-SameKinds (some i) ks h = IsEntry-SameKinds i ks h

  pub LinksTo-SameKinds : (e : CpEntry) → LinksTo old e → LinksTo pool e
  LinksTo-SameKinds (CpEntry.field_ref c t d) h =
      (IsRef-SameKinds c (CpKind.class ∷ []) h.0, IsRef-SameKinds t (CpKind.name_and_type ∷ []) h.1)
  LinksTo-SameKinds (CpEntry.method_ref c t d) h =
      (IsRef-SameKinds c (CpKind.class ∷ []) h.0, IsRef-SameKinds t (CpKind.name_and_type ∷ []) h.1)
  LinksTo-SameKinds (CpEntry.interface_method_ref c t d) h =
      (IsRef-SameKinds c (CpKind.class ∷ []) h.0, IsRef-SameKinds t (CpKind.name_and_type ∷ []) h.1)
  LinksTo-SameKinds (CpEntry.method_handle k r) h = IsRef-SameKinds r ref_kinds h
  LinksTo-SameKinds (CpEntry.dynamic_constant i t d) h =
      IsRef-SameKinds t (CpKind.name_and_type ∷ []) h
  LinksTo-SameKinds (CpEntry.invoke_dynamic i t d) h =
      IsRef-SameKinds t (CpKind.name_and_type ∷ []) h
  LinksTo-SameKinds CpEntry.invalid h = tt
  LinksTo-SameKinds (CpEntry.utf8 s) h = tt
  LinksTo-SameKinds (CpEntry.integer n) h = tt
  LinksTo-SameKinds (CpEntry.float n) h = tt
  LinksTo-SameKinds (CpEntry.long n) h = tt
  LinksTo-SameKinds (CpEntry.double n) h = tt
  LinksTo-SameKinds (CpEntry.class_info s) h = tt
  LinksTo-SameKinds (CpEntry.module_info s) h = tt
  LinksTo-SameKinds (CpEntry.package_info s) h = tt
  LinksTo-SameKinds (CpEntry.string s) h = tt
  LinksTo-SameKinds (CpEntry.name_and_type s d) h = tt
  LinksTo-SameKinds (CpEntry.method_type s d) h = tt

-- From the bytes on, the first pass reads the kinds that the entries from `i` on have.
abbrev pub Follows : ℕ → ℕ → Bool → List CpEntry → Bytes → Type 0
Follows zero i true pool reader = HasKind pool i CpKind.invalid
Follows zero i false pool reader = Unit {0}
Follows (suc n) i true pool reader =
    HasKind pool i CpKind.invalid × Follows n (suc i) false pool reader
Follows (suc n) i false pool reader =
    (e : CpEntry) (rest : Bytes)
    → parse_constant_pool_entry Pass.read [] reader ≡ ok (e, rest)
    → HasKind pool i (kind_of e) × Follows n (suc i) (is_wide e) pool rest

pub Follows-SameKinds :
    (n i : ℕ) (skip : Bool) (old pool : List CpEntry) (reader : Bytes)
    → SameKinds old pool
    → Follows n i skip old reader
    → Follows n i skip pool reader
Follows-SameKinds zero i true old pool reader s h = HasKind-SameKinds old pool i CpKind.invalid s h
Follows-SameKinds zero i false old pool reader s h = tt
Follows-SameKinds (suc n) i true old pool reader s h = (
  HasKind-SameKinds old pool i CpKind.invalid s h.0,
  Follows-SameKinds n (suc i) false old pool reader s h.1,
)
Follows-SameKinds (suc n) i false old pool reader s h = λ e rest eq.
    let (a, b) = h e rest eq in
    (
      HasKind-SameKinds old pool i (kind_of e) s a,
      Follows-SameKinds n (suc i) (is_wide e) old pool rest s b,
    )

pub Follows-invalid :
    (n i : ℕ) (pool : List CpEntry) (reader : Bytes)
    → Follows n i true pool reader
    → HasKind pool i CpKind.invalid
Follows-invalid zero i pool reader h = h
Follows-invalid (suc n) i pool reader h = h.0
