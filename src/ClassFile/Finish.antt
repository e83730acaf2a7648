-- ===== src/ClassFile/Finish.antt =====
-- vm/classfile.c: the descriptors of the constant pool.
use b_jvm.Common.{
  ℕ, zero, suc, ◌+◌, ◌<◌, ◌≡◌, ◌≢◌, refl, sym, ap, ◌∙◌, subst, List, Option, none, some, length,
  get_elem?, set, length-set, get_elem?-set_ne, arith, ◌⊎◌, inl, inr,
}
use native.Mathlib.Decide.{ℕ_discrete}
use b_jvm.Descriptor.{parse_complete_field_descriptor, parse_method_descriptor}
use b_jvm.ClassFile.{CpEntry, kind_of, FormatError}
use b_jvm.ClassFile.Gives.{Gives, Gives-bind, Gives-map, Gives-any}
use b_jvm.ClassFile.Pool.{
  finish_constant_pool_entry, finished_at, finish_entries, described, nat_at,
}
use b_jvm.ClassFile.Linked.{LinksTo}
use b_jvm.ClassFile.Kinds.{
  HasKind, SameKinds-set, get_elem?-set_value, get_elem?-kind_at, LinksTo-SameKinds,
}
use b_jvm.ClassFile.Passes.{AreLinked}

abbrev IsSome : {A : Type 0} → Option A → Type 0
IsSome none = ⊥
IsSome (some a) = Unit {0}

-- The descriptor of an entry has been read.
abbrev pub IsDescribed : CpEntry → Type 0
IsDescribed (CpEntry.field_ref c t d) = IsSome d
IsDescribed (CpEntry.method_ref c t d) = IsSome d
IsDescribed (CpEntry.interface_method_ref c t d) = IsSome d
IsDescribed (CpEntry.invoke_dynamic i t d) = IsSome d
IsDescribed (CpEntry.method_type s d) = IsSome d
IsDescribed e = Unit {0}

finish_constant_pool_entry-IsDescribed :
    (pool : List CpEntry) (e : CpEntry)
    → LinksTo pool e
    → Gives
        (λ e'. (kind_of e ≡ kind_of e') × LinksTo pool e' × IsDescribed e')
        (finish_constant_pool_entry pool e)
unfolding finish_constant_pool_entry
finish_constant_pool_entry-IsDescribed pool (CpEntry.field_ref c t d) h =
    Gives-bind
      (Gives-any
        (described FormatError.descriptor (parse_complete_field_descriptor (nat_at pool t).1)))
      λ f u. Gives.good (refl, h, tt)
finish_constant_pool_entry-IsDescribed pool (CpEntry.invoke_dynamic i t d) h =
    Gives-bind
      (Gives-any (described FormatError.descriptor (parse_method_descriptor (nat_at pool t).1)))
      λ f u. Gives.good (refl, h, tt)
finish_constant_pool_entry-IsDescribed pool (CpEntry.method_ref c t d) h =
    Gives-bind
      (Gives-any (
        described (FormatError.invalid_method (nat_at pool t).0 (nat_at pool t).1)
          (parse_method_descriptor (nat_at pool t).1)))
      λ f u. Gives.good (refl, h, tt)
finish_constant_pool_entry-IsDescribed pool (CpEntry.interface_method_ref c t d) h =
    Gives-bind
      (Gives-any (
        described (FormatError.invalid_method (nat_at pool t).0 (nat_at pool t).1)
          (parse_method_descriptor (nat_at pool t).1)))
      λ f u. Gives.good (refl, h, tt)
finish_constant_pool_entry-IsDescribed pool (CpEntry.method_type s d) h =
    Gives-bind (Gives-any (described FormatError.descriptor (parse_method_descriptor s)))
      λ f u. Gives.good (refl, h, tt)
finish_constant_pool_entry-IsDescribed pool CpEntry.invalid h = Gives.good (refl, h, tt)
finish_constant_pool_entry-IsDescribed pool (CpEntry.utf8 s) h = Gives.good (refl, h, tt)
finish_constant_pool_entry-IsDescribed pool (CpEntry.integer n) h = Gives.good (refl, h, tt)
finish_constant_pool_entry-IsDescribed pool (CpEntry.float n) h = Gives.good (refl, h, tt)
finish_constant_pool_entry-IsDescribed pool (CpEntry.long n) h = Gives.good (refl, h, tt)
finish_constant_pool_entry-IsDescribed pool (CpEntry.double n) h = Gives.good (refl, h, tt)
finish_constant_pool_entry-IsDescribed pool (CpEntry.class_info s) h = Gives.good (refl, h, tt)
finish_constant_pool_entry-IsDescribed pool (CpEntry.module_info s) h = Gives.good (refl, h, tt)
finish_constant_pool_entry-IsDescribed pool (CpEntry.package_info s) h = Gives.good (refl, h, tt)
finish_constant_pool_entry-IsDescribed pool (CpEntry.string s) h = Gives.good (refl, h, tt)
finish_constant_pool_entry-IsDescribed pool (CpEntry.name_and_type s d) h = Gives.good (refl, h, tt)
finish_constant_pool_entry-IsDescribed pool (CpEntry.method_handle k r) h = Gives.good (refl, h, tt)
finish_constant_pool_entry-IsDescribed pool (CpEntry.dynamic_constant j t d) h =
    Gives.good (refl, h, tt)

abbrev pub AreDescribed : ℕ → List CpEntry → Type 0
AreDescribed i pool = (j : ℕ) (e : CpEntry) → j < i → get_elem? pool j ≡ some e → IsDescribed e

-- The entry at `i` is replaced by one of its kind.
module _ (i : ℕ) (pool : List CpEntry) (v : CpEntry) where
  at_set :
      (j : ℕ) (e : CpEntry)
      → get_elem? (set pool i v) j ≡ some e
      → (e ≡ v) ⊎ ((i ≢ j) × (get_elem? pool j ≡ some e))
  at_set j e at = elim (ℕ_discrete i j) [
    | yes p ↦ inl (
        get_elem?-set_value pool i v e
          (subst (λ n. get_elem? (set pool i v) n ≡ some e) (sym p) at))
    | no p ↦ inr (p, sym (get_elem?-set_ne pool i j v p) ∙ at)
  ]

  replaced-AreLinked :
      (m : ℕ)
      → AreLinked m pool
      → LinksTo pool v
      → HasKind pool i (kind_of v)
      → AreLinked m (set pool i v)
  replaced-AreLinked m linked new kind j e lt at =
      LinksTo-SameKinds pool (set pool i v) (SameKinds-set pool i v kind) e (elim (at_set j e at) [
        | inl is ↦ subst (λ x. LinksTo pool x) (sym is) new
        | inr (p, old) ↦ linked j e lt old
      ])

  replaced-AreDescribed : AreDescribed i pool → IsDescribed v → AreDescribed (suc i) (set pool i v)
  replaced-AreDescribed all new j e lt at = elim (at_set j e at) [
    | inl is ↦ subst IsDescribed (sym is) new
    | inr (p, old) ↦ all j e (below p lt) old
  ]
    where
      below : {j : ℕ} → i ≢ j → j < suc i → j < i
      below p lt = omega arith

abbrev pub IsFinal : ℕ → ℕ → List CpEntry → Type 0
IsFinal m size pool = AreLinked m pool × AreDescribed m pool × (length pool ≡ size)

finished_at-AreDescribed :
    (i m : ℕ) (pool : List CpEntry)
    → i < m
    → AreLinked m pool
    → AreDescribed i pool
    → Gives
        (λ p. AreLinked m p × AreDescribed (suc i) p × (length p ≡ length pool))
        (finished_at pool i (get_elem? pool i))
finished_at-AreDescribed i m pool lt linked all = go (get_elem? pool i) refl
  where
    go :
        (o : Option CpEntry)
        → get_elem? pool i ≡ o
        → Gives
            (λ p. AreLinked m p × AreDescribed (suc i) p × (length p ≡ length pool))
            (finished_at pool i o)
    go none at = Gives.good (
      linked,
      λ j e below there. elim (ℕ_discrete i j) [
        | yes p ↦ cc (at, there, ap (λ n. get_elem? pool n) p)
        | no p ↦ all j e (omega arith) there
      ],
      refl,
    )
    go (some e) at =
        Gives-bind (finish_constant_pool_entry-IsDescribed pool e (linked i e lt at)) λ v h.
          Gives.good (
            replaced-AreLinked i pool v m linked h.1
                (inr (get_elem?-kind_at pool i e at ∙ ap some h.0)),
            replaced-AreDescribed i pool v all h.2,
            length-set pool i v,
          )

pub finish_entries-IsFinal :
    (n i : ℕ) (pool : List CpEntry)
    → AreLinked (i + n) pool
    → AreDescribed i pool
    → Gives (λ p. IsFinal (i + n) (length pool) p) (finish_entries n i pool)
unfolding finish_entries
finish_entries-IsFinal zero i pool linked all =
    Gives.good (linked, subst (λ m. AreDescribed m pool) (omega arith) all, refl)
finish_entries-IsFinal (suc n) i pool linked all =
    Gives-bind (finished_at-AreDescribed i (i + suc n) pool (omega arith) linked all) λ p h.
      Gives-map
        (finish_entries-IsFinal n (suc i) p (subst (λ m. AreLinked m p) (omega arith) h.0) h.1)
        (λ q k. (
          subst (λ m. AreLinked m q) (omega arith) k.0,
          subst (λ m. AreDescribed m q) (omega arith) k.1,
          k.2 ∙ h.2,
        ))
