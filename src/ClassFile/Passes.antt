-- ===== src/ClassFile/Passes.antt =====
-- vm/classfile.c: the two passes over the constant pool, and the descriptors at its end.
use b_jvm.Common.{
  ℕ, zero, suc, ◌≤◌, ◌<◌, ◌≡◌, refl, sym, ap, ◌∙◌, subst, Bool, true, false, List, [], some, Bytes,
  get_elem?, set, get_elem?-set_ne, arith, ◌⊎◌, inl, inr,
}
use mathlib.Core.Option.{some_inj}
use native.Mathlib.Decide.{ℕ_discrete}
use b_jvm.ClassFile.{CpKind, CpEntry, kind_of, Result, ok, error}
use b_jvm.ClassFile.Gives.{Gives, Gives-bind, Gives-map}
use b_jvm.ClassFile.Pool.{Pass, parse_constant_pool_entry, is_wide, skipped, parse_entries}
use b_jvm.ClassFile.Linked.{LinksTo, Gives-self}
use b_jvm.ClassFile.Kinds.{
  kind_at, SameKinds, HasKind, SameKinds-set, kind_at-set_ne, set-HasKind, get_elem?-set_value,
  get_elem?-kind_at, LinksTo-SameKinds, Follows,
}

-- The first pass does not look at the pool.
read_any :
    (pool : List CpEntry) (reader : Bytes)
    → parse_constant_pool_entry Pass.read pool reader
      ≡ parse_constant_pool_entry Pass.read [] reader
unfolding parse_constant_pool_entry
read_any pool reader = refl

pair_or : CpEntry × Bytes → Result (CpEntry × Bytes) → CpEntry × Bytes
pair_or p (ok q) = q
pair_or p (error e) = p

ok_pair : {p q : CpEntry × Bytes} → ok p ≡ ok q → p ≡ q
unfolding pair_or
ok_pair {p = p} e = ap (pair_or p) e

abbrev IsUnchanged : ℕ → List CpEntry → List CpEntry → Type 0
IsUnchanged i old pool = (j : ℕ) → j < i → kind_at j pool ≡ kind_at j old

skipped_unchanged :
    (i : ℕ) (w : Bool) (pool : List CpEntry) (j : ℕ)
    → j ≤ i
    → kind_at j (skipped i w pool) ≡ kind_at j pool
skipped_unchanged i true pool j h =
    kind_at-set_ne pool (suc i) j CpEntry.invalid (λ e. absurd (omega arith))
skipped_unchanged i false pool j h = refl

-- What is known of the index `i`, where it is skipped.
abbrev pub IsSkipped : Bool → List CpEntry → ℕ → Type 0
IsSkipped true pool i = HasKind pool i CpKind.invalid
IsSkipped false pool i = Unit {0}

skipped-IsSkipped :
    (i : ℕ) (w : Bool) (pool : List CpEntry) → IsSkipped w (skipped i w pool) (suc i)
skipped-IsSkipped i true pool = set-HasKind pool (suc i) CpEntry.invalid
skipped-IsSkipped i false pool = tt

HasKind-eq :
    (old pool : List CpEntry) (i : ℕ) (k : CpKind)
    → kind_at i pool ≡ kind_at i old
    → HasKind old i k
    → HasKind pool i k
HasKind-eq old pool i k e (inl h) = inl (e ∙ h)
HasKind-eq old pool i k e (inr h) = inr (e ∙ h)

pub read_entries-Follows :
    (n i : ℕ) (skip : Bool) (pool : List CpEntry) (reader : Bytes)
    → IsSkipped skip pool i
    → Gives
        (λ p. Follows n i skip p.0 reader × IsUnchanged i pool p.0)
        (parse_entries n Pass.read i skip pool reader)
unfolding parse_entries
read_entries-Follows zero i true pool reader h = Gives.good (h, λ j lt. refl)
read_entries-Follows zero i false pool reader h = Gives.good (tt, λ j lt. refl)
read_entries-Follows (suc n) i true pool reader h =
    Gives-map (read_entries-Follows n (suc i) false pool reader tt) (λ p k. (
      (HasKind-eq pool p.0 i CpKind.invalid (k.1 i (omega arith)) h, k.0),
      λ j lt. k.1 j (omega arith),
    ))
read_entries-Follows (suc n) i false pool reader h =
    Gives-bind (Gives-self (parse_constant_pool_entry Pass.read pool reader)) λ p e.
      let pool' = skipped i (is_wide p.0) (set pool i p.0) in
      Gives-map
        (read_entries-Follows n (suc i) (is_wide p.0) pool' p.1
          (skipped-IsSkipped i (is_wide p.0) (set pool i p.0)))
        (λ q k.
          let here : HasKind q.0 i (kind_of p.0) =
            HasKind-eq (set pool i p.0) q.0 i (kind_of p.0)
              (k.1 i (omega arith)
                ∙ skipped_unchanged i (is_wide p.0) (set pool i p.0) i (omega arith))
              (set-HasKind pool i p.0) in
          (
            λ x rest f.
                let same = ok_pair (sym e ∙ (read_any pool reader ∙ f)) in
                subst
                  (λ (y : CpEntry × Bytes).
                    HasKind q.0 i (kind_of y.0) × Follows n (suc i) (is_wide y.0) q.0 y.1)
                  same (here, k.0),
            λ j lt.
                k.1 j (omega arith)
                ∙ (skipped_unchanged i (is_wide p.0) (set pool i p.0) j (omega arith)
                    ∙ kind_at-set_ne pool i j p.0 (λ x. absurd (omega arith))),
          ))

-- The entries below `i` are linked.
abbrev pub AreLinked : ℕ → List CpEntry → Type 0
AreLinked i pool = (j : ℕ) (e : CpEntry) → j < i → get_elem? pool j ≡ some e → LinksTo pool e

pub AreLinked-set :
    (i : ℕ) (pool : List CpEntry) (v : CpEntry)
    → AreLinked i pool
    → LinksTo pool v
    → HasKind pool i (kind_of v)
    → AreLinked (suc i) (set pool i v)
AreLinked-set i pool v linked new kind j e lt at =
    let same = SameKinds-set pool i v kind in
    elim (ℕ_discrete i j) [
      | yes p ↦
          let at' : get_elem? (set pool i v) i ≡ some e =
            subst (λ n. get_elem? (set pool i v) n ≡ some e) (sym p) at in
          LinksTo-SameKinds pool (set pool i v) same e
            (subst (λ x. LinksTo pool x) (sym (get_elem?-set_value pool i v e at')) new)
      | no p ↦
          LinksTo-SameKinds pool (set pool i v) same e
            (linked j e (omega arith) (sym (get_elem?-set_ne pool i j v p) ∙ at))
    ]

pub plain-LinksTo :
    (pool : List CpEntry) (e : CpEntry)
    → (kind_of e ≡ CpKind.invalid) ⊎ (kind_of e ≡ CpKind.utf8)
    → LinksTo pool e
plain-LinksTo pool CpEntry.invalid h = tt
plain-LinksTo pool (CpEntry.utf8 s) h = tt
plain-LinksTo pool (CpEntry.integer n) h = tt
plain-LinksTo pool (CpEntry.float n) h = tt
plain-LinksTo pool (CpEntry.long n) h = tt
plain-LinksTo pool (CpEntry.double n) h = tt
plain-LinksTo pool (CpEntry.class_info s) h = tt
plain-LinksTo pool (CpEntry.module_info s) h = tt
plain-LinksTo pool (CpEntry.package_info s) h = tt
plain-LinksTo pool (CpEntry.string s) h = tt
plain-LinksTo pool (CpEntry.name_and_type s d) h = tt
plain-LinksTo pool (CpEntry.method_type s d) h = tt
plain-LinksTo pool (CpEntry.field_ref c t d) h = elim h [ inl x ↦ cc | inr x ↦ cc ]
plain-LinksTo pool (CpEntry.method_ref c t d) h = elim h [ inl x ↦ cc | inr x ↦ cc ]
plain-LinksTo pool (CpEntry.interface_method_ref c t d) h = elim h [ inl x ↦ cc | inr x ↦ cc ]
plain-LinksTo pool (CpEntry.method_handle k r) h = elim h [ inl x ↦ cc | inr x ↦ cc ]
plain-LinksTo pool (CpEntry.dynamic_constant i t d) h = elim h [ inl x ↦ cc | inr x ↦ cc ]
plain-LinksTo pool (CpEntry.invoke_dynamic i t d) h = elim h [ inl x ↦ cc | inr x ↦ cc ]

-- An entry that is not written has a kind without links.
pub AreLinked-plain :
    (i : ℕ) (pool : List CpEntry) (k : CpKind)
    → (k ≡ CpKind.invalid) ⊎ (k ≡ CpKind.utf8)
    → AreLinked i pool
    → HasKind pool i k
    → AreLinked (suc i) pool
AreLinked-plain i pool k plain linked kind j e lt at = elim (ℕ_discrete i j) [
  | no p ↦ linked j e (omega arith) at
  | yes p ↦
      let there : kind_at i pool ≡ some (kind_of e) =
        get_elem?-kind_at pool i e (subst (λ n. get_elem? pool n ≡ some e) (sym p) at) in
      let is_k : kind_of e ≡ k = elim kind [
        | inl none_there ↦ cc
        | inr is ↦ some_inj.0 (sym there ∙ is)
      ] in
      plain-LinksTo pool e (elim plain [ inl x ↦ inl (is_k ∙ x) | inr x ↦ inr (is_k ∙ x) ])
]

pub SameKinds-skipped :
    (i : ℕ) (w : Bool) (old pool : List CpEntry)
    → SameKinds old pool
    → IsSkipped w pool (suc i)
    → SameKinds old (skipped i w pool)
SameKinds-skipped i true old pool s h = λ j. SameKinds-set pool (suc i) CpEntry.invalid h j ∙ s j
SameKinds-skipped i false old pool s h = s

pub AreLinked-skipped :
    (i : ℕ) (w : Bool) (pool : List CpEntry)
    → AreLinked (suc i) pool
    → IsSkipped w pool (suc i)
    → AreLinked (suc i) (skipped i w pool)
AreLinked-skipped i true pool linked h =
    λ j e lt at. AreLinked-set (suc i) pool CpEntry.invalid linked tt h j e (omega arith) at
AreLinked-skipped i false pool linked h = linked
