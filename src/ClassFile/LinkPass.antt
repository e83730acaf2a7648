-- ===== src/ClassFile/LinkPass.antt =====
-- vm/classfile.c: the second pass over the constant pool, the descriptors, and the pool that results.
use b_jvm.Common.{
  ℕ, zero, suc, ◌+◌, ◌≡◌, refl, sym, ◌∙◌, subst, Bool, true, false, List, [], Bytes, set, arith,
  ◌⊎◌, inl, inr,
}
use b_jvm.ClassFile.{CpKind, CpEntry, kind_of}
use b_jvm.ClassFile.Gives.{Gives, Gives-bind, Gives-map}
use b_jvm.ClassFile.Pool.{Pass, is_wide, stored, skipped, parse_entries}
use b_jvm.ClassFile.Linked.{LinksTo, parse_constant_pool_entry-Links}
use b_jvm.ClassFile.Kinds.{
  SameKinds, HasKind, SameKinds-set, Follows, Follows-SameKinds, Follows-invalid,
}
use b_jvm.ClassFile.Passes.{
  AreLinked, AreLinked-set, AreLinked-plain, AreLinked-skipped, SameKinds-skipped, IsSkipped,
}

pub stored_cases :
    (i : ℕ) (e : CpEntry) (pool : List CpEntry)
    → (stored Pass.link i e pool ≡ set pool i e)
      ⊎ ((stored Pass.link i e pool ≡ pool) × (kind_of e ≡ CpKind.utf8))
stored_cases i (CpEntry.utf8 s) pool = inr (refl, refl)
stored_cases i CpEntry.invalid pool = inl refl
stored_cases i (CpEntry.integer n) pool = inl refl
stored_cases i (CpEntry.float n) pool = inl refl
stored_cases i (CpEntry.long n) pool = inl refl
stored_cases i (CpEntry.double n) pool = inl refl
stored_cases i (CpEntry.class_info s) pool = inl refl
stored_cases i (CpEntry.module_info s) pool = inl refl
stored_cases i (CpEntry.package_info s) pool = inl refl
stored_cases i (CpEntry.string s) pool = inl refl
stored_cases i (CpEntry.field_ref c t d) pool = inl refl
stored_cases i (CpEntry.method_ref c t d) pool = inl refl
stored_cases i (CpEntry.interface_method_ref c t d) pool = inl refl
stored_cases i (CpEntry.name_and_type s d) pool = inl refl
stored_cases i (CpEntry.method_handle k r) pool = inl refl
stored_cases i (CpEntry.method_type s d) pool = inl refl
stored_cases i (CpEntry.dynamic_constant j t d) pool = inl refl
stored_cases i (CpEntry.invoke_dynamic j t d) pool = inl refl

stored-AreLinked :
    (i : ℕ) (v : CpEntry) (pool : List CpEntry)
    → AreLinked i pool
    → LinksTo pool v
    → HasKind pool i (kind_of v)
    → SameKinds pool (stored Pass.link i v pool) × AreLinked (suc i) (stored Pass.link i v pool)
stored-AreLinked i v pool linked new kind = elim (stored_cases i v pool) [
  | inl e ↦
      subst (λ p. SameKinds pool p × AreLinked (suc i) p) (sym e)
        (SameKinds-set pool i v kind, AreLinked-set i pool v linked new kind)
  | inr (e, k) ↦
      subst (λ p. SameKinds pool p × AreLinked (suc i) p) (sym e)
        (λ j. refl, AreLinked-plain i pool (kind_of v) (inr k) linked kind)
]

Follows-IsSkipped :
    (n i : ℕ) (w : Bool) (pool : List CpEntry) (reader : Bytes)
    → Follows n i w pool reader
    → IsSkipped w pool i
Follows-IsSkipped n i true pool reader h = Follows-invalid n i pool reader h
Follows-IsSkipped n i false pool reader h = tt

pub link_entries-AreLinked :
    (n i : ℕ) (skip : Bool) (pool : List CpEntry) (reader : Bytes)
    → Follows n i skip pool reader
    → AreLinked i pool
    → Gives
        (λ p. AreLinked (i + n) p.0 × SameKinds pool p.0)
        (parse_entries n Pass.link i skip pool reader)
unfolding parse_entries
link_entries-AreLinked zero i true pool reader f linked =
    Gives.good (subst (λ m. AreLinked m pool) (omega arith) linked, λ j. refl)
link_entries-AreLinked zero i false pool reader f linked =
    Gives.good (subst (λ m. AreLinked m pool) (omega arith) linked, λ j. refl)
link_entries-AreLinked (suc n) i true pool reader f linked =
    Gives-map
      (link_entries-AreLinked n (suc i) false pool reader f.1
        (AreLinked-plain i pool CpKind.invalid (inl refl) linked f.0))
      (λ p h. (subst (λ m. AreLinked m p.0) (omega arith) h.0, h.1))
link_entries-AreLinked (suc n) i false pool reader f linked =
    Gives-bind (parse_constant_pool_entry-Links pool [] reader) λ p h.
      let (e, again, kind, wide) = h.1 in
      let (here, next) = f e p.1 again in
      let here' : HasKind pool i (kind_of p.0) = subst (λ k. HasKind pool i k) kind here in
      let next' : Follows n (suc i) (is_wide p.0) pool p.1 =
        subst (λ w. Follows n (suc i) w pool p.1) wide next in
      let pool1 = stored Pass.link i p.0 pool in
      let (same, linked1) = stored-AreLinked i p.0 pool linked h.0 here' in
      let skip1 : IsSkipped (is_wide p.0) pool1 (suc i) =
        Follows-IsSkipped n (suc i) (is_wide p.0) pool1 p.1
          (Follows-SameKinds n (suc i) (is_wide p.0) pool pool1 p.1 same next') in
      let pool2 = skipped i (is_wide p.0) pool1 in
      let same2 : SameKinds pool pool2 = SameKinds-skipped i (is_wide p.0) pool pool1 same skip1 in
      Gives-map
        (link_entries-AreLinked n (suc i) (is_wide p.0) pool2 p.1
          (Follows-SameKinds n (suc i) (is_wide p.0) pool pool2 p.1 same2 next')
          (AreLinked-skipped i (is_wide p.0) pool1 linked1 skip1))
        (λ q k. (subst (λ m. AreLinked m q.0) (omega arith) k.0, λ j. k.1 j ∙ same2 j))
