-- ===== src/Strings/Intern.antt =====
-- vm/objects.c: interning over a well-formed hash table.
use b_jvm.Common.{
  ◌<◌, ◌≡◌, refl, ap, ◌∙◌, true, false, some, ◌==◌, arith, Bool-cases, inl, inr, mem_eq_refl,
}
use b_jvm.HashTable.{Pointer, Table, hash_table_lookup}
use b_jvm.HashTable.Invariant.{IsValid, view}
use b_jvm.HashTable.Map.{get_or_null, hash_table_lookup-view}
use b_jvm.HashTable.Grow.{hash_table_insert}
use b_jvm.HashTable.Insert.{hash_table_insert_lem}
use b_jvm.Strings.{JString, lookup_interned_jstring, insert_interned_jstring, intern_jstring}

intern-found :
    (t : Table) (s : JString) (p q : Pointer)
    → hash_table_lookup t s.value ≡ some q
    → (q == 0) ≡ false
    → intern_jstring t s p ≡ some (q, t)
unfolding intern_jstring lookup_interned_jstring
intern-found t s p q found there = rw (found, there) refl

intern-missing :
    (t t' : Table) (s : JString) (p q r : Pointer)
    → hash_table_lookup t s.value ≡ some q
    → (q == 0) ≡ true
    → hash_table_insert t s.value p ≡ some (r, t')
    → intern_jstring t s p ≡ some (p, t')
unfolding intern_jstring lookup_interned_jstring insert_interned_jstring
intern-missing t t' s p q r found absent ran = rw (found, absent, ran) refl

lookup_same :
    (t : Table) (s s' : JString) (q : Pointer)
    → hash_table_lookup t s.value ≡ some q
    → s'.value ≡ s.value
    → hash_table_lookup t s'.value ≡ some q
lookup_same t s s' q found same = rw same found

-- Interning in a well-formed table succeeds with an object and leaves a well-formed table, and from
-- then on interning any string whose bytes are the same, whatever its own object and whatever its
-- coder, gives that object and changes nothing.
pub intern_jstring-intern_jstring :
    (t : Table) (s : JString) (p : Pointer)
    → IsValid t
    → 0 < p
    → (q : Pointer) × (t' : Table) × (intern_jstring t s p ≡ some (q, t'))
      × (0 < q)
      × IsValid t'
      × ((s' : JString) (r : Pointer) → s'.value ≡ s.value → intern_jstring t' s' r ≡ some (q, t'))
intern_jstring-intern_jstring t s p valid pos =
    let found = hash_table_lookup-view t valid.sound s.value in
    let old = get_or_null (view t s.value) in
    elim (Bool-cases (old == 0)) [
      | inl absent ↦
          let (t', ran, updates) = hash_table_insert_lem t s.value p valid in
          let now : view t' s.value ≡ some p =
            updates.reads s.value ∙ rw (mem_eq_refl s.value) refl in
          let reads : hash_table_lookup t' s.value ≡ some p =
            hash_table_lookup-view t' updates.valid.sound s.value
            ∙ ap (λ o. some (get_or_null o)) now in
          let there : (p == 0) ≡ false = ground (arith, pos) in
          (
            p,
            t',
            intern-missing t t' s p old old found absent ran,
            pos,
            updates.valid,
            λ s' r same. intern-found t' s' r p (lookup_same t' s s' p reads same) there,
          )
      | inr there ↦ (
        old,
        t,
        intern-found t s p old found there,
        ground (arith, there),
        valid,
        λ s' r same. intern-found t s' r old (lookup_same t s s' old found same) there,
      )
    ]
