-- ===== src/ClassFile/LinkedPool.antt =====
-- vm/classfile.c: the constant pool that results from both passes.
use b_jvm.Common.{
  ℕ, zero, suc, ◌+◌, ◌-◌, ◌<◌, ◌≡◌, refl, sym, ap, ◌∙◌, Bool, true, false, List, some, Bytes,
  length, get_elem?, length-set, length-replicate, arith, inl, inr,
}
use mathlib.Core.Option.{some_inj}
use b_jvm.ClassFile.{CpKind, CpEntry, kind_of, Result, ok, reader_next}
use b_jvm.ClassFile.Gives.{Gives, Gives-bind, Gives-map, Gives-any, Gives-ok}
use b_jvm.ClassFile.Pool.{
  Pass, parse_constant_pool_entry, is_wide, stored, skipped, parse_entries, init_constant_pool,
  parse_constant_pool,
}
use b_jvm.ClassFile.Linked.{LinksTo}
use b_jvm.ClassFile.Kinds.{kind_at, get_elem?-kind_at, Follows}
use b_jvm.ClassFile.Passes.{AreLinked, read_entries-Follows, plain-LinksTo}
use b_jvm.ClassFile.Finish.{IsDescribed, AreDescribed, finish_entries-IsFinal}
use b_jvm.ClassFile.LinkPass.{link_entries-AreLinked, stored_cases}

length-stored :
    (pass : Pass) (i : ℕ) (e : CpEntry) (pool : List CpEntry)
    → length (stored pass i e pool) ≡ length pool
length-stored Pass.read i e pool = length-set pool i e
length-stored Pass.link i e pool = elim (stored_cases i e pool) [
  | inl p ↦ ap length p ∙ length-set pool i e
  | inr p ↦ ap length p.0
]

length-skipped : (i : ℕ) (w : Bool) (pool : List CpEntry) → length (skipped i w pool) ≡ length pool
length-skipped i true pool = length-set pool (suc i) CpEntry.invalid
length-skipped i false pool = refl

length-parse_entries :
    (n : ℕ) (pass : Pass) (i : ℕ) (skip : Bool) (pool : List CpEntry) (reader : Bytes)
    → Gives (λ p. length p.0 ≡ length pool) (parse_entries n pass i skip pool reader)
unfolding parse_entries
length-parse_entries zero pass i skip pool reader = Gives.good refl
length-parse_entries (suc n) pass i true pool reader =
    length-parse_entries n pass (suc i) false pool reader
length-parse_entries (suc n) pass i false pool reader =
    Gives-bind (Gives-any (parse_constant_pool_entry pass pool reader)) λ p u.
      Gives-map
        (length-parse_entries n pass (suc i) (is_wide p.0)
          (skipped i (is_wide p.0) (stored pass i p.0 pool)) p.1)
        (λ q h.
          h
          ∙ (length-skipped i (is_wide p.0) (stored pass i p.0 pool)
              ∙ length-stored pass i p.0 pool))

invalid-IsDescribed : (e : CpEntry) → kind_of e ≡ CpKind.invalid → IsDescribed e
invalid-IsDescribed CpEntry.invalid h = tt
invalid-IsDescribed (CpEntry.utf8 s) h = tt
invalid-IsDescribed (CpEntry.integer n) h = tt
invalid-IsDescribed (CpEntry.float n) h = tt
invalid-IsDescribed (CpEntry.long n) h = tt
invalid-IsDescribed (CpEntry.double n) h = tt
invalid-IsDescribed (CpEntry.class_info s) h = tt
invalid-IsDescribed (CpEntry.module_info s) h = tt
invalid-IsDescribed (CpEntry.package_info s) h = tt
invalid-IsDescribed (CpEntry.string s) h = tt
invalid-IsDescribed (CpEntry.name_and_type s d) h = tt
invalid-IsDescribed (CpEntry.method_handle k r) h = tt
invalid-IsDescribed (CpEntry.dynamic_constant j t d) h = tt
invalid-IsDescribed (CpEntry.field_ref c t d) h = cc
invalid-IsDescribed (CpEntry.method_ref c t d) h = cc
invalid-IsDescribed (CpEntry.interface_method_ref c t d) h = cc
invalid-IsDescribed (CpEntry.invoke_dynamic i t d) h = cc
invalid-IsDescribed (CpEntry.method_type s d) h = cc

-- The entry at 0.
first_invalid :
    (pool : List CpEntry) (j : ℕ) (e : CpEntry)
    → kind_at 0 pool ≡ some CpKind.invalid
    → j < 1
    → get_elem? pool j ≡ some e
    → kind_of e ≡ CpKind.invalid
first_invalid pool zero e h lt at = some_inj.0 (sym (get_elem?-kind_at pool 0 e at) ∙ h)
first_invalid pool (suc j) e h lt at = absurd (omega arith)

Gives-both :
    {A : Type 0} {P Q : A → Type 0} {m : Result A}
    → Gives P m
    → Gives Q m
    → Gives (λ a. P a × Q a) m
Gives-both (Gives.good p) h = Gives.good (p, Gives-ok h refl)
Gives-both Gives.bad h = Gives.bad

-- After the first pass.
abbrev IsRead : ℕ → Bytes → List CpEntry → Type 0
IsRead count r pool =
    Follows (count - 1) 1 false pool r
    × (kind_at 0 pool ≡ some CpKind.invalid)
    × (length pool ≡ suc count)

read_pool :
    (count : ℕ) (r : Bytes)
    → Gives
        (λ p. IsRead count r p.0)
        (parse_entries (count - 1) Pass.read 1 false (init_constant_pool count) r)
unfolding init_constant_pool
read_pool count r =
    let start = init_constant_pool count in
    Gives-map
      (Gives-both (read_entries-Follows (count - 1) 1 false start r tt)
        (length-parse_entries (count - 1) Pass.read 1 false start r))
      (λ p h. (h.0.0, h.0.1 0 (omega arith), h.1 ∙ length-replicate (suc count) CpEntry.invalid))

linked_pool :
    (count : ℕ) (r : Bytes) (pool : List CpEntry)
    → IsRead count r pool
    → Gives
        (λ p. AreLinked (1 + (count - 1)) p.0 × AreDescribed 1 p.0 × (length p.0 ≡ suc count))
        (parse_entries (count - 1) Pass.link 1 false pool r)
linked_pool count r pool (follows, zeroth, size) =
    Gives-map
      (Gives-both
        (link_entries-AreLinked (count - 1) 1 false pool r follows
          (λ j e lt at. plain-LinksTo pool e (inl (first_invalid pool j e zeroth lt at))))
        (length-parse_entries (count - 1) Pass.link 1 false pool r))
      (λ q k. (
        k.0.0,
        λ j e lt at. invalid-IsDescribed e (first_invalid q.0 j e (k.0.1 0 ∙ zeroth) lt at),
        k.1 ∙ size,
      ))

finished_pool :
    (reader : Bytes)
    → Gives
        (λ p.
          ((i : ℕ) (e : CpEntry) → i + 1 < length p.0 → get_elem? p.0 i ≡ some e → LinksTo p.0 e)
          × ((i : ℕ) (e : CpEntry) → i + 1 < length p.0 → get_elem? p.0 i ≡ some e → IsDescribed e))
        (parse_constant_pool reader)
unfolding parse_constant_pool
finished_pool reader = Gives-bind (Gives-any (reader_next 2 reader "constant pool count")) λ c u.
    Gives-bind (read_pool c.0 c.1) λ p h. Gives-bind (linked_pool c.0 c.1 p.0 h) λ q k.
      Gives-bind (finish_entries-IsFinal (c.0 - 1) 1 q.0 k.0 k.1) λ pool l. Gives.good (
        λ i e lt at. l.0 i e (omega (arith, l.2, k.2)) at,
        λ i e lt at. l.1 i e (omega (arith, l.2, k.2)) at,
      )

-- In a constant pool that is read, every entry below the count has its links: the class and the
-- name and type of a field or a method, the name and type of a dynamic constant or call site, and
-- the member of a method handle are entries of these kinds, and the descriptors of fields,
-- methods, call sites and method types are read.
pub parse_constant_pool-LinksTo :
    (reader rest : Bytes) (pool : List CpEntry)
    → parse_constant_pool reader ≡ ok (pool, rest)
    → (i : ℕ) (e : CpEntry) → i + 1 < length pool
    → get_elem? pool i ≡ some e
    → LinksTo pool e × IsDescribed e
parse_constant_pool-LinksTo reader rest pool f i e lt at =
    let (linked, all) = Gives-ok (finished_pool reader) f in (linked i e lt at, all i e lt at)
