-- ===== src/HashTable/Insert.antt =====
-- `hash_table_insert`, `hash_table_rehash` and `hash_table_reserve` of vm/adt.c on well-formed tables.
use b_jvm.Common.{
  ℕ, zero, suc, ◌+◌, ◌*◌, ◌<◌, ◌≡◌, refl, arith, false, [], ◌∷◌, Option, none, some, Bytes,
  length-replicate, ◌∙◌, Bool-cases, inl, inr,
}
use b_jvm.HashTable.{
  Pointer, Table, LoadFactor, entries_cap, empty_entry, make_hash_table, is_full, place,
}
use b_jvm.HashTable.Invariant.{IsSound, IsValid, Changes, view}
use b_jvm.HashTable.Map.{get_or_null, place_lem}
use b_jvm.HashTable.Grow.{
  rehash_with, hash_table_insert_impl, hash_table_insert, hash_table_rehash, hash_table_reserve,
}
use b_jvm.HashTable.Rehash.{
  Fits, mul_le, Fits-Sets, insert_within, fresh_count, rehash_with_lem, make_hash_table-IsSound,
  make_hash_table-view,
}

-- A well-formed table in which `k` now reads as `v`, and all else as before.
pub record Updates (t : Table) (k : Bytes) (v : Option Pointer) (t' : Table) : Type 0 where
  pub change : Changes t k v t'
  pub open change use *
  pub valid : IsValid t'

-- c entries at load below N/d in w slots, and one more, load 2 * w slots less than fully.
grow_bound : (c d m w : ℕ) → c * d < m * w → d < 2 * m → 0 < w → (c + 1) * d < m * (w * 2)
grow_bound zero d m w load half pos = omega (arith, mul_le 1 w (2 * m) (omega arith))
grow_bound (suc c) d m w load half pos = omega (arith, mul_le 1 (suc c) d (omega arith))

pos_mul : (a b : ℕ) → 0 < a → 0 < b → 0 < a * b
pos_mul a b h k = grind arith

place_valid :
    (t u : Table) (k : Bytes) (v : Pointer)
    → IsSound u
    → Fits 1 u
    → IsValid t
    → u.load_factor ≡ t.load_factor
    → u.entries_count ≡ t.entries_count
    → ((q : Bytes) → view u q ≡ view t q)
    → (t' : Table) × (place u k v ≡ some (get_or_null (view t k), t')) × Updates t k (some v) t'
place_valid t u k v sound fits valid f n same =
    let (t', run, sets) = place_lem u sound k v in
    let left = Fits-Sets 0 u t' sets fits in
    (
      t',
      run ∙ rw (same k),
      record {
        change = record {
          sound = sets.sound;
          same_factor = sets.same_factor ∙ f;
          reads = λ q. sets.reads q ∙ rw (same q);
          count = ground (arith, sets.count, same k, n);
        };
        valid = record {
          sound = sets.sound;
          room = omega (
            arith,
            left,
            mul_le t'.entries_count (t'.entries_count + 0) t'.load_factor.den (omega arith),
          );
          factor = rw (sets.same_factor, f) valid.factor;
        };
      },
    )

make_cap : (f : LoadFactor) (n : ℕ) → entries_cap (make_hash_table f n) ≡ n
unfolding make_hash_table
make_cap f n = length-replicate n (empty_entry ∷ [])

make_factor : (f : LoadFactor) (n : ℕ) → (make_hash_table f n).load_factor ≡ f
unfolding make_hash_table
make_factor f n = refl

-- `make_hash_table` gives a well-formed table that holds nothing.
pub make_hash_table-IsValid :
    (f : LoadFactor) (n : ℕ)
    → 0 < n
    → f.den < 2 * f.num
    → IsValid (make_hash_table f n) × ((q : Bytes) → view (make_hash_table f n) q ≡ none)
make_hash_table-IsValid f n pos half = (
  record {
    sound = make_hash_table-IsSound f n pos;
    room =
        rw (fresh_count f n, make_factor f n, make_cap f n)
          (omega (arith, pos_mul f.num n (omega arith) pos));
    factor = rw (make_factor f n) half;
  },
  make_hash_table-view f n,
)

start_Fits :
    (t : Table)
    → IsValid t
    → Fits t.entries_count (make_hash_table t.load_factor (entries_cap t * 2))
start_Fits t valid =
    rw
      (
        fresh_count t.load_factor (entries_cap t * 2),
        make_factor t.load_factor (entries_cap t * 2),
        make_cap t.load_factor (entries_cap t * 2),
      )
      (omega (arith, valid.room))

-- What the doubling rehash inside an insertion gives.
grown_lem :
    (depth : ℕ) (t : Table)
    → IsValid t
    → (u : Table) × (rehash_with (hash_table_insert_impl depth) t (entries_cap t * 2) ≡ some u)
      × IsSound u
      × (u.load_factor ≡ t.load_factor)
      × (u.entries_count ≡ t.entries_count)
      × ((q : Bytes) → view u q ≡ view t q)
      × Fits 1 u
grown_lem depth t valid =
    let (u, run, sound, f, n, same, ready) =
      rehash_with_lem (hash_table_insert_impl depth)
        (λ n u. Fits n u × (entries_cap u ≡ entries_cap t * 2))
        (λ n u k v sound ready.
          let (u', run, sets, fits) = insert_within depth n u k v sound ready.0 in
          (u', run, sets.change, (fits, sets.same_cap ∙ ready.1)))
        t (entries_cap t * 2) valid.sound (omega (arith, valid.width))
        (start_Fits t valid, make_cap t.load_factor (entries_cap t * 2)) in
    (
      u,
      run,
      sound,
      f,
      n,
      same,
      rw (f, n, ready.1) (grow_bound _ _ _ _ valid.room valid.factor valid.width),
    )

full_not : (t : Table) → is_full t ≡ false → Fits 1 t
full_not t h = ground arith

-- An insertion into a well-formed table succeeds at depth two, returns the old value, or null, and
-- makes the key read as the new one.
pub hash_table_insert_impl_lem :
    (depth : ℕ) (t : Table) (k : Bytes) (v : Pointer)
    → IsValid t
    → (t' : Table) × (hash_table_insert_impl (suc depth) t k v ≡ some (get_or_null (view t k), t'))
      × Updates t k (some v) t'
unfolding hash_table_insert_impl
hash_table_insert_impl_lem depth t k v valid = elim (Bool-cases (is_full t)) [
  | inl full ↦
      let (u, run, sound, f, n, same, fits) = grown_lem depth t valid in
      let (t', placed, updates) = place_valid t u k v sound fits valid f n same in
      (t', rw (full, run) placed, updates)
  | inr room ↦
      let (t', placed, updates) =
        place_valid t t k v valid.sound (full_not t room) valid refl refl (λ q. refl) in
      (t', rw room placed, updates)
]

pub hash_table_insert_lem :
    (t : Table) (k : Bytes) (v : Pointer)
    → IsValid t
    → (t' : Table) × (hash_table_insert t k v ≡ some (get_or_null (view t k), t'))
      × Updates t k (some v) t'
unfolding hash_table_insert
hash_table_insert_lem = hash_table_insert_impl_lem 0

-- Only the capacity may differ.
pub record Rehashed (t u : Table) : Type 0 where
  pub valid : IsValid u
  pub same_count : u.entries_count ≡ t.entries_count
  pub reads : (q : Bytes) → view u q ≡ view t q

-- `hash_table_rehash` to any positive capacity succeeds and keeps the map; where the new capacity is
-- too small, the new table grows while it is filled.
pub hash_table_rehash_lem :
    (t : Table) (n : ℕ)
    → IsValid t
    → 0 < n
    → (u : Table) × (hash_table_rehash t n ≡ some u) × Rehashed t u
unfolding hash_table_rehash
hash_table_rehash_lem t n valid pos =
    let (u, run, sound, f, count, same, ready) =
      rehash_with_lem hash_table_insert (λ n u. IsValid u)
        (λ n u k v sound ready.
          let (u', ran, updates) = hash_table_insert_lem u k v ready in
          (u', ran, updates.change, updates.valid))
        t n valid.sound pos (make_hash_table-IsValid t.load_factor n pos valid.factor).0 in
    (u, run, record { valid = ready; same_count = count; reads = same })

pub hash_table_reserve_lem :
    (t : Table) (n : ℕ) → IsValid t → (u : Table) × (hash_table_reserve t n ≡ some u) × Rehashed t u
unfolding hash_table_reserve
hash_table_reserve_lem t n valid = hash_table_rehash_lem t _ valid (omega arith)
