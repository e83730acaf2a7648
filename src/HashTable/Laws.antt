-- ===== src/HashTable/Laws.antt =====
-- vm/adt.c's hash table as a whole: runs of its operations, against a map from byte strings to
-- pointers.
use b_jvm.Common.{
  ℕ, ◌+◌, ◌*◌, ◌≤◌, ◌<◌, ◌≡◌, refl, arith, Bool, true, false, List, [], ◌∷◌, Option, none, some,
  Bytes, mem_eq, length, if◌then◌else◌, sym, ◌∙◌, ◌>>=◌,
}
use b_jvm.HashTable.{
  Pointer, Table, LoadFactor, make_hash_table, hash_table_lookup, hash_table_contains,
  hash_table_delete,
}
use b_jvm.HashTable.Slot.{find, occurs}
use b_jvm.HashTable.Invariant.{IsValid, view}
use b_jvm.HashTable.Map.{
  get_or_null, is_some, hash_table_lookup-view, hash_table_contains-view, hash_table_delete_lem,
}
use b_jvm.HashTable.Grow.{all_entries, hash_table_insert, hash_table_rehash, hash_table_reserve}
use b_jvm.HashTable.Iteration.{all_entries-live_entries, length-live_entries, live_entries-view}
use b_jvm.HashTable.Rehash.{mul_le}
use b_jvm.HashTable.Insert.{
  Updates, hash_table_insert_lem, hash_table_rehash_lem, hash_table_reserve_lem,
  make_hash_table-IsValid,
}

-- A deletion from a well-formed table returns the old value, or null, and the key is gone.
pub hash_table_delete-Updates :
    (t : Table) (k : Bytes)
    → IsValid t
    → (t' : Table) × (hash_table_delete t k ≡ some (get_or_null (view t k), t'))
      × Updates t k none t'
hash_table_delete-Updates t k valid =
    let (t', run, sets) = hash_table_delete_lem t valid.sound k in
    let less : t'.entries_count ≤ t.entries_count = omega (arith, sets.count) in
    (
      t',
      run,
      record {
        change = sets.change;
        valid = record {
          sound = sets.sound;
          room =
              rw (sets.same_factor, sets.same_cap)
                (omega (arith, valid.room, mul_le _ _ t.load_factor.den less));
          factor = rw sets.same_factor valid.factor;
        };
      },
    )

-- A loop over the iterator of a well-formed table sees each key once, with its value, and as many
-- entries as the table counts.
pub all_entries-view :
    (t : Table)
    → IsValid t
    → (length (all_entries t) ≡ t.entries_count)
      × ((q : Bytes) → (find q (all_entries t) ≡ view t q) × (occurs q (all_entries t) ≤ 1))
all_entries-view t valid = rw (all_entries-live_entries t) (
  length-live_entries t.entries (λ i s h. (valid.placed [] i s h).0) ∙ sym valid.counted,
  live_entries-view t valid.sound,
)

pub data Op : Type 0 where
  insert : Bytes → Pointer → Op
  delete : Bytes → Op
  lookup : Bytes → Op
  contains : Bytes → Op
  rehash : ℕ → Op
  reserve : ℕ → Op

-- Every operation answers by one number: a pointer, or 1 for true and 0 for false.
abbrev pub to_number : Bool → ℕ
to_number true = 1
to_number false = 0

-- `none` in place of the replies: some step was undefined. A capacity of 0 is never asked for.
unfoldable pub step : Op → Table → Option (ℕ × Table)
step (insert k v) t = hash_table_insert t k v
step (delete k) t = hash_table_delete t k
step (lookup k) t = hash_table_lookup t k >>= λ v. some (v, t)
step (contains k) t = hash_table_contains t k >>= λ b. some (to_number b, t)
step (rehash n) t = hash_table_rehash t (n + 1) >>= λ u. some (0, u)
step (reserve n) t = hash_table_reserve t n >>= λ u. some (0, u)

unfoldable pub run : List Op → Table → Option (List ℕ)
run [] t = some []
run (o ∷ os) t = step o t >>= λ p. run os p.1 >>= λ replies. some (p.0 ∷ replies)

abbrev pub Map : Type 0
Map = Bytes → Option Pointer

abbrev pub update : Map → Bytes → Option Pointer → Map
update m k v q = if mem_eq k q then v else m q

unfoldable pub map_step : Op → Map → ℕ × Map
map_step (insert k v) m = (get_or_null (m k), update m k (some v))
map_step (delete k) m = (get_or_null (m k), update m k none)
map_step (lookup k) m = (get_or_null (m k), m)
map_step (contains k) m = (to_number (is_some (m k)), m)
map_step (rehash n) m = (0, m)
map_step (reserve n) m = (0, m)

unfoldable pub map_run : List Op → Map → List ℕ
map_run [] m = []
map_run (o ∷ os) m = (map_step o m).0 ∷ map_run os (map_step o m).1

abbrev Refines : Table → Map → Type 0
Refines t m = IsValid t × ((q : Bytes) → view t q ≡ m q)

step_lem :
    (o : Op) (t : Table) (m : Map)
    → Refines t m
    → (t' : Table) × (step o t ≡ some ((map_step o m).0, t')) × Refines t' (map_step o m).1
unfolding step map_step
step_lem (insert k v) t m (valid, same) =
    let (t', ran, u) = hash_table_insert_lem t k v valid in
    (t', ran ∙ rw (same k), (u.valid, λ q. u.reads q ∙ rw (same q)))
step_lem (delete k) t m (valid, same) =
    let (t', ran, u) = hash_table_delete-Updates t k valid in
    (t', ran ∙ rw (same k), (u.valid, λ q. u.reads q ∙ rw (same q)))
step_lem (lookup k) t m (valid, same) =
    (t, rw (hash_table_lookup-view t valid.sound k, same k), (valid, same))
step_lem (contains k) t m (valid, same) =
    (t, rw (hash_table_contains-view t valid.sound k, same k), (valid, same))
step_lem (rehash n) t m (valid, same) =
    let (u, ran, r) = hash_table_rehash_lem t (n + 1) valid (omega arith) in
    (u, rw ran, (r.valid, λ q. r.reads q ∙ same q))
step_lem (reserve n) t m (valid, same) =
    let (u, ran, r) = hash_table_reserve_lem t n valid in
    (u, rw ran, (r.valid, λ q. r.reads q ∙ same q))

run_lem : (os : List Op) (t : Table) (m : Map) → Refines t m → run os t ≡ some (map_run os m)
unfolding run map_run
run_lem [] t m r = refl
run_lem (o ∷ os) t m r = let (t', ran, r') = step_lem o t m r in rw (ran, run_lem os t' _ r')

-- Any run of insertions, deletions, lookups, membership tests, rehashes and reservations on a new
-- table of positive capacity, with a load factor above one half, is defined throughout and answers
-- as the empty map does.
pub run-map_run :
    (f : LoadFactor) (n : ℕ) (os : List Op)
    → 0 < n
    → f.den < 2 * f.num
    → run os (make_hash_table f n) ≡ some (map_run os (λ q. none))
run-map_run f n os pos half =
    run_lem os (make_hash_table f n) (λ q. none) (make_hash_table-IsValid f n pos half)
