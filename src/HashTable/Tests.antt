-- ===== src/HashTable/Tests.antt =====
-- vm/adt.c's hash table on small inputs: runs of the code, and the theorems at them.
use b_jvm.Common.{ℕ, ◌≤◌, ◌≡◌, refl, arith, List, [], ◌∷◌, none, some, bytes, mem_eq, length}
use b_jvm.HashTable.{
  Table, LoadFactor, make_hash_table, hash_table_contains, hash_table_lookup, hash_table_delete,
  find_in, find_hash_table_entry, unlink, fxhash_string,
}
use b_jvm.HashTable.Slot.{find, occurs}
use b_jvm.HashTable.Invariant.{IsValid, view}
use b_jvm.HashTable.Map.{get_or_null}
use b_jvm.HashTable.Grow.{
  all_entries, hash_table_insert, hash_table_rehash, hash_table_reserve,
  hash_table_iterator_has_next, hash_table_iterator_next,
}
use b_jvm.HashTable.Insert.{
  Updates, Rehashed, hash_table_insert_lem, hash_table_rehash_lem, make_hash_table-IsValid,
}
use b_jvm.HashTable.Laws.{
  Op, insert, delete, lookup, contains, rehash, reserve, step, run, map_run, run-map_run,
  hash_table_delete-Updates, all_entries-view,
}

abbrev three_quarters : LoadFactor
three_quarters = record { num = 3; den = 4 }

abbrev small : Table
small = make_hash_table three_quarters 1

small-IsValid : IsValid small
small-IsValid = (make_hash_table-IsValid three_quarters 1 (omega arith) (omega arith)).0

-- The table after one insertion, which has made it grow.
abbrev filled : Table
filled = (hash_table_insert_lem small (bytes "main") 5 small-IsValid).0

filled-IsValid : IsValid filled
filled-IsValid = (hash_table_insert_lem small (bytes "main") 5 small-IsValid).2.valid

abbrev script : List Op
script =
    insert (bytes "java/lang/Object") 7
    ∷ insert (bytes "java/lang/String") 8
    ∷ insert (bytes "java/lang/Object") 9
    ∷ lookup (bytes "java/lang/Object")
    ∷ reserve 2
    ∷ delete (bytes "java/lang/String")
    ∷ contains (bytes "java/lang/String")
    ∷ rehash 0
    ∷ lookup (bytes "java/lang/Object")
    ∷ []

script_runs : run script small ≡ some (0 ∷ 0 ∷ 7 ∷ 9 ∷ 0 ∷ 8 ∷ 0 ∷ 0 ∷ 9 ∷ [])
unfolding run step hash_table_iterator_has_next hash_table_iterator_next mem_eq make_hash_table
    hash_table_reserve hash_table_delete hash_table_lookup find_in find_hash_table_entry unlink
    fxhash_string hash_table_contains
script_runs = refl

run-map_run_example : run script small ≡ some (map_run script (λ q. none))
run-map_run_example = run-map_run three_quarters 1 script (omega arith) (omega arith)

hash_table_insert_lem_example :
    (t' : Table) × (hash_table_insert filled (bytes "main") 5
      ≡ some (get_or_null (view filled (bytes "main")), t'))
    × Updates filled (bytes "main") (some 5) t'
hash_table_insert_lem_example = hash_table_insert_lem filled (bytes "main") 5 filled-IsValid

hash_table_delete-Updates_example :
    (t' : Table) × (hash_table_delete filled (bytes "main")
      ≡ some (get_or_null (view filled (bytes "main")), t'))
    × Updates filled (bytes "main") none t'
hash_table_delete-Updates_example = hash_table_delete-Updates filled (bytes "main") filled-IsValid

hash_table_rehash_lem_example :
    (u : Table) × (hash_table_rehash filled 8 ≡ some u) × Rehashed filled u
hash_table_rehash_lem_example = hash_table_rehash_lem filled 8 filled-IsValid (omega arith)

all_entries-view_example :
    (length (all_entries filled) ≡ filled.entries_count)
    × ((q : List ℕ)
        → (find q (all_entries filled) ≡ view filled q) × (occurs q (all_entries filled) ≤ 1))
all_entries-view_example = all_entries-view filled filled-IsValid
