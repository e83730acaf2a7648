-- ===== src/HashTable/Grow.antt =====
-- vm/adt.c: the iterator over a hash table, `hash_table_rehash`, `hash_table_insert_impl`,
-- `hash_table_reserve` and `free_hash_table`. A C pointer into the array of roots, or into a linked
-- list, is the part of the array or of the list from there on; at the end nothing is left.
use b_jvm.Common.{
  ℕ, zero, suc, ◌+◌, ◌*◌, ◌/◌, Bool, true, false, not, List, [], ◌∷◌, Option, none, some, ◌>>=◌,
  Bytes, length, if◌then◌else◌, map,
}
use b_jvm.HashTable.{
  Pointer, Entry, Slot, Table, entries_cap, has_key, make_hash_table, is_full, place,
}

pub record Iterator : Type 0 where
  pub current_base : List Slot
  pub current : Slot

abbrev pub root_is_null : Slot → Bool
root_is_null [] = true
root_is_null (e ∷ r) = not (has_key e)

-- `while (current_base < end && current_base->key == nullptr) current_base++`
unfoldable pub skip_empty : List Slot → List Slot
skip_empty [] = []
skip_empty (s ∷ ss) = if root_is_null s then skip_empty ss else s ∷ ss

unfoldable pub at_base : List Slot → Iterator
at_base [] = record { current_base = []; current = [] }
at_base (s ∷ ss) = record { current_base = s ∷ ss; current = s }

unfoldable pub hash_table_get_iterator : Table → Iterator
unfolding skip_empty at_base
hash_table_get_iterator t = at_base (skip_empty t.entries)

-- The entry that the iterator stands at, unless it is at the end.
unfoldable pub hash_table_iterator_has_next : Iterator → Option Entry
hash_table_iterator_has_next it = elim it.current [ [] ↦ none | e ∷ r ↦ some e ]

advance : List Slot → Slot → Iterator × Bool
unfolding skip_empty at_base
advance [] c = (record { current_base = []; current = c }, false)
advance (s ∷ ss) (e ∷ n ∷ r) = (record { current_base = s ∷ ss; current = n ∷ r }, true)
advance (s ∷ ss) c = let base = skip_empty ss in (at_base base, elim base [ [] ↦ false | _ ↦ true ])

unfoldable pub hash_table_iterator_next : Iterator → Iterator × Bool
unfolding advance
hash_table_iterator_next it = advance it.current_base it.current

-- What a loop `while (has_next(it)) { …; next(&it); }` sees, in at most the given number of rounds.
unfoldable pub walk_entries : ℕ → Iterator → List Entry
walk_entries zero it = []
walk_entries (suc n) it = elim (hash_table_iterator_has_next it) [
  | none ↦ []
  | some e ↦ e ∷ walk_entries n (hash_table_iterator_next it).0
]

unfoldable pub node_count : List Slot → ℕ
node_count [] = 0
node_count (s ∷ ss) = length s + node_count ss

-- As many rounds as there are entries, used or not.
unfoldable pub all_entries : Table → List Entry
unfolding node_count walk_entries hash_table_get_iterator
all_entries t = walk_entries (node_count t.entries) (hash_table_get_iterator t)

abbrev pub Insert : Type 0
Insert = Table → Bytes → Pointer → Option (Pointer × Table)

-- The loop of `hash_table_rehash`; a null key never occurs in it.
unfoldable pub reinsert : Insert → List Entry → Table → Option Table
reinsert ins [] t = some t
reinsert ins (e ∷ es) t = elim e.key [
  | none ↦ none
  | some k ↦ ins t k e.value >>= λ p. reinsert ins es p.1
]

unfoldable pub rehash_with : Insert → Table → ℕ → Option Table
unfolding all_entries reinsert make_hash_table
rehash_with ins t new_capacity =
    reinsert ins (all_entries t) (make_hash_table t.load_factor new_capacity)

-- The number bounds how deep `hash_table_insert_impl` and `hash_table_rehash` call one another.
unfoldable pub hash_table_insert_impl : ℕ → Insert
unfolding rehash_with place
hash_table_insert_impl zero t k v = if is_full t then none else place t k v
hash_table_insert_impl (suc depth) t k v =
    (if is_full t then rehash_with (hash_table_insert_impl depth) t (entries_cap t * 2) else some t)
    >>= λ t'. place t' k v

unfoldable pub hash_table_insert : Insert
unfolding hash_table_insert_impl
hash_table_insert = hash_table_insert_impl 1

unfoldable pub hash_table_rehash : Table → ℕ → Option Table
unfolding hash_table_insert
hash_table_rehash = rehash_with hash_table_insert

-- `(size_t)((double)new_capacity * load_factor) + 2`
unfoldable pub hash_table_reserve : Table → ℕ → Option Table
unfolding hash_table_rehash
hash_table_reserve t new_capacity =
    hash_table_rehash t (new_capacity * t.load_factor.num / t.load_factor.den + 2)

-- The values that `free_hash_table` hands to the table's `free`, in order.
unfoldable pub free_hash_table : Table → List Pointer
unfolding all_entries
free_hash_table t = map (λ (e : Entry). e.value) (all_entries t)
