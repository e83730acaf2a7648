-- ===== src/HashTable.antt =====
-- vm/adt.c, `string_hash_table`: separate chaining over an array of inline root entries. A slot is
-- the linked list that starts at its root; a root with a null key stands alone. `none` is a step
-- that C leaves undefined (a read through a null pointer, or of the unset `equal`).
-- The allocator and the ownership of the key buffers are left out.
mod Hash
pub mod Slot
pub mod Invariant
pub mod Writes
pub mod Map
pub mod Grow
pub mod Iteration
pub mod Rehash
pub mod Insert
pub mod Laws
mod Tests
unfoldable pub use Hash.{fxhash_string}
use b_jvm.Common.{
  ℕ, zero, suc, ◌+◌, ◌-◌, ◌*◌, ◌/◌, ◌%◌, Bool, true, false, ◌&&◌, ◌||◌, not, List, [], ◌∷◌, ◌++◌,
  Option, none, some, ◌>>=◌, Bytes, mem_eq, length, get_elem?, set, take, replicate, remove_at, leb,
  ltb, ◌==◌, if◌then◌else◌,
}

-- A pointer stored as a value; 0 is `nullptr`.
abbrev pub Pointer : Type 0
Pointer = ℕ

pub record Entry : Type 0 where
  pub key : Option Bytes
  pub value : Pointer

abbrev pub Slot : Type 0
Slot = List Entry

-- The load factor is the fraction `num / den`, exact for the 0.75 that every caller passes.
pub record LoadFactor : Type 0 where
  pub num : ℕ
  pub den : ℕ

pub record Table : Type 0 where
  pub entries : List Slot
  pub entries_count : ℕ
  pub load_factor : LoadFactor

abbrev pub empty_entry : Entry
empty_entry = record { key = none; value = 0 }

abbrev pub entries_cap : Table → ℕ
entries_cap t = length t.entries

unfoldable pub make_hash_table : LoadFactor → ℕ → Table
make_hash_table load_factor initial_capacity = record {
  entries = replicate initial_capacity (empty_entry ∷ []);
  entries_count = 0;
  load_factor = load_factor;
}

abbrev pub has_key : Entry → Bool
has_key e = elim e.key [ none ↦ false | some k ↦ true ]

-- `ent->key && ent->key_len == len && memcmp(ent->key, key, len) == 0`
abbrev pub holds : Bytes → Entry → Bool
holds k e = elim e.key [ none ↦ false | some k' ↦ mem_eq k' k ]

pub record Found : Type 0 where
  pub equal : Bool
  pub on_chain : Bool
  -- how many links from the root the returned entry stands
  pub depth : ℕ

-- The walk of `find_hash_table_entry` along one slot, `d` links from its root.
unfoldable pub find_in : Bytes → Slot → ℕ → Found
find_in k [] d = record { equal = false; on_chain = true; depth = d - 1 }
find_in k (e ∷ []) d =
    if holds k e
    then record { equal = true; on_chain = ltb 0 d; depth = d }
    else record { equal = false; on_chain = ltb 0 d; depth = d }
find_in k (e ∷ n ∷ r) d =
    if holds k e
    then record { equal = true; on_chain = ltb 0 d; depth = d }
    else find_in k (n ∷ r) (suc d)

abbrev pub home : Bytes → ℕ → ℕ
home k cap = fxhash_string k % cap

-- The slot's index and contents, and where in it the walk ends.
unfoldable pub find_hash_table_entry : Table → Bytes → Option (ℕ × Slot × Found)
find_hash_table_entry t k = if entries_cap t == 0 then none else do
  s ← get_elem? t.entries (home k (entries_cap t))
  some (home k (entries_cap t), s, find_in k s 0)

unfoldable pub hash_table_lookup : Table → Bytes → Option Pointer
hash_table_lookup t k = do
  (i, s, f) ← find_hash_table_entry t k
  e ← get_elem? s f.depth
  some (if f.equal then e.value else 0)

unfoldable pub hash_table_contains : Table → Bytes → Option Bool
hash_table_contains t k = do (i, s, f) ← find_hash_table_entry t k; some f.equal

-- The slot after the entry at depth `d` is unlinked: a chain entry is freed, a root takes over its
-- successor, a lone root loses its key.
unfoldable pub unlink : Slot → ℕ → Entry → Slot
unlink s d e = if ltb 0 d || ltb 1 (length s) then remove_at s d else record e { key = none } ∷ []

unfoldable pub hash_table_delete : Table → Bytes → Option (Pointer × Table)
hash_table_delete t k = do
  (i, s, f) ← find_hash_table_entry t k
  e ← get_elem? s f.depth
  some (
      if f.equal
      then (
        e.value,
        record t {
          entries = set t.entries i (unlink s f.depth e);
          entries_count = t.entries_count - 1;
        },
      )
      else (0, t))

-- The end of `hash_table_insert_impl`, once the table has room.
unfoldable pub place : Table → Bytes → Pointer → Option (Pointer × Table)
place t k v = do
  (i, s, f) ← find_hash_table_entry t k
  e ← get_elem? s f.depth
  let fresh : Entry = record { key = some k; value = v }
  let kept = if f.on_chain || has_key e then suc f.depth else f.depth
  some (
      if f.equal
      then (
        e.value,
        record t { entries = set t.entries i (set s f.depth (record e { value = v })) },
      )
      else (
        0,
        record t {
          entries = set t.entries i (take kept s ++ fresh ∷ []);
          entries_count = t.entries_count + 1;
        },
      ))

-- `(double)entries_count + 1 >= load_factor * (double)entries_cap`
abbrev pub is_full : Table → Bool
is_full t = leb (t.load_factor.num * entries_cap t) ((t.entries_count + 1) * t.load_factor.den)
