-- ===== src/HashTable/Rehash.antt =====
-- `hash_table_rehash` and `hash_table_insert_impl` of vm/adt.c call one another. A rehash moves every
-- entry for any insertion that succeeds on the tables it meets; the depth of the calls is two at most.
use b_jvm.Common.{
  ℕ, zero, suc, ◌+◌, ◌*◌, ◌≤◌, ◌<◌, ◌≡◌, refl, arith, true, false, List, [], ◌∷◌, Option, none,
  some, Bytes, mem_eq, mem_eq_refl, length, get_elem?, replicate, length-replicate, if◌then◌else◌,
  sym, ◌∙◌, subst,
}
use b_jvm.HashTable.{
  Pointer, Entry, Slot, Table, LoadFactor, entries_cap, has_key, holds, home, empty_entry,
  make_hash_table, is_full,
}
use b_jvm.HashTable.Slot.{find, contains, occurs, keyed, contains-eq-false, find-eq-none}
use b_jvm.HashTable.Invariant.{AllKeyed, IsSound, Changes, Sets, total, view, find_at, present}
use b_jvm.HashTable.Map.{get_or_null, place_lem}
use b_jvm.HashTable.Grow.{Insert, reinsert, rehash_with, hash_table_insert_impl}
use b_jvm.HashTable.Iteration.{
  live_entries, all_entries-live_entries, length-live_entries, AllKeyed-live_entries,
  live_entries-view,
}

get_elem?-replicate : (n i : ℕ) (a s : Slot) → get_elem? (replicate n a) i ≡ some s → s ≡ a
get_elem?-replicate zero i a s h = cc
get_elem?-replicate (suc n) zero a s h = cc
get_elem?-replicate (suc n) (suc i) a s h = get_elem?-replicate n i a s h

total-replicate : (n : ℕ) → total (replicate n (empty_entry ∷ [])) ≡ 0
unfolding total keyed
total-replicate zero = refl
total-replicate (suc n) = omega (arith, total-replicate n)

occurs_empty : (q : Bytes) → occurs q (empty_entry ∷ []) ≡ 0
unfolding occurs
occurs_empty q = refl

-- A new table is sound and holds nothing.
pub make_hash_table-IsSound : (f : LoadFactor) (n : ℕ) → 0 < n → IsSound (make_hash_table f n)
unfolding make_hash_table
make_hash_table-IsSound f n pos = record {
  width = omega (arith, length-replicate n (empty_entry ∷ []));
  placed = λ q i s h.
      let empty = get_elem?-replicate n i (empty_entry ∷ []) s h in
      rw (empty, occurs_empty q) (tt, omega arith, λ far. refl);
  counted = sym (total-replicate n);
}

pub make_hash_table-view :
    (f : LoadFactor) (n : ℕ) (q : Bytes) → view (make_hash_table f n) q ≡ none
unfolding view make_hash_table find
make_hash_table-view f n q = go (get_elem? slots i) refl
  where
    slots : List Slot
    slots = replicate n (empty_entry ∷ [])

    i : ℕ
    i = home q (length slots)

    go : (o : Option Slot) → get_elem? slots i ≡ o → find_at o q ≡ none
    go none h = refl
    go (some s) h = rw (get_elem?-replicate n i (empty_entry ∷ []) s h)

-- What a run of insertions into `u` leads to.
pub record Moved (es : List Entry) (u u' : Table) : Type 0 where
  pub sound : IsSound u'
  pub same_factor : u'.load_factor ≡ u.load_factor
  pub count : u'.entries_count ≡ u.entries_count + length es
  pub reads : (q : Bytes) → view u' q ≡ (if contains q es then find q es else view u q)

abbrev NoClash : List Entry → Table → Type 0
NoClash es u = (q : Bytes) → occurs q es + present (view u q) ≤ 1

key_of : (e : Entry) → has_key e ≡ true → (k : Bytes) × (e.key ≡ some k)
key_of e h = ground arith

holds_key : (k q : Bytes) (e : Entry) → e.key ≡ some k → holds q e ≡ mem_eq k q
holds_key k q e h = rw h

reinsert-cons :
    (ins : Insert) (e : Entry) (es : List Entry) (u : Table) {k : Bytes} {p : Pointer × Table}
    → e.key ≡ some k
    → ins u k e.value ≡ some p
    → reinsert ins (e ∷ es) u ≡ reinsert ins es p.1
unfolding reinsert
reinsert-cons ins e es u key first = rw (key, first)

pub fresh_count : (f : LoadFactor) (n : ℕ) → (make_hash_table f n).entries_count ≡ 0
unfolding make_hash_table
fresh_count f n = refl

read_back :
    (t : Table)
    → IsSound t
    → (q : Bytes) {r : Option Pointer}
    → r ≡ (if contains q (live_entries t.entries) then find q (live_entries t.entries) else none)
    → r ≡ view t q
read_back t sound q h =
    ground (arith, (live_entries-view t sound q).0, find-eq-none q (live_entries t.entries))

module _ (ins : Insert) (Ready : ℕ → Table → Type 0)
    (step : (n : ℕ) (u : Table) (k : Bytes) (v : Pointer)
      → IsSound u
      → Ready (suc n) u
      → (u' : Table) × (ins u k v ≡ some (get_or_null (view u k), u'))
        × Changes u k (some v) u'
        × Ready n u') where
  pub reinsert_lem :
      (es : List Entry) (u : Table)
      → IsSound u
      → AllKeyed es
      → NoClash es u
      → Ready (length es) u
      → (u' : Table) × (reinsert ins es u ≡ some u') × Moved es u u' × Ready 0 u'
  unfolding reinsert contains find occurs
  reinsert_lem [] u sound keys apart ready = (
    u,
    refl,
    record { sound = sound; same_factor = refl; count = omega arith; reads = λ q. refl },
    ready,
  )
  reinsert_lem (e ∷ es) u sound keys apart ready =
      let (k, key) = key_of e keys.0 in
      let (u1, first, one, ready1) = step (length es) u k e.value sound ready in
      let same = λ (q : Bytes). holds_key k q e key in
      let apart1 : NoClash es u1 = λ q. rw (one.reads q) (ground (arith, apart q, same q)) in
      let (u', rest, moved, ready') = reinsert_lem es u1 one.sound keys.1 apart1 ready1 in
      (
        u',
        reinsert-cons ins e es u key first ∙ rest,
        record {
          sound = moved.sound;
          same_factor = moved.same_factor ∙ one.same_factor;
          count = ground (arith, moved.count, one.count, apart k, same k, mem_eq_refl k);
          reads = λ q.
              ground (arith, moved.reads q, one.reads q, same q, apart q, contains-eq-false q es);
        },
        ready',
      )

  -- A rehash keeps the map, whatever the old table's load.
  pub rehash_with_lem :
      (t : Table) (n : ℕ)
      → IsSound t
      → 0 < n
      → Ready t.entries_count (make_hash_table t.load_factor n)
      → (u : Table) × (rehash_with ins t n ≡ some u)
        × IsSound u
        × (u.load_factor ≡ t.load_factor)
        × (u.entries_count ≡ t.entries_count)
        × ((q : Bytes) → view u q ≡ view t q)
        × Ready 0 u
  unfolding rehash_with
  rehash_with_lem t n sound pos ready =
      let start = make_hash_table t.load_factor n in
      let es = live_entries t.entries in
      let chains =
        λ (i : ℕ) (s : Slot) (h : get_elem? t.entries i ≡ some s). (sound.placed [] i s h).0 in
      let many : length es ≡ t.entries_count =
        length-live_entries t.entries chains ∙ sym sound.counted in
      let clear = make_hash_table-view t.load_factor n in
      let apart : NoClash es start =
        λ q. rw (clear q) (omega (arith, (live_entries-view t sound q).1)) in
      let (u, run, moved, ready') =
        reinsert_lem es start (make_hash_table-IsSound t.load_factor n pos)
          (AllKeyed-live_entries t.entries chains) apart
          (subst (λ (m : ℕ). Ready m start) (sym many) ready) in
      (
        u,
        rw (all_entries-live_entries t) run,
        moved.sound,
        moved.same_factor,
        moved.count ∙ omega (arith, many, fresh_count t.load_factor n),
        λ q. read_back t sound q (moved.reads q ∙ rw (clear q)),
        ready',
      )

present-le : (o : Option Pointer) → present o ≤ 1
present-le none = omega arith
present-le (some v) = omega arith

pub mul_le : (a b d : ℕ) → a ≤ b → a * d ≤ b * d
mul_le a b d h = grind arith

abbrev pub Fits : ℕ → Table → Type 0
Fits n u = (u.entries_count + n) * u.load_factor.den < u.load_factor.num * entries_cap u

pub not_full : (n : ℕ) (u : Table) → Fits (suc n) u → is_full u ≡ false
not_full n u h =
    ground (
      arith,
      mul_le (u.entries_count + 1) (u.entries_count + suc n) u.load_factor.den (omega arith),
    )

pub Fits-Sets :
    (n : ℕ) (u u' : Table) {k : Bytes} {v : Option Pointer}
    → Sets u k v u'
    → Fits (suc n) u
    → Fits n u'
Fits-Sets n u u' {k} {v} sets fits =
    let less : u'.entries_count + n ≤ u.entries_count + suc n =
      omega (arith, sets.count, present-le v) in
    rw (sets.same_factor, sets.same_cap) (omega (arith, fits, mul_le _ _ u.load_factor.den less))

-- While the load stays below the load factor an insertion does not grow the table.
pub insert_within :
    (depth n : ℕ) (u : Table) (k : Bytes) (v : Pointer)
    → IsSound u
    → Fits (suc n) u
    → (u' : Table) × (hash_table_insert_impl depth u k v ≡ some (get_or_null (view u k), u'))
      × Sets u k (some v) u'
      × Fits n u'
unfolding hash_table_insert_impl
insert_within zero n u k v sound fits =
    let (u', run, sets) = place_lem u sound k v in
    (u', rw (not_full n u fits) run, sets, Fits-Sets n u u' sets fits)
insert_within (suc depth) n u k v sound fits =
    let (u', run, sets) = place_lem u sound k v in
    (u', rw (not_full n u fits) run, sets, Fits-Sets n u u' sets fits)
