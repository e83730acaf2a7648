-- ===== src/HashTable/Map.antt =====
-- The operations of vm/adt.c's hash table that leave its capacity alone, against the map that the
-- table stands for.
use b_jvm.Common.{
  ℕ, suc, ◌+◌, ◌-◌, ◌≤◌, ◌<◌, ◌≡◌, refl, arith, Bool, true, false, [], ◌∷◌, ◌++◌, Option, none,
  some, Bytes, mem_eq, mem_eq→eq, length, get_elem?, set, take, length-set, get_elem?-lt, ltb,
  if◌then◌else◌, ap, sym, ◌∙◌, subst, Bool-cases, inl, inr, ◌==◌, ◌||◌,
}
use native.Mathlib.Nat.{zero-add}
use b_jvm.HashTable.{
  Pointer, Entry, Slot, Table, entries_cap, has_key, home, find_in, unlink, find_hash_table_entry,
  hash_table_lookup, hash_table_contains, hash_table_delete, place,
}
use b_jvm.HashTable.Slot.{
  find, contains, occurs, keyed, index, assign, find_in_lem, get_elem?-index, find-eq-none,
  keyed-assign, keyed_pos, empty_found,
}
use b_jvm.HashTable.Invariant.{
  IsChain, IsSound, Sets, Writes, view, present, total-set, set-IsPlaced, view_slots-set,
}
use b_jvm.HashTable.Writes.{
  assign-Writes, link, link-Writes, unlink-Writes, take-link, last_entry, fresh,
}

abbrev pub get_or_null : Option Pointer → Pointer
get_or_null none = 0
get_or_null (some v) = v

abbrev pub is_some : Option Pointer → Bool
is_some none = false
is_some (some v) = true

find_in_root :
    (k : Bytes) (e : Entry) (r : Slot)
    → find_in k (e ∷ r) 0 ≡ (
        if contains k (e ∷ r)
        then record { equal = true; on_chain = ltb 0 (index k (e ∷ r)); depth = index k (e ∷ r) }
        else empty_found (length r))
find_in_root k e r = find_in_lem k e r 0 ∙ simp zero-add

find_in_hit :
    (k : Bytes) (s : Slot)
    → IsChain s
    → contains k s ≡ true
    → find_in k s 0 ≡ record { equal = true; on_chain = ltb 0 (index k s); depth = index k s }
find_in_hit k [] chain hit = absurd chain
find_in_hit k (e ∷ r) chain hit = find_in_root k e r ∙ rw hit

-- A walk that finds nothing ends at the last entry.
find_in_miss :
    (k : Bytes) (s : Slot)
    → IsChain s
    → contains k s ≡ false
    → (e : Entry) × (r : Slot) × (x : Entry) × (s ≡ e ∷ r)
      × (find_in k s 0 ≡ empty_found (length r))
      × (get_elem? s (length r) ≡ some x)
find_in_miss k [] chain miss = absurd chain
find_in_miss k (e ∷ r) chain miss =
    let (x, at) = last_entry e r in (e, r, x, refl, find_in_root k e r ∙ rw miss, at)

keyed_nil : keyed [] ≡ 0
unfolding keyed
keyed_nil = refl

module _ (t : Table) (sound : IsSound t) (k : Bytes) where
  abbrev at_home : ℕ
  at_home = home k (entries_cap t)

  -- The walk reaches a slot, which is that of the map's view.
  walk :
      (s : Slot) × (get_elem? t.entries at_home ≡ some s)
      × (find_hash_table_entry t k ≡ some (at_home, s, find_in k s 0))
      × (view t k ≡ find k s)
      × IsChain s
      × ((q : Bytes) → occurs q s ≤ 1)
  unfolding find_hash_table_entry view
  walk =
      let pos : 0 < entries_cap t = sound.width in
      let (s, here) = get_elem?-lt t.entries at_home (omega arith) in
      let some_slots : (entries_cap t == 0) ≡ false = ground arith in
      (
        s,
        here,
        rw (some_slots, here),
        rw here,
        (sound.placed k at_home s here).0,
        λ q. (sound.placed q at_home s here).1,
      )

  -- One write to the home slot.
  write_home :
      (v : Option Pointer) (s s' : Slot) (n : ℕ)
      → get_elem? t.entries at_home ≡ some s
      → view t k ≡ find k s
      → Writes k v s s'
      → keyed s' + present (find k s) ≡ keyed s + present v
      → n + present (find k s) ≡ t.entries_count + present v
      → Sets t k v (record t { entries = set t.entries at_home s'; entries_count = n })
  unfolding view
  write_home v s s' n here seen w entries counts = record {
    change = record {
      sound = record {
        width = omega (arith, length-set t.entries at_home s', sound.width);
        placed = set-IsPlaced t.entries k v s s' sound.placed here w sound.width;
        counted = omega (arith, total-set t.entries at_home s s' here, sound.counted);
      };
      same_factor = refl;
      reads = view_slots-set t.entries k v s s' sound.placed here w sound.width;
      count = rw seen counts;
    };
    same_cap = length-set t.entries at_home s';
  }

  some_counted :
      (s : Slot) → get_elem? t.entries at_home ≡ some s → contains k s ≡ true → 1 ≤ t.entries_count
  some_counted s here hit =
      omega
        (arith, total-set t.entries at_home s [] here, keyed_pos k s hit, sound.counted, keyed_nil)

  view_of_eq : (q : Bytes) → mem_eq k q ≡ true → view t q ≡ view t k
  view_of_eq q h = ap (λ x. view t x) (sym (mem_eq→eq k q h))

  nothing_to_delete : view t k ≡ none → Sets t k none t
  nothing_to_delete absent = record {
    change = record {
      sound = sound;
      same_factor = refl;
      reads = λ q. ground (arith, view_of_eq q);
      count = rw absent refl;
    };
    same_cap = refl;
  }

  -- `hash_table_lookup` returns what the map holds, or null.
  pub hash_table_lookup-view : hash_table_lookup t k ≡ some (get_or_null (view t k))
  unfolding hash_table_lookup
  hash_table_lookup-view =
      let (s, here, found, seen, chain, few) = walk in
      elim (Bool-cases (contains k s)) [
        | inl hit ↦
            let (e, at, value, h, sets, removes) = get_elem?-index k s hit in
            rw (found, find_in_hit k s chain hit, at, seen, value)
        | inr miss ↦
            let (e, r, x, shape, ends, at) = find_in_miss k s chain miss in
            rw (found, ends, at, seen, find-eq-none k s miss)
      ]

  -- `hash_table_contains` tells whether the map holds the key.
  pub hash_table_contains-view : hash_table_contains t k ≡ some (is_some (view t k))
  unfolding hash_table_contains
  hash_table_contains-view =
      let (s, here, found, seen, chain, few) = walk in
      elim (Bool-cases (contains k s)) [
        | inl hit ↦
            let (e, at, value, h, sets, removes) = get_elem?-index k s hit in
            rw (found, find_in_hit k s chain hit, seen, value)
        | inr miss ↦
            let (e, r, x, shape, ends, at) = find_in_miss k s chain miss in
            rw (found, ends, seen, find-eq-none k s miss)
      ]

  -- With room in the table, an insertion returns the old value and updates the map.
  pub place_lem :
      (v : Pointer)
      → (t' : Table) × (place t k v ≡ some (get_or_null (view t k), t')) × Sets t k (some v) t'
  unfolding place
  place_lem v =
      let (s, here, found, seen, chain, few) = walk in
      elim (Bool-cases (contains k s)) [
        | inl hit ↦
            let (e, at, value, h, sets, removes) = get_elem?-index k s hit in
            (
              _,
              rw (found, find_in_hit k s chain hit, at, seen, value, sets v),
              write_home (some v) s (assign k v s) t.entries_count here seen
                  (assign-Writes k s chain few v hit)
                  (rw value (ap (λ (n : ℕ). n + 1) (keyed-assign k v s))) (rw value),
            )
        | inr miss ↦
            let (e, r, x, shape, ends, at) = find_in_miss k s chain miss in
            let linked =
              ap
                (λ (l : Slot).
                  take (if ltb 0 (length r) || has_key x then suc (length r) else length r) l
                  ++ fresh k v ∷ [])
                shape
              ∙ take-link e r x (fresh k v) (subst (λ l. get_elem? l (length r) ≡ some x) shape at)
              ∙ ap (λ l. link l (fresh k v)) (sym shape) in
            let (w, one_more) = link-Writes k v s chain few miss in
            (
              _,
              rw (found, ends, at, seen, find-eq-none k s miss, linked),
              write_home (some v) s (link s (fresh k v)) (t.entries_count + 1) here seen w
                  (rw (find-eq-none k s miss) (omega arith))
                  (rw (find-eq-none k s miss) (omega arith)),
            )
      ]

  -- A deletion returns the old value and removes the key from the map.
  pub hash_table_delete_lem :
      (t' : Table) × (hash_table_delete t k ≡ some (get_or_null (view t k), t')) × Sets t k none t'
  unfolding hash_table_delete
  hash_table_delete_lem =
      let (s, here, found, seen, chain, few) = walk in
      elim (Bool-cases (contains k s)) [
        | inl hit ↦
            let (e, at, value, h, sets, removes) = get_elem?-index k s hit in
            let (w, one_less) = unlink-Writes k s chain few hit e at h removes in
            (
              _,
              rw (found, find_in_hit k s chain hit, at, seen, value),
              write_home none s (unlink s (index k s) e) (t.entries_count - 1) here seen w
                  (rw value (omega arith)) (rw value (omega (arith, some_counted s here hit))),
            )
        | inr miss ↦
            let (e, r, x, shape, ends, at) = find_in_miss k s chain miss in
            (
              t,
              rw (found, ends, at, seen, find-eq-none k s miss),
              nothing_to_delete (seen ∙ find-eq-none k s miss),
            )
      ]
