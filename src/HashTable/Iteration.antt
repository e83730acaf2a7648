-- ===== src/HashTable/Iteration.antt =====
-- The iterator of vm/adt.c, slot by slot.
use Prim.Native.Nat.add
use b_jvm.Common.{
  ℕ, zero, suc, ◌+◌, ◌-◌, ◌≤◌, ◌≡◌, refl, arith, true, false, List, [], ◌∷◌, ◌++◌, Option, none,
  some, Bytes, length, if◌then◌else◌, ap, sym, ◌∙◌, Bool-cases, inl, inr, get_elem?, length-append,
  get_elem?-lt, ◌≢◌,
}
use b_jvm.HashTable.{Entry, Slot, Table, entries_cap, has_key, home}
use b_jvm.HashTable.Slot.{
  find, occurs, keyed, find-append, occurs-append, find-eq-none, find_of_occurs, contains-eq-false,
}
use b_jvm.HashTable.Invariant.{AllKeyed, IsChain, IsSound, total, find_at, view}
use b_jvm.HashTable.Writes.{AllKeyed-append}
use b_jvm.HashTable.Grow.{
  root_is_null, skip_empty, at_base, walk_entries, node_count, hash_table_iterator_has_next,
  hash_table_iterator_next, all_entries,
}

-- The entries with a key, in the order of the slots.
unfoldable pub live_entries : List Slot → List Entry
live_entries [] = []
live_entries (s ∷ ss) = if root_is_null s then live_entries ss else s ++ live_entries ss

walk_chain :
    (s : Slot) (ss : List Slot) (e : Entry) (r : Slot) (n : ℕ)
    → walk_entries (suc (length r + n)) (record { current_base = s ∷ ss; current = e ∷ r })
      ≡ (e ∷ r) ++ walk_entries n (at_base (skip_empty ss))
unfolding walk_entries hash_table_iterator_has_next hash_table_iterator_next
walk_chain s ss e [] n = rw (add.zero n)
walk_chain s ss e (x ∷ r) n = rw (add.suc (length r) n) (ap (λ l. e ∷ l) (walk_chain s ss x r n))

walk_end : (n : ℕ) → walk_entries n (record { current_base = []; current = [] }) ≡ []
unfolding walk_entries hash_table_iterator_has_next
walk_end zero = refl
walk_end (suc n) = refl

-- With as many rounds as there are nodes the walk sees every entry with a key, once.
walk_slots :
    (ss : List Slot) (n : ℕ)
    → node_count ss ≤ n
    → walk_entries n (at_base (skip_empty ss)) ≡ live_entries ss
unfolding skip_empty at_base live_entries node_count
walk_slots [] n h = walk_end n
walk_slots ([] ∷ ss) n h = walk_slots ss n (omega arith)
walk_slots ((e ∷ r) ∷ ss) n h = elim (Bool-cases (has_key e)) [
  | inr null ↦ rw null (walk_slots ss n (omega arith))
  | inl key ↦
      let rest = n - suc (length r) in
      let rounds : n ≡ suc (length r + rest) = omega arith in
      rw (key, rounds)
        (walk_chain (e ∷ r) ss e r rest ∙ ap (λ l. (e ∷ r) ++ l) (walk_slots ss rest (omega arith)))
]

pub all_entries-live_entries : (t : Table) → all_entries t ≡ live_entries t.entries
unfolding all_entries
all_entries-live_entries t = walk_slots t.entries (node_count t.entries) (omega arith)

null_slot : (q : Bytes) (s : Slot) → IsChain s → root_is_null s ≡ true → occurs q s ≡ 0
unfolding occurs
null_slot q [] chain null = refl
null_slot q (e ∷ []) chain null = ground arith
null_slot q (e ∷ n ∷ r) chain null = let key : has_key e ≡ true = chain.0 in ground arith

keyed_null : (s : Slot) → IsChain s → root_is_null s ≡ true → keyed s ≡ 0
unfolding keyed
keyed_null [] chain null = refl
keyed_null (e ∷ []) chain null = ground arith
keyed_null (e ∷ n ∷ r) chain null = let key : has_key e ≡ true = chain.0 in ground arith

AllKeyed-slot : (s : Slot) → IsChain s → root_is_null s ≡ false → AllKeyed s
AllKeyed-slot [] chain key = absurd chain
AllKeyed-slot (e ∷ []) chain key = (ground arith, tt)
AllKeyed-slot (e ∷ n ∷ r) chain key = chain

keyed_all : (s : Slot) → AllKeyed s → keyed s ≡ length s
unfolding keyed
keyed_all [] h = refl
keyed_all (e ∷ r) h = rw h.0 (omega (arith, keyed_all r h.1))

abbrev Chains : List Slot → Type 0
Chains ss = (i : ℕ) (s : Slot) → get_elem? ss i ≡ some s → IsChain s

pub length-live_entries : (ss : List Slot) → Chains ss → length (live_entries ss) ≡ total ss
unfolding live_entries total
length-live_entries [] chains = refl
length-live_entries (s ∷ ss) chains =
    let rest = length-live_entries ss (λ i x h. chains (suc i) x h) in
    let here = chains 0 s refl in
    elim (Bool-cases (root_is_null s)) [
      | inl null ↦ rw null (omega (arith, rest, keyed_null s here null))
      | inr key ↦
          rw (key, length-append s (live_entries ss), keyed_all s (AllKeyed-slot s here key), rest)
    ]

pub AllKeyed-live_entries : (ss : List Slot) → Chains ss → AllKeyed (live_entries ss)
unfolding live_entries
AllKeyed-live_entries [] chains = tt
AllKeyed-live_entries (s ∷ ss) chains =
    let rest = AllKeyed-live_entries ss (λ i x h. chains (suc i) x h) in
    elim (Bool-cases (root_is_null s)) [
      | inl null ↦ rw null rest
      | inr key ↦
          rw key (AllKeyed-append s (live_entries ss) (AllKeyed-slot s (chains 0 s refl) key) rest)
    ]

live_nowhere :
    (q : Bytes) (ss : List Slot)
    → ((i : ℕ) (s : Slot) → get_elem? ss i ≡ some s → occurs q s ≡ 0)
    → occurs q (live_entries ss) ≡ 0
unfolding live_entries occurs
live_nowhere q [] none_at = refl
live_nowhere q (s ∷ ss) none_at =
    let rest = live_nowhere q ss (λ i x h. none_at (suc i) x h) in
    elim (Bool-cases (root_is_null s)) [
      | inl null ↦ rw null rest
      | inr key ↦
          rw (key, occurs-append q s (live_entries ss)) (omega (arith, rest, none_at 0 s refl))
    ]

abbrev occurs_at : Option Slot → Bytes → ℕ
occurs_at none q = 0
occurs_at (some s) q = occurs q s

-- A key that occurs in slot `j` only is found among all the entries as in that slot.
live_only :
    (q : Bytes) (ss : List Slot) (j : ℕ)
    → Chains ss
    → ((i : ℕ) (s : Slot) → get_elem? ss i ≡ some s → j ≢ i → occurs q s ≡ 0)
    → (find q (live_entries ss) ≡ find_at (get_elem? ss j) q)
      × (occurs q (live_entries ss) ≡ occurs_at (get_elem? ss j) q)
unfolding live_entries occurs find
live_only q [] j chains far = (refl, refl)
live_only q (s ∷ ss) zero chains far =
    let rest = live_nowhere q ss (λ i x h. far (suc i) x h (omega arith)) in
    let absent = find_of_occurs q (live_entries ss) rest in
    elim (Bool-cases (root_is_null s)) [
      | inl null ↦
          let zeros = null_slot q s (chains 0 s refl) null in
          rw null (absent ∙ sym (find_of_occurs q s zeros), rest ∙ sym zeros)
      | inr key ↦
          rw (key, find-append q s (live_entries ss), occurs-append q s (live_entries ss))
            (ground (arith, find-eq-none q s, rest, absent), omega (arith, rest))
    ]
live_only q (s ∷ ss) (suc j) chains far =
    let zeros = far 0 s refl (omega arith) in
    let (found, counted) =
      live_only q ss j (λ i x h. chains (suc i) x h) (λ i x h n. far (suc i) x h (omega arith)) in
    elim (Bool-cases (root_is_null s)) [
      | inl null ↦ rw null (found, counted)
      | inr key ↦
          rw
            (
              key,
              find-append q s (live_entries ss),
              occurs-append q s (live_entries ss),
              contains-eq-false q s zeros,
            )
            (found, omega arith)
    ]

-- What an iteration over a sound table shows of it.
pub live_entries-view :
    (t : Table)
    → IsSound t
    → (q : Bytes)
    → (find q (live_entries t.entries) ≡ view t q) × (occurs q (live_entries t.entries) ≤ 1)
unfolding view
live_entries-view t sound q =
    let home_q = home q (entries_cap t) in
    let (found, counted) =
      live_only q t.entries home_q (λ i s h. (sound.placed q i s h).0)
        (λ i s h n. (sound.placed q i s h).2 n) in
    let (s, here) = get_elem?-lt t.entries home_q (omega (arith, sound.width)) in
    (found, rw (counted, here) (sound.placed q home_q s here).1)
