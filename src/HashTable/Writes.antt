-- ===== src/HashTable/Writes.antt =====
-- The three writes of vm/adt.c to one slot: overwriting a value, linking a new entry at the end of
-- the walk, and unlinking the entry that was found.
use b_jvm.Common.{
  suc, ◌+◌, ◌≤◌, ◌<◌, ◌≡◌, refl, arith, true, false, ◌||◌, [], ◌∷◌, ◌++◌, none, some, Bytes, mem_eq,
  mem_eq→eq, length, get_elem?, take, remove_at, ltb, if◌then◌else◌, ap, sym, ◌∙◌, Bool-cases, inl,
  inr, length-append,
}
use b_jvm.HashTable.{Pointer, Entry, Slot, has_key, holds, unlink}
use b_jvm.HashTable.Slot.{
  find, contains, occurs, keyed, assign, erase, index, find-assign, occurs-assign, find-erase,
  occurs-erase-le, keyed-erase, occurs-append, find-append, keyed-append, occurs-eq-zero,
  find-eq-none, holds_congr,
}
use b_jvm.HashTable.Invariant.{AllKeyed, IsChain, Writes}

AllKeyed-assign : (k : Bytes) (v : Pointer) (s : Slot) → AllKeyed s → AllKeyed (assign k v s)
unfolding assign
AllKeyed-assign k v [] h = tt
AllKeyed-assign k v (e ∷ r) h = elim (Bool-cases (holds k e)) [
  | inl p ↦ rw p h
  | inr p ↦ rw p (h.0, AllKeyed-assign k v r h.1)
]

AllKeyed-erase : (k : Bytes) (s : Slot) → AllKeyed s → AllKeyed (erase k s)
unfolding erase
AllKeyed-erase k [] h = tt
AllKeyed-erase k (e ∷ r) h = elim (Bool-cases (holds k e)) [
  | inl p ↦ rw p h.1
  | inr p ↦ rw p (h.0, AllKeyed-erase k r h.1)
]

pub AllKeyed-append : (a b : Slot) → AllKeyed a → AllKeyed b → AllKeyed (a ++ b)
AllKeyed-append [] b h h' = h'
AllKeyed-append (e ∷ a) b h h' = (h.0, AllKeyed-append a b h.1 h')

IsChain-of_keyed : (s : Slot) → 0 < length s → AllKeyed s → IsChain s
IsChain-of_keyed [] p h = absurd (omega arith)
IsChain-of_keyed (e ∷ []) p h = tt
IsChain-of_keyed (e ∷ n ∷ r) p h = h

length-assign : (k : Bytes) (v : Pointer) (s : Slot) → length (assign k v s) ≡ length s
unfolding assign
length-assign k v [] = refl
length-assign k v (e ∷ r) = ground (arith, length-assign k v r)

length-erase : (k : Bytes) (s : Slot) → contains k s ≡ true → length (erase k s) + 1 ≡ length s
unfolding erase contains
length-erase k [] h = cc
length-erase k (e ∷ r) h = ground (arith, length-erase k r)

IsChain-assign : (k : Bytes) (v : Pointer) (s : Slot) → IsChain s → IsChain (assign k v s)
unfolding assign
IsChain-assign k v [] h = absurd h
IsChain-assign k v (e ∷ []) h = elim (Bool-cases (holds k e)) [ inl p ↦ rw p tt | inr p ↦ rw p tt ]
IsChain-assign k v (e ∷ n ∷ r) h =
    IsChain-of_keyed _ (omega (arith, length-assign k v (e ∷ n ∷ r)))
      (AllKeyed-assign k v (e ∷ n ∷ r) h)

module _ (k : Bytes) (s : Slot) (chain : IsChain s) (few : (q : Bytes) → occurs q s ≤ 1) where
  -- `ent->data = value`
  pub assign-Writes : (v : Pointer) → contains k s ≡ true → Writes k (some v) s (assign k v s)
  assign-Writes v h = record {
    chain = IsChain-assign k v s chain;
    finds = λ q. ground (arith, find-assign k q v s);
    few = λ q. rw (occurs-assign k q v s) (few q);
    only = λ q other zeros. occurs-assign k q v s ∙ zeros;
  }

-- Where the new entry goes: into an empty root, or after the last entry.
unfoldable pub link : Slot → Entry → Slot
link [] f = f ∷ []
link (e ∷ []) f = if has_key e then e ∷ f ∷ [] else f ∷ []
link (e ∷ n ∷ r) f = e ∷ n ∷ r ++ f ∷ []

pub last_entry : (e : Entry) (r : Slot) → (x : Entry) × (get_elem? (e ∷ r) (length r) ≡ some x)
last_entry e [] = (e, refl)
last_entry e (n ∷ r) = last_entry n r

take_all : (e : Entry) (r : Slot) → take (suc (length r)) (e ∷ r) ≡ e ∷ r
take_all e [] = refl
take_all e (n ∷ r) = ap (λ l. e ∷ l) (take_all n r)

-- The depth that a miss returns is that of the last entry.
pub take-link :
    (e : Entry) (r : Slot) (x f : Entry)
    → get_elem? (e ∷ r) (length r) ≡ some x
    → take (if ltb 0 (length r) || has_key x then suc (length r) else length r) (e ∷ r) ++ f ∷ []
      ≡ link (e ∷ r) f
unfolding link
take-link e [] x f h =
    let same : e ≡ x = cc in
    elim (Bool-cases (has_key e)) [ inl p ↦ rw (← same, p) | inr p ↦ rw (← same, p) ]
take-link e (n ∷ r) x f h =
    let long : ltb 0 (suc (length r)) ≡ true = ground arith in
    rw long (ap (λ l. l ++ f ∷ []) (take_all e (n ∷ r)))

contains_of_eq : (k q : Bytes) (s : Slot) → mem_eq k q ≡ true → contains q s ≡ contains k s
contains_of_eq k q s h = ap (λ x. contains x s) (sym (mem_eq→eq k q h))

unheld : (q : Bytes) (e : Entry) → has_key e ≡ false → holds q e ≡ false
unheld q e p = ground arith

module _ (k : Bytes) (v : Pointer) where
  abbrev pub fresh : Entry
  fresh = record { key = some k; value = v }

  -- A miss on a slot that keeps all its entries.
  append-Writes :
      (s : Slot)
      → AllKeyed s
      → ((q : Bytes) → occurs q s ≤ 1)
      → contains k s ≡ false
      → Writes k (some v) s (s ++ fresh ∷ [])
  unfolding find occurs
  append-Writes s keys few miss = record {
    chain =
        IsChain-of_keyed _ (omega (arith, length-append s (fresh ∷ [])))
          (AllKeyed-append s (fresh ∷ []) keys (refl, tt));
    finds = λ q.
        rw (find-append q s (fresh ∷ []))
          (ground (arith, contains_of_eq k q s, find-eq-none q s, miss));
    few = λ q.
        rw (occurs-append q s (fresh ∷ []))
          (ground (arith, contains_of_eq k q s, occurs-eq-zero q s, few q, miss));
    only = λ q other zeros. rw (occurs-append q s (fresh ∷ [])) (ground (arith));
  }

  into_empty : (e : Entry) → has_key e ≡ false → Writes k (some v) (e ∷ []) (fresh ∷ [])
  unfolding find occurs
  into_empty e p = record {
    chain = tt;
    finds = λ q. ground (arith, unheld q e);
    few = λ q. ground arith;
    only = λ q other zeros. ground arith;
  }

  keyed_into_empty : (e : Entry) → has_key e ≡ false → keyed (fresh ∷ []) ≡ keyed (e ∷ []) + 1
  unfolding keyed
  keyed_into_empty e p = ground arith

  keyed-fresh : keyed (fresh ∷ []) ≡ 1
  unfolding keyed
  keyed-fresh = refl

  pub link-Writes :
      (s : Slot)
      → IsChain s
      → ((q : Bytes) → occurs q s ≤ 1)
      → contains k s ≡ false
      → Writes k (some v) s (link s fresh) × (keyed (link s fresh) ≡ keyed s + 1)
  unfolding link
  link-Writes [] chain few miss = absurd chain
  link-Writes (e ∷ []) chain few miss = elim (Bool-cases (has_key e)) [
    | inl p ↦ rw p (
      append-Writes (e ∷ []) (p, tt) few miss,
      omega (arith, keyed-append (e ∷ []) (fresh ∷ []), keyed-fresh),
    )
    | inr p ↦ rw p (into_empty e p, keyed_into_empty e p)
  ]
  link-Writes (e ∷ n ∷ r) chain few miss = (
    append-Writes (e ∷ n ∷ r) chain few miss,
    omega (arith, keyed-append (e ∷ n ∷ r) (fresh ∷ []), keyed-fresh),
  )

-- `hash_table_delete` on a hit.
module _ (k : Bytes) where
  emptied : (e : Entry) → holds k e ≡ true → Writes k none (e ∷ []) (record e { key = none } ∷ [])
  unfolding find occurs
  emptied e h = record {
    chain = tt;
    finds = λ q. ground (arith, holds_congr k q e h);
    few = λ q. omega arith;
    only = λ q other zeros. refl;
  }

  erase-Writes :
      (s : Slot)
      → ((q : Bytes) → occurs q s ≤ 1)
      → IsChain (erase k s)
      → Writes k none s (erase k s)
  erase-Writes s few c = record {
    chain = c;
    finds = λ q. find-erase k q s (few q);
    few = λ q. omega (arith, occurs-erase-le k q s, few q);
    only = λ q other zeros. omega (arith, occurs-erase-le k q s);
  }

held : (q : Bytes) (e : Entry) → holds q e ≡ true → has_key e ≡ true
held q e p = ground arith

keyed_emptied :
    (k : Bytes) (e : Entry)
    → holds k e ≡ true
    → keyed (record e { key = none } ∷ []) + 1 ≡ keyed (e ∷ [])
unfolding keyed
keyed_emptied k e h = rw (held k e h)

pub unlink-Writes :
    (k : Bytes) (s : Slot)
    → IsChain s
    → ((q : Bytes) → occurs q s ≤ 1)
    → contains k s ≡ true
    → (e : Entry) → get_elem? s (index k s) ≡ some e
    → holds k e ≡ true
    → remove_at s (index k s) ≡ erase k s
    → Writes k none s (unlink s (index k s) e) × (keyed (unlink s (index k s) e) + 1 ≡ keyed s)
unfolding unlink index contains
unlink-Writes k [] chain few hit e at h rest = absurd chain
unlink-Writes k (x ∷ []) chain few hit e at h rest =
    let root : holds k x ≡ true = ground arith in
    let same : x ≡ e = ground arith in rw (root, same) (emptied k e h, keyed_emptied k e h)
unlink-Writes k (x ∷ n ∷ r) chain few hit e at h rest =
    let s = x ∷ n ∷ r in
    let long : ltb 1 (suc (suc (length r))) ≡ true = ground arith in
    let whole : (ltb 0 (index k s) || ltb 1 (length s)) ≡ true = ground arith in
    rw (whole, rest)
      (
        erase-Writes k s few
            (IsChain-of_keyed _ (omega (arith, length-erase k s hit)) (AllKeyed-erase k s chain)),
        keyed-erase k s hit,
      )
