-- ===== src/HashTable/Slot.antt =====
-- One slot of vm/adt.c's hash table as an association list: what the walk of
-- `find_hash_table_entry` finds, and what the three writes to a slot do to it.
use b_jvm.Common.{
  ℕ, suc, ◌+◌, ◌≤◌, ◌≡◌, refl, arith, Bool, true, false, ◌&&◌, ◌||◌, [], ◌∷◌, ◌++◌, Option, none,
  some, Bytes, mem_eq, mem_eq→eq, mem_eq_congr, length, get_elem?, set, remove_at, ltb,
  if◌then◌else◌, ap, Bool-cases, inl, inr, sym,
}
use b_jvm.HashTable.{Pointer, Entry, Slot, holds, has_key, Found, find_in}

-- The value that stands first under a key.
unfoldable pub find : Bytes → Slot → Option Pointer
find q [] = none
find q (e ∷ r) = if holds q e then some e.value else find q r

unfoldable pub contains : Bytes → Slot → Bool
contains q [] = false
contains q (e ∷ r) = holds q e || contains q r

unfoldable pub occurs : Bytes → Slot → ℕ
occurs q [] = 0
occurs q (e ∷ r) = (if holds q e then 1 else 0) + occurs q r

unfoldable pub index : Bytes → Slot → ℕ
index q [] = 0
index q (e ∷ r) = if holds q e then 0 else suc (index q r)

unfoldable pub assign : Bytes → Pointer → Slot → Slot
assign k v [] = []
assign k v (e ∷ r) = if holds k e then record e { value = v } ∷ r else e ∷ assign k v r

unfoldable pub erase : Bytes → Slot → Slot
erase k [] = []
erase k (e ∷ r) = if holds k e then r else e ∷ erase k r

-- Entries with a key.
unfoldable pub keyed : Slot → ℕ
keyed [] = 0
keyed (e ∷ r) = (if has_key e then 1 else 0) + keyed r

abbrev pub empty_found : ℕ → Found
empty_found d = record { equal = false; on_chain = ltb 0 d; depth = d }

pub find_in_lem :
    (k : Bytes) (e : Entry) (r : Slot) (d : ℕ)
    → find_in k (e ∷ r) d ≡ (
        if contains k (e ∷ r)
        then record {
          equal = true;
          on_chain = ltb 0 (d + index k (e ∷ r));
          depth = d + index k (e ∷ r);
        }
        else empty_found (d + length r))
unfolding find_in contains index
find_in_lem k e [] d = ground arith
find_in_lem k e (n ∷ r) d = ground (arith, find_in_lem k n r (suc d))

module _ (k : Bytes) where
  pub get_elem?-index :
      (s : Slot)
      → contains k s ≡ true
      → (e : Entry) × (get_elem? s (index k s) ≡ some e)
        × (find k s ≡ some e.value)
        × (holds k e ≡ true)
        × ((v : Pointer) → set s (index k s) (record e { value = v }) ≡ assign k v s)
        × (remove_at s (index k s) ≡ erase k s)
  unfolding contains index find assign erase
  get_elem?-index [] h = cc
  get_elem?-index (e ∷ r) h = elim (Bool-cases (holds k e)) [
    | inl p ↦ rw p (e, refl, refl, p, (λ v. refl), refl)
    | inr p ↦
        let tail : contains k r ≡ true = ground arith in
        let (x, a, b, c, d, f) = get_elem?-index r tail in
        rw p (x, a, b, c, (λ v. ap (λ y. e ∷ y) (d v)), ap (λ y. e ∷ y) f)
  ]

  pub find-eq-none : (s : Slot) → contains k s ≡ false → find k s ≡ none
  unfolding contains find
  find-eq-none [] h = refl
  find-eq-none (e ∷ r) h = ground (arith, find-eq-none r)

  pub occurs-eq-zero : (s : Slot) → contains k s ≡ false → occurs k s ≡ 0
  unfolding contains occurs
  occurs-eq-zero [] h = refl
  occurs-eq-zero (e ∷ r) h = ground (arith, occurs-eq-zero r)

  pub contains-eq-false : (s : Slot) → occurs k s ≡ 0 → contains k s ≡ false
  unfolding contains occurs
  contains-eq-false [] h = refl
  contains-eq-false (e ∷ r) h = ground (arith, contains-eq-false r)

  pub occurs_pos : (s : Slot) → contains k s ≡ true → 1 ≤ occurs k s
  unfolding contains occurs
  occurs_pos [] h = cc
  occurs_pos (e ∷ r) h = ground (arith, occurs_pos r)

  pub keyed_pos : (s : Slot) → contains k s ≡ true → 1 ≤ keyed s
  unfolding contains keyed
  keyed_pos [] h = cc
  keyed_pos (e ∷ r) h = ground (arith, keyed_pos r)

  -- Which entries hold `q` is known where `k` is held, or where the two keys are equal.
  pub holds_congr : (q : Bytes) (e : Entry) → holds k e ≡ true → holds q e ≡ mem_eq k q
  holds_congr q e h = go e.key h
    where
      go :
          (o : Option Bytes)
          → elim o [ none ↦ false | some k' ↦ mem_eq k' k ] ≡ true
          → elim o [ none ↦ false | some k' ↦ mem_eq k' q ] ≡ mem_eq k q
      go none p = cc
      go (some k') p = mem_eq_congr k' k q p

  pub holds_of_eq : (q : Bytes) (e : Entry) → mem_eq k q ≡ true → holds q e ≡ holds k e
  holds_of_eq q e h = ap (λ x. holds x e) (sym (mem_eq→eq k q h))

  module _ (q : Bytes) where
    pub find-assign :
        (v : Pointer) (s : Slot)
        → find q (assign k v s) ≡ (if mem_eq k q && contains k s then some v else find q s)
    unfolding find assign contains
    find-assign v [] = ground arith
    find-assign v (e ∷ r) = ground (arith, find-assign v r, holds_congr q e, holds_of_eq q e)

    pub occurs-assign : (v : Pointer) (s : Slot) → occurs q (assign k v s) ≡ occurs q s
    unfolding occurs assign
    occurs-assign v [] = refl
    occurs-assign v (e ∷ r) = ground (arith, occurs-assign v r)

pub find_of_occurs : (q : Bytes) (s : Slot) → occurs q s ≡ 0 → find q s ≡ none
find_of_occurs q s h = find-eq-none q s (contains-eq-false q s h)

module _ (k q : Bytes) where
  pub find-erase :
      (s : Slot) → occurs q s ≤ 1 → find q (erase k s) ≡ (if mem_eq k q then none else find q s)
  unfolding find erase occurs
  find-erase [] h = ground arith
  find-erase (e ∷ r) h =
      ground (arith, find-erase r, holds_congr k q e, holds_of_eq k q e, find_of_occurs q r)

  pub occurs-erase-le : (s : Slot) → occurs q (erase k s) ≤ occurs q s
  unfolding occurs erase
  occurs-erase-le [] = omega arith
  occurs-erase-le (e ∷ r) = ground (arith, occurs-erase-le r)

pub keyed-assign : (k : Bytes) (v : Pointer) (s : Slot) → keyed (assign k v s) ≡ keyed s
unfolding keyed assign
keyed-assign k v [] = refl
keyed-assign k v (e ∷ r) = ground (arith, keyed-assign k v r)

pub keyed-erase : (k : Bytes) (s : Slot) → contains k s ≡ true → keyed (erase k s) + 1 ≡ keyed s
unfolding keyed erase contains
keyed-erase k [] h = cc
keyed-erase k (e ∷ r) h = ground (arith, keyed-erase k r)

pub keyed-append : (a b : Slot) → keyed (a ++ b) ≡ keyed a + keyed b
unfolding keyed
keyed-append [] b = omega arith
keyed-append (e ∷ a) b = omega (arith, keyed-append a b)

pub occurs-append : (q : Bytes) (a b : Slot) → occurs q (a ++ b) ≡ occurs q a + occurs q b
unfolding occurs
occurs-append q [] b = omega arith
occurs-append q (e ∷ a) b = omega (arith, occurs-append q a b)

pub find-append :
    (q : Bytes) (a b : Slot) → find q (a ++ b) ≡ (if contains q a then find q a else find q b)
unfolding find contains
find-append q [] b = refl
find-append q (e ∷ a) b = ground (arith, find-append q a b)

pub contains-append : (q : Bytes) (a b : Slot) → contains q (a ++ b) ≡ contains q a || contains q b
unfolding contains
contains-append q [] b = refl
contains-append q (e ∷ a) b = ground (arith, contains-append q a b)
