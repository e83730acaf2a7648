-- ===== src/HashTable/Invariant.antt =====
-- When a table of vm/adt.c is well formed, the map that it stands for, and what a write to the home
-- slot of one key does to both.
use b_jvm.Common.{
  ℕ, zero, suc, ◌+◌, ◌*◌, ◌≤◌, ◌<◌, ◌≡◌, ◌≢◌, arith, true, false, List, [], ◌∷◌, Option, none, some,
  Bytes, mem_eq, mem_eq→eq, length, get_elem?, set, length-set, get_elem?-set_self,
  get_elem?-set_ne, if◌then◌else◌, ap, sym, ◌∙◌, All, Bool-cases, inl, inr,
}
use native.Mathlib.Decide.{ℕ_discrete}
use b_jvm.HashTable.{Pointer, Slot, Table, entries_cap, has_key, home}
use b_jvm.HashTable.Slot.{find, occurs, keyed}

abbrev pub AllKeyed : Slot → Type 0
AllKeyed s = All (λ e. has_key e ≡ true) s

-- A lone root may be empty; on a longer list every entry has a key.
abbrev pub IsChain : Slot → Type 0
IsChain [] = ⊥
IsChain (e ∷ []) = Unit
IsChain (e ∷ n ∷ r) = AllKeyed (e ∷ n ∷ r)

unfoldable pub total : List Slot → ℕ
total [] = 0
total (s ∷ ss) = keyed s + total ss

abbrev pub IsPlaced : List Slot → Type 0
IsPlaced ss =
    (q : Bytes) (i : ℕ) (s : Slot)
    → get_elem? ss i ≡ some s
    → IsChain s × (occurs q s ≤ 1) × (home q (length ss) ≢ i → occurs q s ≡ 0)

-- Every entry is where the walk looks for it, and `entries_count` counts them.
pub record IsSound (t : Table) : Type 0 where
  pub width : 0 < entries_cap t
  pub placed : IsPlaced t.entries
  pub counted : t.entries_count ≡ total t.entries

-- Between two operations the load stays below the load factor.
pub record IsValid (t : Table) : Type 0 where
  pub sound : IsSound t
  pub open sound use *
  pub room : t.entries_count * t.load_factor.den < t.load_factor.num * entries_cap t
  pub factor : t.load_factor.den < 2 * t.load_factor.num

abbrev pub find_at : Option Slot → Bytes → Option Pointer
find_at none q = none
find_at (some s) q = find q s

unfoldable pub view_slots : List Slot → Bytes → Option Pointer
view_slots ss q = find_at (get_elem? ss (home q (length ss))) q

-- The map that a table stands for.
unfoldable pub view : Table → Bytes → Option Pointer
unfolding view_slots
view t q = view_slots t.entries q

abbrev pub present : Option Pointer → ℕ
present none = 0
present (some v) = 1

-- An operation has made `k` read as `v`, and every other key reads as before.
pub record Changes (t : Table) (k : Bytes) (v : Option Pointer) (t' : Table) : Type 0 where
  pub sound : IsSound t'
  pub same_factor : t'.load_factor ≡ t.load_factor
  pub reads : (q : Bytes) → view t' q ≡ (if mem_eq k q then v else view t q)
  pub count : t'.entries_count + present (view t k) ≡ t.entries_count + present v

-- It has done so in place.
pub record Sets (t : Table) (k : Bytes) (v : Option Pointer) (t' : Table) : Type 0 where
  pub change : Changes t k v t'
  pub open change use *
  pub same_cap : entries_cap t' ≡ entries_cap t

-- What a write does to the home slot of `k`: `k` now reads as `v`.
pub record Writes (k : Bytes) (v : Option Pointer) (s s' : Slot) : Type 0 where
  pub chain : IsChain s'
  pub finds : (q : Bytes) → find q s' ≡ (if mem_eq k q then v else find q s)
  pub few : (q : Bytes) → occurs q s' ≤ 1
  pub only : (q : Bytes) → mem_eq k q ≡ false → occurs q s ≡ 0 → occurs q s' ≡ 0

pub total-set :
    (ss : List Slot) (i : ℕ) (s s' : Slot)
    → get_elem? ss i ≡ some s
    → total (set ss i s') + keyed s ≡ total ss + keyed s'
unfolding total
total-set [] i s s' h = cc
total-set (x ∷ ss) zero s s' h = ground arith
total-set (x ∷ ss) (suc i) s s' h = omega (arith, total-set ss i s s' h)

module _ (ss : List Slot) (k : Bytes) (v : Option Pointer) (s s' : Slot) (placed : IsPlaced ss)
    (here : get_elem? ss (home k (length ss)) ≡ some s) (w : Writes k v s s')
    (pos : 0 < length ss) where
  abbrev at_home : ℕ
  at_home = home k (length ss)

  home_of_eq : (q : Bytes) → mem_eq k q ≡ true → home q (length ss) ≡ home k (length ss)
  home_of_eq q h = ap (λ x. home x (length ss)) (sym (mem_eq→eq k q h))

  at_home-lt : home k (length ss) < length ss
  at_home-lt = omega arith

  far_from_home : (q : Bytes) → home q (length ss) ≢ home k (length ss) → occurs q s' ≡ 0
  far_from_home q far = elim (Bool-cases (mem_eq k q)) [
    | inl same ↦ absurd (far (home_of_eq q same))
    | inr other ↦ w.only q other ((placed q at_home s here).2 far)
  ]

  -- A write at home keeps every entry in its place.
  pub set-IsPlaced : IsPlaced (set ss (home k (length ss)) s')
  set-IsPlaced q i x h = rw (length-set ss at_home s') (elim (ℕ_discrete at_home i) [
    | yes e ↦
        let got : x ≡ s' = cc (h, e, get_elem?-set_self ss at_home s' at_home-lt) in
        rw got (w.chain, w.few q, λ far. far_from_home q (λ p. far (p ∙ e)))
    | no n ↦ placed q i x (sym (get_elem?-set_ne ss at_home i s' n) ∙ h)
  ])

  -- After it the key reads as the new value, and every other key as before.
  pub view_slots-set :
      (q : Bytes)
      → view_slots (set ss (home k (length ss)) s') q ≡ (if mem_eq k q then v else view_slots ss q)
  unfolding view_slots
  view_slots-set q =
      rw (view_slots, length-set ss at_home s')
        (elim (ℕ_discrete at_home (home q (length ss))) [
          | yes e ↦
              let read =
                ap (λ (j : ℕ). get_elem? (set ss at_home s') j) (sym e)
                ∙ get_elem?-set_self ss at_home s' at_home-lt in
              let before = ap (λ (j : ℕ). get_elem? ss j) (sym e) ∙ here in
              rw (read, before) (w.finds q)
          | no n ↦ elim (Bool-cases (mem_eq k q)) [
            | inl same ↦ absurd (n (sym (home_of_eq q same)))
            | inr other ↦ rw (other, get_elem?-set_ne ss at_home _ s' n)
          ]
        ])
