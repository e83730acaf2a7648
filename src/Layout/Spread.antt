-- ===== src/Layout/Spread.antt =====
-- vm/linkage.c: how the fields of a class lie in its static bytes and in those of an instance.
use mathlib.Core.List.{Perm}
use mathlib.Core.List.Perm
use b_jvm.Common.{
  ℕ, suc, ◌+◌, ◌%◌, ◌≤◌, ◌≡◌, refl, ap, Bool, true, false, not, subst, List, [], ◌∷◌, ◌++◌, some,
  ◌==◌, All, arith, Bool-cases, inl, inr,
}
use b_jvm.Descriptor.{TypeKind}
use b_jvm.Layout.{
  Field, Placed, Offsets, sizeof_type_kind, allocate_field, placed_at, region, place_field,
  place_fields, numbered, bucket, reorder_fields_for_compactness, layout,
}
use b_jvm.Layout.Reorder.{is_void, reorder_fields_for_compactness-Perm}

-- A place for a field of a kind, from `current` to `next`.
record IsPlace (k : TypeKind) (current offset next : ℕ) : Type 0 where
  above : current ≤ offset
  aligned : offset % sizeof_type_kind k ≡ 0
  ends : next ≡ offset + sizeof_type_kind k

allocate_field_lem :
    (current : ℕ) (k : TypeKind)
    → is_void k ≡ false
    → (offset : ℕ) × (next : ℕ) × (allocate_field current k ≡ some (offset, next))
      × IsPlace k current offset next
unfolding allocate_field
allocate_field_lem c TypeKind.boolean h =
    (c, c + 1, refl, record { above = omega arith; aligned = omega arith; ends = refl })
allocate_field_lem c TypeKind.byte h =
    (c, c + 1, refl, record { above = omega arith; aligned = omega arith; ends = refl })
allocate_field_lem c TypeKind.char h =
    (_, _, refl, record { above = omega arith; aligned = omega arith; ends = refl })
allocate_field_lem c TypeKind.short h =
    (_, _, refl, record { above = omega arith; aligned = omega arith; ends = refl })
allocate_field_lem c TypeKind.float h =
    (_, _, refl, record { above = omega arith; aligned = omega arith; ends = refl })
allocate_field_lem c TypeKind.int h =
    (_, _, refl, record { above = omega arith; aligned = omega arith; ends = refl })
allocate_field_lem c TypeKind.double h =
    (_, _, refl, record { above = omega arith; aligned = omega arith; ends = refl })
allocate_field_lem c TypeKind.long h =
    (_, _, refl, record { above = omega arith; aligned = omega arith; ends = refl })
allocate_field_lem c TypeKind.reference h =
    (_, _, refl, record { above = omega arith; aligned = omega arith; ends = refl })
allocate_field_lem c TypeKind.void h = cc

-- The fields of one region, static or not, from `low` to `high`: each begins where the one before it
-- has ended, or after that, at a multiple of its size.
pub data IsSpread (st : Bool) : ℕ → List Placed → ℕ → Type 0 where
  nil : {low high : ℕ} → low ≤ high → IsSpread st low [] high
  here :
      {low high : ℕ} {p : Placed} {ps : List Placed}
      → p.field.is_static ≡ st
      → low ≤ p.byte_offset
      → p.byte_offset % sizeof_type_kind p.field.kind ≡ 0
      → IsSpread st (p.byte_offset + sizeof_type_kind p.field.kind) ps high
      → IsSpread st low (p ∷ ps) high
  there :
      {low high : ℕ} {p : Placed} {ps : List Placed}
      → p.field.is_static ≡ not st
      → IsSpread st low ps high
      → IsSpread st low (p ∷ ps) high

IsSpread-cons :
    (b st : Bool) (i : ℕ) (k : TypeKind) (at : Offsets) (offset next : ℕ) (ps : List Placed)
    (high : ℕ)
    → IsPlace k (region b at) offset next
    → let r = placed_at at (i, record { kind = k; is_static = b }) (offset, next) in
      IsSpread st (region st r.1) ps high → IsSpread st (region st at) (r.0 ∷ ps) high
unfolding placed_at
IsSpread-cons true true i k at offset next ps high place rest =
    IsSpread.here refl place.above place.aligned
      (subst (λ n. IsSpread true n ps high) place.ends rest)
IsSpread-cons true false i k at offset next ps high place rest = IsSpread.there refl rest
IsSpread-cons false true i k at offset next ps high place rest = IsSpread.there refl rest
IsSpread-cons false false i k at offset next ps high place rest =
    IsSpread.here refl place.above place.aligned
      (subst (λ n. IsSpread false n ps high) place.ends rest)

abbrev pub numbers : List Placed → List (ℕ × Field)
numbers [] = []
numbers (p ∷ ps) = (p.index, p.field) ∷ numbers ps

pub place_fields_lem :
    (at : Offsets) (fs : List (ℕ × Field))
    → All (λ (f : ℕ × Field). is_void f.1.kind ≡ false) fs
    → (ps : List Placed) × (last : Offsets) × (place_fields at fs ≡ some (ps, last))
      × ((st : Bool) → IsSpread st (region st at) ps (region st last))
      × (numbers ps ≡ fs)
unfolding place_fields place_field
place_fields_lem at [] h = ([], at, refl, (λ st. IsSpread.nil (omega arith)), refl)
place_fields_lem at (f ∷ fs) h =
    let (offset, next, found, place) = allocate_field_lem (region f.1.is_static at) f.1.kind h.0 in
    let r = placed_at at f (offset, next) in
    let (ps, last, ran, spread, same) = place_fields_lem r.1 fs h.1 in
    (
      r.0 ∷ ps,
      last,
      rw (found, ran) refl,
      (λ st.
          IsSpread-cons f.1.is_static st f.0 f.1.kind at offset next ps (region st last) place
            (spread st)),
      ap (λ l. f ∷ l) same,
    )

All-append :
    (xs ys : List (ℕ × Field))
    → All (λ (f : ℕ × Field). is_void f.1.kind ≡ false) xs
    → All (λ (f : ℕ × Field). is_void f.1.kind ≡ false) ys
    → All (λ (f : ℕ × Field). is_void f.1.kind ≡ false) (xs ++ ys)
All-append [] ys h k = k
All-append (x ∷ xs) ys h k = (h.0, All-append xs ys h.1 k)

All-bucket :
    (size : ℕ) (fs : List (ℕ × Field))
    → All (λ (f : ℕ × Field). is_void f.1.kind ≡ false) fs
    → All (λ (f : ℕ × Field). is_void f.1.kind ≡ false) (bucket size fs)
unfolding bucket
All-bucket size [] h = tt
All-bucket size (f ∷ fs) h = elim (Bool-cases (sizeof_type_kind f.1.kind == size)) [
  | inl hit ↦ rw hit (h.0, All-bucket size fs h.1)
  | inr miss ↦ rw miss (All-bucket size fs h.1)
]

All-reorder :
    (fs : List (ℕ × Field))
    → All (λ (f : ℕ × Field). is_void f.1.kind ≡ false) fs
    → All (λ (f : ℕ × Field). is_void f.1.kind ≡ false) (reorder_fields_for_compactness fs)
unfolding reorder_fields_for_compactness
All-reorder fs h = All-append (bucket 8 fs) _ (All-bucket 8 fs h) (
    All-append (bucket 4 fs) _ (All-bucket 4 fs h)
      (All-append (bucket 2 fs) _ (All-bucket 2 fs h) (All-bucket 1 fs h)))

All-numbered :
    (i : ℕ) (fs : List Field)
    → All (λ (f : Field). is_void f.kind ≡ false) fs
    → All (λ (f : ℕ × Field). is_void f.1.kind ≡ false) (numbered i fs)
All-numbered i [] h = tt
All-numbered i (f ∷ fs) h = (h.0, All-numbered (suc i) fs h.1)

-- The layout of a class whose fields are not void succeeds and places every field once; the
-- static fields lie apart, aligned, in the static bytes, and the others lie apart, aligned, between
-- the end of the superclass with its padding and the end of the instance.
pub layout-IsSpread :
    (super_bytes padding : ℕ) (must_have_c_layout : Bool) (fs : List Field)
    → All (λ (f : Field). is_void f.kind ≡ false) fs
    → (ps : List Placed) × (last : Offsets) × (layout super_bytes padding must_have_c_layout fs
        ≡ some (ps, last))
      × IsSpread true 0 ps last.static_offset
      × IsSpread false (super_bytes + padding) ps last.nonstatic_offset
      × Perm (numbers ps) (numbered 0 fs)
unfolding layout
layout-IsSpread super_bytes padding true fs h =
    let start : Offsets = record { static_offset = 0; nonstatic_offset = super_bytes + padding } in
    let (ps, last, ran, spread, same) =
      place_fields_lem start (numbered 0 fs) (All-numbered 0 fs h) in
    (ps, last, ran, spread true, spread false, rw same (Perm.refl (numbered 0 fs)))
layout-IsSpread super_bytes padding false fs h =
    let start : Offsets = record { static_offset = 0; nonstatic_offset = super_bytes + padding } in
    let void_free = All-numbered 0 fs h in
    let (ps, last, ran, spread, same) =
      place_fields_lem start (reorder_fields_for_compactness (numbered 0 fs))
        (All-reorder (numbered 0 fs) void_free) in
    (
      ps,
      last,
      ran,
      spread true,
      spread false,
      rw same (reorder_fields_for_compactness-Perm (numbered 0 fs) void_free),
    )
