-- ===== src/Layout.antt =====
-- vm/linkage.c: where the fields of a class lie. Offsets are far below the width of `size_t`; a
-- reference has the 8 bytes of a 64-bit machine.
mod Reorder
mod Spread
mod Tests
use b_jvm.Common.{
  ℕ, zero, suc, ◌+◌, ◌-◌, ◌*◌, ◌/◌, Bool, true, false, List, [], ◌∷◌, ◌++◌, Option, none, some,
  ◌>>=◌, ◌==◌, if◌then◌else◌,
}
use b_jvm.Descriptor.{TypeKind}

pub record Field : Type 0 where
  pub kind : TypeKind
  pub is_static : Bool

-- The field's place in the class file, and its `byte_offset`.
pub record Placed : Type 0 where
  pub index : ℕ
  pub field : Field
  pub byte_offset : ℕ

pub record Offsets : Type 0 where
  pub static_offset : ℕ
  pub nonstatic_offset : ℕ

-- For a power of two, `(value + alignment - 1) & ~(alignment - 1)`.
abbrev pub align_up : ℕ → ℕ → ℕ
align_up value alignment = (value + alignment - 1) / alignment * alignment

-- 0 stands for UNREACHABLE.
abbrev sizeof_type_kind : TypeKind → ℕ
sizeof_type_kind k = elim k [
  | TypeKind.boolean ↦ 1
  | TypeKind.byte ↦ 1
  | TypeKind.char ↦ 2
  | TypeKind.short ↦ 2
  | TypeKind.float ↦ 4
  | TypeKind.int ↦ 4
  | TypeKind.double ↦ 8
  | TypeKind.long ↦ 8
  | TypeKind.reference ↦ 8
  | TypeKind.void ↦ 0
]

-- The offset and where the next field may start; `none` is UNREACHABLE.
unfoldable allocate_field : ℕ → TypeKind → Option (ℕ × ℕ)
allocate_field current k = elim k [
  | TypeKind.boolean ↦ some (current, current + 1)
  | TypeKind.byte ↦ some (current, current + 1)
  | TypeKind.char ↦ some (align_up current 2, align_up current 2 + 2)
  | TypeKind.short ↦ some (align_up current 2, align_up current 2 + 2)
  | TypeKind.float ↦ some (align_up current 4, align_up current 4 + 4)
  | TypeKind.int ↦ some (align_up current 4, align_up current 4 + 4)
  | TypeKind.double ↦ some (align_up current 8, align_up current 8 + 8)
  | TypeKind.long ↦ some (align_up current 8, align_up current 8 + 8)
  | TypeKind.reference ↦ some (align_up current 8, align_up current 8 + 8)
  | TypeKind.void ↦ none
]

abbrev numbered : ℕ → List Field → List (ℕ × Field)
numbered i [] = []
numbered i (f ∷ fs) = (i, f) ∷ numbered (suc i) fs

-- The fields of one size, in their order.
unfoldable bucket : ℕ → List (ℕ × Field) → List (ℕ × Field)
bucket size [] = []
bucket size (f ∷ fs) =
    if sizeof_type_kind f.1.kind == size then f ∷ bucket size fs else bucket size fs

unfoldable reorder_fields_for_compactness : List (ℕ × Field) → List (ℕ × Field)
unfolding bucket
reorder_fields_for_compactness fs = bucket 8 fs ++ (bucket 4 fs ++ (bucket 2 fs ++ bucket 1 fs))

-- One round of the loop of `link_class` that places the fields, once the place is found.
unfoldable placed_at : Offsets → ℕ × Field → ℕ × ℕ → Placed × Offsets
placed_at at (i, f) (offset, next) = (
  record { index = i; field = f; byte_offset = offset },
  (if f.is_static
      then record at { static_offset = next }
      else record at { nonstatic_offset = next }),
)

abbrev region : Bool → Offsets → ℕ
region is_static at = if is_static then at.static_offset else at.nonstatic_offset

unfoldable place_field : Offsets → ℕ × Field → Option (Placed × Offsets)
unfolding allocate_field placed_at
place_field at f = do r ← allocate_field (region f.1.is_static at) f.1.kind; some (placed_at at f r)

unfoldable place_fields : Offsets → List (ℕ × Field) → Option (List Placed × Offsets)
unfolding place_field
place_fields at [] = some ([], at)
place_fields at (f ∷ fs) = do
  (p, next) ← place_field at f
  (ps, last) ← place_fields next fs
  some (p ∷ ps, last)

-- The layout of a class: where the superclass ends, the padding for the VM's own fields, and whether
-- the class must keep the order of its fields.
unfoldable layout : ℕ → ℕ → Bool → List Field → Option (List Placed × Offsets)
unfolding reorder_fields_for_compactness place_fields
layout super_bytes padding must_have_c_layout fs =
    place_fields (record { static_offset = 0; nonstatic_offset = super_bytes + padding })
      (if must_have_c_layout then numbered 0 fs else reorder_fields_for_compactness (numbered 0 fs))
