-- ===== src/Layout/Tests.antt =====
-- vm/linkage.c: the layout of a small class.
use mathlib.Core.List.{Perm}
use b_jvm.Common.{◌+◌, ◌≡◌, refl, true, false, List, [], ◌∷◌, some}
use b_jvm.Descriptor.{TypeKind}
use b_jvm.Layout.{Field, Placed, Offsets, layout, numbered}
use b_jvm.Layout.Spread.{IsSpread, numbers, layout-IsSpread}

-- boolean b; static int n; long l; Object o; short s;
abbrev fields : List Field
fields =
    record { kind = TypeKind.boolean; is_static = false }
    ∷ record { kind = TypeKind.int; is_static = true }
    ∷ record { kind = TypeKind.long; is_static = false }
    ∷ record { kind = TypeKind.reference; is_static = false }
    ∷ record { kind = TypeKind.short; is_static = false }
    ∷ []

layout-IsSpread_example :
    (ps : List Placed) × (last : Offsets) × (layout 16 4 false fields ≡ some (ps, last))
    × IsSpread true 0 ps last.static_offset
    × IsSpread false (16 + 4) ps last.nonstatic_offset
    × Perm (numbers ps) (numbered 0 fields)
layout-IsSpread_example =
    layout-IsSpread 16 4 false fields (refl, (refl, (refl, (refl, (refl, tt)))))
