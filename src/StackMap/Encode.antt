-- ===== src/StackMap/Encode.antt =====
-- JVMS 4.7.4: the frames of a StackMapTable, how they are written, and what each makes of the types of
-- the frame before it. A double or a long is one type here; `expand` gives each the extra entry that
-- vm/stackmaptable.c keeps behind it.
use b_jvm.Common.{
  ℕ, ◌+◌, ◌-◌, ◌/◌, ◌%◌, ◌≤◌, ◌≡◌, false, List, [], ◌∷◌, ◌++◌, Bytes, length, take, if◌then◌else◌,
  All,
}
use b_jvm.StackMap.{Kind, ValidationType, plain, implicit, is_wide, has_index, is_implicit_top}

unfoldable pub code_of : Kind → ℕ
code_of Kind.top = 0
code_of Kind.integer = 1
code_of Kind.float = 2
code_of Kind.double = 3
code_of Kind.long = 4
code_of Kind.null = 5
code_of Kind.uninit_this = 6
code_of Kind.object = 7
code_of Kind.uninit = 8

-- A type with the index that goes with an object or an uninitialised one.
pub record Typed : Type 0 where
  pub kind : Kind
  pub index : ℕ

unfoldable pub u16_bytes : ℕ → Bytes
u16_bytes n = (n / 256) ∷ (n % 256) ∷ []

unfoldable pub encode_type : Typed → Bytes
unfolding u16_bytes
encode_type t = code_of t.kind ∷ (if has_index t.kind then u16_bytes t.index else [])

unfoldable pub encode_types : List Typed → Bytes
encode_types [] = []
encode_types (t ∷ ts) = encode_type t ++ encode_types ts

pub data Frame : Type 0 where
  same : ℕ → Frame
  same_locals_1 : ℕ → Typed → Frame
  same_locals_1_extended : ℕ → Typed → Frame
  chop : ℕ → ℕ → Frame
  same_extended : ℕ → Frame
  append : ℕ → List Typed → Frame
  full : ℕ → List Typed → List Typed → Frame

-- The number ranges of the format.
abbrev pub IsFrame : Frame → Type 0
IsFrame (Frame.same d) = d ≤ 63
IsFrame (Frame.same_locals_1 d t) = d ≤ 63
IsFrame (Frame.same_locals_1_extended d t) = Unit
IsFrame (Frame.chop n d) = (1 ≤ n) × (n ≤ 3)
IsFrame (Frame.same_extended d) = Unit
IsFrame (Frame.append d ts) = (1 ≤ length ts) × (length ts ≤ 3)
IsFrame (Frame.full d ts ss) = Unit

unfoldable pub encode : Frame → Bytes
unfolding u16_bytes encode_types
encode (Frame.same d) = d ∷ []
encode (Frame.same_locals_1 d t) = (d + 64) ∷ encode_type t
encode (Frame.same_locals_1_extended d t) = 247 ∷ (u16_bytes d ++ encode_type t)
encode (Frame.chop n d) = (251 - n) ∷ u16_bytes d
encode (Frame.same_extended d) = 251 ∷ u16_bytes d
encode (Frame.append d ts) = (length ts + 251) ∷ (u16_bytes d ++ encode_types ts)
encode (Frame.full d ts ss) =
    255
    ∷ (u16_bytes d
        ++ (u16_bytes (length ts)
            ++ (encode_types ts ++ (u16_bytes (length ss) ++ encode_types ss))))

unfoldable pub delta_of : Frame → ℕ
delta_of (Frame.same d) = d
delta_of (Frame.same_locals_1 d t) = d
delta_of (Frame.same_locals_1_extended d t) = d
delta_of (Frame.chop n d) = d
delta_of (Frame.same_extended d) = d
delta_of (Frame.append d ts) = d
delta_of (Frame.full d ts ss) = d

abbrev pub types : List Typed → List ValidationType
types [] = []
types (t ∷ ts) = plain t.kind ∷ types ts

unfoldable pub locals_after : Frame → List ValidationType → List ValidationType
locals_after (Frame.chop n d) vs = take (length vs - n) vs
locals_after (Frame.append d ts) vs = vs ++ types ts
locals_after (Frame.full d ts ss) vs = types ts
locals_after f vs = vs

unfoldable pub stack_after : Frame → List ValidationType
stack_after (Frame.same_locals_1 d t) = plain t.kind ∷ []
stack_after (Frame.same_locals_1_extended d t) = plain t.kind ∷ []
stack_after (Frame.full d ts ss) = types ss
stack_after f = []

-- At most as many types are chopped as there are.
abbrev pub Applies : Frame → List ValidationType → Type 0
Applies (Frame.chop n d) vs = n ≤ length vs
Applies f vs = Unit

abbrev pub Explicit : List ValidationType → Type 0
Explicit vs = All (λ v. is_implicit_top v ≡ false) vs

unfoldable pub expand : List ValidationType → List ValidationType
expand [] = []
expand (v ∷ vs) = if is_wide v.kind then v ∷ implicit ∷ expand vs else v ∷ expand vs
