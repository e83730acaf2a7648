-- ===== src/Descriptor/Field.antt =====
-- `parse_field_descriptor` of vm/classfile.c against the grammar.
use Prim.Native.Nat.add
use native.Mathlib.Nat.{add-zero}
use b_jvm.Common.{
  ℕ, zero, suc, ◌+◌, ◌-◌, ◌≤◌, ◌≡◌, refl, ◌≢◌, arith, true, false, ◌&&◌, [], ◌∷◌, ◌++◌, Bytes,
  length, length-append, take, drop, replicate, ltb, ◌==◌, if◌then◌else◌, ◌∙◌, All, append_assoc,
}
use b_jvm.Descriptor.{
  TypeKind, FieldDescriptor, ok, type_kind_to_char, kind_to_representable_kind, text_between,
  primitive_field, class_field, field_loop, parse_field_descriptor,
}
use b_jvm.Descriptor.Print.{
  print_base, print_field, NameFits, repr_of, IsField, read-to_char, text_between-append,
  cut_middle, to_semicolon-append,
}

-- With `dimensions` brackets read, the base that follows is read to its end.
abbrev pub field_at : ℕ → TypeKind → Bytes → FieldDescriptor
field_at dimensions base name = record {
  unparsed = replicate dimensions b'[' ++ print_base base name;
  base_kind = base;
  repr_kind = repr_of base dimensions;
  dimensions = dimensions;
  class_name = name;
}

abbrev pub brackets : ℕ → Bytes
brackets n = replicate n b'['

-- The text up to `class_start` and behind the ';', with the whole in between.
class_text :
    (d : ℕ) (name rest : Bytes)
    → brackets d ++ (b'L' ∷ (name ++ b';' ∷ rest))
      ≡ (brackets d ++ (b'L' ∷ (name ++ b';' ∷ []))) ++ rest
class_text d name rest = simp append_assoc

class_unparsed :
    (d : ℕ) (name rest : Bytes)
    → text_between (brackets d ++ (b'L' ∷ (name ++ b';' ∷ rest))) rest
      ≡ brackets d ++ (b'L' ∷ (name ++ b';' ∷ []))
class_unparsed d name rest = rw (class_text d name rest) (text_between-append _ rest)

class_name_cut :
    (d : ℕ) (name rest : Bytes)
    → let start = brackets d ++ (b'L' ∷ (name ++ b';' ∷ rest)) in
      let from = length start - length (name ++ b';' ∷ rest) in
      take (length start - length rest - 1 - from) (drop from (text_between start rest)) ≡ name
class_name_cut d name rest =
    let pre = brackets d ++ b'L' ∷ [] in
    let post : Bytes = b';' ∷ [] in
    let whole : brackets d ++ (b'L' ∷ (name ++ post)) ≡ pre ++ name ++ post = simp append_assoc in
    let total = length-append (brackets d) (b'L' ∷ (name ++ b';' ∷ rest)) in
    let tail = length-append name (b';' ∷ rest) in
    let head = length-append (brackets d) (b'L' ∷ []) in
    let from : length (brackets d ++ (b'L' ∷ (name ++ b';' ∷ rest))) - length (name ++ b';' ∷ rest)
        ≡ length pre =
      omega (arith, total, tail, head) in
    rw (class_unparsed d name rest, from, whole)
      (cut_middle pre name post _ (omega (arith, total, tail, head)))

repr_reference : (d : ℕ) → TypeKind.reference ≡ repr_of TypeKind.reference d
unfolding repr_of kind_to_representable_kind
repr_reference zero = refl
repr_reference (suc d) = refl

pub class_field_lem :
    (d n : ℕ) (name rest : Bytes)
    → All (λ c. c ≢ b';') (n ∷ name)
    → class_field (brackets d ++ (b'L' ∷ n ∷ (name ++ b';' ∷ rest))) d (n ∷ (name ++ b';' ∷ rest))
      ≡ ok (field_at d TypeKind.reference (n ∷ name), rest)
unfolding class_field print_base repr_of kind_to_representable_kind
class_field_lem d n name rest clean =
    rw (to_semicolon-append (n ∷ name) rest clean)
      (cc (class_unparsed d (n ∷ name) rest, class_name_cut d (n ∷ name) rest, repr_reference d))

primitive_unparsed :
    (d c : ℕ) (rest : Bytes) → text_between (brackets d ++ c ∷ rest) rest ≡ brackets d ++ c ∷ []
primitive_unparsed d c rest =
    let whole : brackets d ++ c ∷ rest ≡ (brackets d ++ c ∷ []) ++ rest = simp append_assoc in
    rw whole (text_between-append _ rest)

pub no_name : (k : TypeKind) → k ≢ TypeKind.reference → NameFits k []
no_name TypeKind.reference h = absurd (h refl)
no_name _ h = refl

pub primitive_base :
    (k : TypeKind) (name : Bytes)
    → k ≢ TypeKind.reference
    → NameFits k name
    → (name ≡ []) × (print_base k name ≡ type_kind_to_char k ∷ [])
unfolding print_base
primitive_base TypeKind.boolean name ne h = (h, refl)
primitive_base TypeKind.reference name ne h = absurd (ne refl)
primitive_base _ name ne h = (h, refl)

repr_primitive :
    (k : TypeKind) (d : ℕ)
    → (if ltb 0 d then TypeKind.reference else kind_to_representable_kind k) ≡ repr_of k d
unfolding repr_of
repr_primitive k zero = refl
repr_primitive k (suc d) = ground arith

void_letter : (k : TypeKind) → (type_kind_to_char k == b'V') ≡ true → k ≡ TypeKind.void
unfolding type_kind_to_char
void_letter TypeKind.void h = refl
void_letter _ h = cc

pub primitive_lem :
    (d c : ℕ) (k : TypeKind) (rest : Bytes)
    → type_kind_to_char k ≡ c
    → k ≢ TypeKind.reference
    → (k ≡ TypeKind.void → d ≡ 0)
    → primitive_field (brackets d ++ c ∷ rest) d c k rest ≡ ok (field_at d k [], rest)
unfolding primitive_field
primitive_lem d c k rest letter prim flat =
    let base = (primitive_base k [] prim (no_name k prim)).1 in
    let fine : (type_kind_to_char k == b'V' && ltb 0 d) ≡ false = ground (arith, void_letter k) in
    rw (← letter, fine)
      (cc (primitive_unparsed d (type_kind_to_char k) rest, repr_primitive k d, base))

letter_tests :
    (k : TypeKind)
    → k ≢ TypeKind.reference
    → ((type_kind_to_char k == b'[') ≡ false) × ((type_kind_to_char k == b'L') ≡ false)
unfolding type_kind_to_char
letter_tests TypeKind.reference h = absurd (h refl)
letter_tests _ h = (refl, refl)

-- The loop at the base of a descriptor.
base_primitive :
    (d : ℕ) (k : TypeKind) (name rest : Bytes)
    → k ≢ TypeKind.reference
    → d ≤ 255
    → (k ≡ TypeKind.void → d ≡ 0)
    → NameFits k name
    → field_loop (brackets d ++ (print_base k name ++ rest)) d (print_base k name ++ rest)
      ≡ ok (field_at d k name, rest)
unfolding field_loop
base_primitive d k name rest prim few flat fits =
    let (nil, base) = primitive_base k name prim fits in
    let small : ltb 255 d ≡ false = ground arith in
    rw
      (
        nil,
        (primitive_base k [] prim (no_name k prim)).1,
        small,
        (letter_tests k prim).0,
        (letter_tests k prim).1,
        read-to_char k,
      )
      (rw (primitive_base k [] prim (no_name k prim)).1 at
        (primitive_lem d (type_kind_to_char k) k rest refl prim flat))

base_lem :
    (d : ℕ) (k : TypeKind) (name rest : Bytes)
    → d ≤ 255
    → (k ≡ TypeKind.void → d ≡ 0)
    → NameFits k name
    → field_loop (brackets d ++ (print_base k name ++ rest)) d (print_base k name ++ rest)
      ≡ ok (field_at d k name, rest)
unfolding field_loop print_base
base_lem d TypeKind.reference [] rest few flat fits = absurd (fits.0 refl)
base_lem d TypeKind.reference (n ∷ name) rest few flat fits =
    let small : ltb 255 d ≡ false = ground arith in
    let text : n ∷ (name ++ b';' ∷ []) ++ rest ≡ n ∷ (name ++ b';' ∷ rest) = simp append_assoc in
    rw (small, text) (class_field_lem d n name rest fits.1)
base_lem d k name rest few flat fits = base_primitive d k name rest (λ e. cc) few flat fits

loop_brackets :
    (start s : Bytes) (n j : ℕ)
    → j + n ≤ 255
    → field_loop start j (brackets n ++ s) ≡ field_loop start (j + n) s
unfolding field_loop
loop_brackets start s zero j h = rw (add-zero j)
loop_brackets start s (suc n) j h =
    let small : ltb 255 j ≡ false = ground arith in
    let shift : j + 1 + n ≡ j + suc n = omega arith in
    rw small (loop_brackets start s n (j + 1) (omega arith) ∙ rw shift)

field_at_eq : (d : FieldDescriptor) → IsField d → field_at d.dimensions d.base_kind d.class_name ≡ d
unfolding print_field
field_at_eq d is = cc (is.repr, is.text)

-- Every descriptor of the grammar is read back, whatever follows it.
pub parse_field_descriptor-print_field :
    (d : FieldDescriptor) (rest : Bytes)
    → IsField d
    → parse_field_descriptor (print_field d ++ rest) ≡ ok (d, rest)
unfolding parse_field_descriptor print_field
parse_field_descriptor-print_field d rest is =
    let n = d.dimensions in
    let base = print_base d.base_kind d.class_name in
    let start = brackets n ++ (base ++ rest) in
    let text : (brackets n ++ base) ++ rest ≡ start = append_assoc (brackets n) base rest in
    let read : field_loop start (0 + n) (base ++ rest)
        ≡ ok (field_at n d.base_kind d.class_name, rest) =
      rw (add.zero n) (base_lem n d.base_kind d.class_name rest is.few is.flat_void is.name) in
    let same : field_at n d.base_kind d.class_name ≡ d = field_at_eq d is in
    rw (text, loop_brackets start (base ++ rest) n 0 (omega (arith, is.few)), read, same)
