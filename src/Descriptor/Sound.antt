-- ===== src/Descriptor/Sound.antt =====
-- What `parse_field_descriptor` of vm/classfile.c accepts, against the grammar.
use b_jvm.Common.{
  ℕ, zero, suc, ◌+◌, ◌≤◌, ◌≡◌, refl, ◌≢◌, arith, true, false, ◌&&◌, [], ◌∷◌, ◌++◌, Option, none,
  some, Bytes, ltb, ◌==◌, ap, sym, ◌∙◌, subst, append_assoc, Bool-cases, inl, inr,
}
use native.Mathlib.Numerals.{add-one}
use b_jvm.Descriptor.{
  TypeKind, FieldDescriptor, Parsed, ok, error, type_kind_to_char, read_type_kind_char,
  to_semicolon, primitive_field, class_field, field_loop, parse_field_descriptor, primitive_found,
  Message,
}
use b_jvm.Descriptor.Print.{
  print_base, print_field, NameFits, IsField, to_char-read, to_semicolon-eq_some,
}
use b_jvm.Descriptor.Field.{
  field_at, brackets, class_field_lem, primitive_base, primitive_lem, no_name,
}

-- What a successful read means, at the text that it started from.
abbrev Sound : Bytes → Parsed (FieldDescriptor × Bytes) → Type 0
Sound start (error m) = Unit
Sound start (ok (d, rest)) = IsField d × (start ≡ print_field d ++ rest)

field_at-IsField :
    (d : ℕ) (k : TypeKind) (name : Bytes)
    → d ≤ 255
    → (k ≡ TypeKind.void → d ≡ 0)
    → NameFits k name
    → IsField (field_at d k name)
unfolding print_field
field_at-IsField d k name few flat fits = record {
  few = few;
  flat_void = flat;
  name = fits;
  repr = refl;
  text = refl;
}

brackets_snoc : (j : ℕ) (cs : Bytes) → brackets j ++ b'[' ∷ cs ≡ brackets (j + 1) ++ cs
brackets_snoc j cs = rw (add-one j) (go j)
  where
    go : (n : ℕ) → brackets n ++ b'[' ∷ cs ≡ brackets (suc n) ++ cs
    go zero = refl
    go (suc n) = ap (λ l. b'[' ∷ l) (go n)

class_printed :
    (j n : ℕ) (name rest : Bytes)
    → brackets j ++ (b'L' ∷ n ∷ (name ++ b';' ∷ rest))
      ≡ print_field (field_at j TypeKind.reference (n ∷ name)) ++ rest
unfolding print_field print_base
class_printed j n name rest = simp append_assoc

primitive_printed :
    (j c : ℕ) (k : TypeKind) (cs : Bytes)
    → type_kind_to_char k ≡ c
    → k ≢ TypeKind.reference
    → brackets j ++ c ∷ cs ≡ print_field (field_at j k []) ++ cs
unfolding print_field
primitive_printed j c k cs letter prim =
    rw ((primitive_base k [] prim (no_name k prim)).1, letter) (simp append_assoc)

not_reference :
    (c : ℕ) (k : TypeKind) → type_kind_to_char k ≡ c → (c == b'L') ≡ false → k ≢ TypeKind.reference
unfolding type_kind_to_char
not_reference c k letter other = ground arith

void_error :
    (j c : ℕ) (k : TypeKind) (cs : Bytes)
    → (c == b'V' && ltb 0 j) ≡ true
    → primitive_field (brackets j ++ c ∷ cs) j c k cs ≡ error Message.void_dimensions
unfolding primitive_field
void_error j c k cs bad = rw bad

flat_of_letter :
    (j c : ℕ) (k : TypeKind)
    → type_kind_to_char k ≡ c
    → (c == b'V' && ltb 0 j) ≡ false
    → k ≡ TypeKind.void
    → j ≡ 0
unfolding type_kind_to_char
flat_of_letter j c k letter fine void = ground arith

class_found-Sound :
    (j : ℕ) (cs : Bytes) (o : Option (Bytes × Bytes))
    → to_semicolon cs ≡ o
    → j ≤ 255
    → Sound (brackets j ++ b'L' ∷ cs) (class_field (brackets j ++ b'L' ∷ cs) j cs)
unfolding class_field
class_found-Sound j cs none found few = rw found tt
class_found-Sound j cs (some ([], rest)) found few = rw found tt
class_found-Sound j cs (some (n ∷ name, rest)) found few =
    let (text, clean) = to_semicolon-eq_some cs found in
    rw text (
      subst (λ r. Sound (brackets j ++ (b'L' ∷ n ∷ (name ++ b';' ∷ rest))) r)
        (sym (class_field_lem j n name rest clean))
        (
          field_at-IsField j TypeKind.reference (n ∷ name) few (λ e. cc) ((λ e. cc), clean),
          class_printed j n name rest,
        ))

primitive-Sound :
    (j c : ℕ) (cs : Bytes) (o : Option TypeKind)
    → read_type_kind_char c ≡ o
    → j ≤ 255
    → (c == b'L') ≡ false
    → Sound (brackets j ++ c ∷ cs) (primitive_found (brackets j ++ c ∷ cs) j c cs o)
unfolding primitive_found
primitive-Sound j c cs none found few other = tt
primitive-Sound j c cs (some k) found few other =
    let letter = to_char-read c k found in
    let prim = not_reference c k letter other in
    elim (Bool-cases (c == b'V' && ltb 0 j)) [
      | inl bad ↦ subst (λ r. Sound (brackets j ++ c ∷ cs) r) (sym (void_error j c k cs bad)) tt
      | inr fine ↦
          let flat = flat_of_letter j c k letter fine in
          subst (λ r. Sound (brackets j ++ c ∷ cs) r)
            (sym (primitive_lem j c k cs letter prim flat))
            (
              field_at-IsField j k [] few flat (no_name k prim),
              primitive_printed j c k cs letter prim,
            )
    ]

field_loop-Sound :
    (start : Bytes) (j : ℕ) (s : Bytes)
    → start ≡ brackets j ++ s
    → Sound start (field_loop start j s)
unfolding field_loop
field_loop-Sound start j [] text = tt
field_loop-Sound start j (c ∷ cs) text = elim (Bool-cases (ltb 255 j)) [
  | inl many ↦ rw many tt
  | inr few ↦ elim (Bool-cases (c == b'[')) [
    | inl open_ ↦
        let is : c ≡ b'[' = ground arith in
        rw (few, open_)
          (field_loop-Sound start (j + 1) cs
            (text ∙ ap (λ (x : ℕ). brackets j ++ x ∷ cs) is ∙ brackets_snoc j cs))
    | inr other ↦ elim (Bool-cases (c == b'L')) [
      | inl class ↦
          let is : c ≡ b'L' = ground arith in
          let whole = text ∙ ap (λ (x : ℕ). brackets j ++ x ∷ cs) is in
          rw (few, other, class, whole)
            (class_found-Sound j cs (to_semicolon cs) refl (ground arith))
      | inr prim ↦
          rw (few, other, prim, text)
            (primitive-Sound j c cs (read_type_kind_char c) refl (ground arith) prim)
    ]
  ]
]

-- Whatever is read is a descriptor of the grammar, and the text is its print and the rest.
pub parse_field_descriptor-eq_ok :
    (chars : Bytes) {d : FieldDescriptor} {rest : Bytes}
    → parse_field_descriptor chars ≡ ok (d, rest)
    → IsField d × (chars ≡ print_field d ++ rest)
unfolding parse_field_descriptor
parse_field_descriptor-eq_ok chars h =
    subst (λ r. Sound chars r) h (field_loop-Sound chars 0 chars refl)
