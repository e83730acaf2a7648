-- ===== src/Descriptor/Print.antt =====
-- The grammar of JVMS 4.3 as a printer: what the descriptors of vm/classfile.c stand for.
use b_jvm.Common.{
  ℕ, zero, suc, ◌-◌, ◌≤◌, ◌≡◌, refl, ◌≢◌, arith, List, [], ◌∷◌, ◌++◌, Option, none, some, Bytes,
  length, length-append, take, drop, replicate, ◌==◌, ap, subst, All, append_assoc, Bool-cases, inl,
  inr,
}
use b_jvm.Descriptor.{
  TypeKind, FieldDescriptor, MethodDescriptor, type_kind_to_char, read_type_kind_char,
  kind_to_representable_kind, to_semicolon, text_between,
}

unfoldable pub print_base : TypeKind → Bytes → Bytes
print_base TypeKind.reference name = b'L' ∷ name ++ b';' ∷ []
print_base k name = type_kind_to_char k ∷ []

unfoldable pub print_field : FieldDescriptor → Bytes
print_field d = replicate d.dimensions b'[' ++ print_base d.base_kind d.class_name

abbrev pub NameFits : TypeKind → Bytes → Type 0
NameFits TypeKind.reference name = (name ≢ []) × All (λ c. c ≢ b';') name
NameFits k name = name ≡ []

unfoldable pub repr_of : TypeKind → ℕ → TypeKind
repr_of base zero = kind_to_representable_kind base
repr_of base (suc n) = TypeKind.reference

-- A descriptor of the grammar, with the redundant fields as they must be.
pub record IsField (d : FieldDescriptor) : Type 0 where
  pub few : d.dimensions ≤ 255
  pub flat_void : d.base_kind ≡ TypeKind.void → d.dimensions ≡ 0
  pub name : NameFits d.base_kind d.class_name
  pub repr : d.repr_kind ≡ repr_of d.base_kind d.dimensions
  pub text : d.unparsed ≡ print_field d

unfoldable pub print_args : List FieldDescriptor → Bytes
print_args [] = []
print_args (d ∷ ds) = print_field d ++ print_args ds

unfoldable pub print_method : MethodDescriptor → Bytes
unfolding print_args
print_method m = b'(' ∷ print_args m.args ++ b')' ∷ print_field m.return_type

pub record IsMethod (m : MethodDescriptor) : Type 0 where
  pub args : All (λ d. IsField d × (d.base_kind ≢ TypeKind.void)) m.args
  pub return_type : IsField m.return_type

pub read-to_char : (k : TypeKind) → read_type_kind_char (type_kind_to_char k) ≡ some k
unfolding read_type_kind_char type_kind_to_char
read-to_char TypeKind.boolean = refl
read-to_char _ = refl

pub to_char-read : (c : ℕ) (k : TypeKind) → read_type_kind_char c ≡ some k → type_kind_to_char k ≡ c
unfolding read_type_kind_char type_kind_to_char
to_char-read c k h = ground arith

take-length : (p rest : Bytes) → take (length p) (p ++ rest) ≡ p
take-length [] rest = refl
take-length (c ∷ p) rest = ap (λ l. c ∷ l) (take-length p rest)

drop-length : (p rest : Bytes) → drop (length p) (p ++ rest) ≡ rest
drop-length [] rest = refl
drop-length (c ∷ p) rest = drop-length p rest

pub text_between-append : (p rest : Bytes) → text_between (p ++ rest) rest ≡ p
text_between-append p rest =
    let n : length (p ++ rest) - length rest ≡ length p = omega (arith, length-append p rest) in
    rw n (take-length p rest)

-- `subslice_to` cuts the middle out.
pub cut_middle :
    (pre name post : Bytes) (n : ℕ)
    → n ≡ length name
    → take n (drop (length pre) (pre ++ name ++ post)) ≡ name
cut_middle pre name post n h = rw (append_assoc, drop-length, h) (take-length name post)

abbrev Split : Bytes → Option (Bytes × Bytes) → Type 0
Split s none = Unit
Split s (some (name, rest)) = (s ≡ name ++ b';' ∷ rest) × All (λ c. c ≢ b';') name

Split-cons :
    (c : ℕ) (cs : Bytes) (o : Option (Bytes × Bytes))
    → c ≢ b';'
    → Split cs o
    → Split (c ∷ cs) (elim o [ none ↦ none | some (name, rest) ↦ some (c ∷ name, rest) ])
Split-cons c cs none ne h = tt
Split-cons c cs (some (name, rest)) ne h = (ap (λ l. c ∷ l) h.0, (ne, h.1))

to_semicolon-Split : (s : Bytes) → Split s (to_semicolon s)
unfolding to_semicolon
to_semicolon-Split [] = tt
to_semicolon-Split (c ∷ cs) = elim (Bool-cases (c == b';')) [
  | inl p ↦ let is : c ≡ b';' = ground arith in rw p (ap (λ (x : ℕ). x ∷ cs) is, tt)
  | inr p ↦ rw p (Split-cons c cs (to_semicolon cs) (ground arith) (to_semicolon-Split cs))
]

pub to_semicolon-eq_some :
    (s : Bytes) {name rest : Bytes}
    → to_semicolon s ≡ some (name, rest)
    → (s ≡ name ++ b';' ∷ rest) × All (λ c. c ≢ b';') name
to_semicolon-eq_some s h = subst (λ o. Split s o) h (to_semicolon-Split s)

pub to_semicolon-append :
    (name rest : Bytes)
    → All (λ c. c ≢ b';') name
    → to_semicolon (name ++ b';' ∷ rest) ≡ some (name, rest)
unfolding to_semicolon
to_semicolon-append [] rest h = refl
to_semicolon-append (c ∷ name) rest h = ground (arith, to_semicolon-append name rest h.1)
