-- ===== src/Descriptor.antt =====
-- vm/classfile.c: field and method descriptors (JVMS 4.3). A C pointer into the text is the text from
-- there on, and a parser that advances the pointer returns it. A message is its text's constructor.
use b_jvm.Common.{
  ℕ, zero, suc, ◌+◌, ◌-◌, Bool, true, false, ◌&&◌, ◌||◌, List, [], ◌∷◌, ◌++◌, Option, none, some,
  Bytes, length, take, drop, ltb, ◌==◌, if◌then◌else◌,
}
pub mod Print
pub mod Field
pub mod Sound
pub mod Method
mod Tests

-- `type_kind`, in the order of "ZCFDBSIJVL"
pub data TypeKind : Type 0 where
  boolean char float double byte short int long void reference : TypeKind

unfoldable pub kind_to_representable_kind : TypeKind → TypeKind
kind_to_representable_kind TypeKind.boolean = TypeKind.int
kind_to_representable_kind TypeKind.char = TypeKind.int
kind_to_representable_kind TypeKind.byte = TypeKind.int
kind_to_representable_kind TypeKind.short = TypeKind.int
kind_to_representable_kind TypeKind.int = TypeKind.int
kind_to_representable_kind k = k

-- `none` is the failed CHECK.
unfoldable pub read_type_kind_char : ℕ → Option TypeKind
read_type_kind_char c =
    if c == b'Z'
    then some TypeKind.boolean
    else if c == b'C'
    then some TypeKind.char
    else if c == b'F'
    then some TypeKind.float
    else if c == b'D'
    then some TypeKind.double
    else if c == b'B'
    then some TypeKind.byte
    else if c == b'S'
    then some TypeKind.short
    else if c == b'I'
    then some TypeKind.int
    else if c == b'J'
    then some TypeKind.long
    else if c == b'V'
    then some TypeKind.void
    else if c == b'L'
    then some TypeKind.reference
    else none

unfoldable pub type_kind_to_char : TypeKind → ℕ
type_kind_to_char TypeKind.boolean = b'Z'
type_kind_to_char TypeKind.char = b'C'
type_kind_to_char TypeKind.float = b'F'
type_kind_to_char TypeKind.double = b'D'
type_kind_to_char TypeKind.byte = b'B'
type_kind_to_char TypeKind.short = b'S'
type_kind_to_char TypeKind.int = b'I'
type_kind_to_char TypeKind.long = b'J'
type_kind_to_char TypeKind.void = b'V'
type_kind_to_char TypeKind.reference = b'L'

pub record FieldDescriptor : Type 0 where
  pub unparsed : Bytes
  pub base_kind : TypeKind
  pub repr_kind : TypeKind
  pub dimensions : ℕ
  -- left unset for a primitive base
  pub class_name : Bytes

pub data Message : Type 0 where
  too_many_dimensions void_dimensions missing_semicolon missing_name end_of_text : Message
  invalid_character : ℕ → Message
  expected_open void_parameter missing_close : Message
  trailing_characters : ℕ → Message

pub data Parsed (A : Type 0) : Type 0 where
  ok : A → Parsed A
  error : Message → Parsed A

infixl 5 ◌>>=◌
abbrev pub ◌>>=◌ : {A B : Type 0} → Parsed A → (A → Parsed B) → Parsed B
ok a >>= f = f a
error m >>= f = error m

-- `while (*chars < end && **chars != ';') ++*chars`: the name, and what stands after the ';'.
unfoldable pub to_semicolon : Bytes → Option (Bytes × Bytes)
to_semicolon [] = none
to_semicolon (c ∷ cs) =
    if c == b';'
    then some ([], cs)
    else elim (to_semicolon cs) [ none ↦ none | some (name, rest) ↦ some (c ∷ name, rest) ]

-- The text from `start` up to `stop`, a later pointer into the same text.
abbrev pub text_between : Bytes → Bytes → Bytes
text_between start stop = take (length start - length stop) start

-- The cases of the primitive letters.
unfoldable pub primitive_field : Bytes → ℕ → ℕ → TypeKind → Bytes → Parsed (FieldDescriptor × Bytes)
primitive_field start dimensions c prim rest =
    if c == b'V' && ltb 0 dimensions
    then error Message.void_dimensions
    else ok (
      record {
        unparsed = text_between start rest;
        base_kind = prim;
        repr_kind =
            if ltb 0 dimensions then TypeKind.reference else kind_to_representable_kind prim;
        dimensions = dimensions;
        class_name = [];
      },
      rest,
    )

-- `case 'L'`, with the pointer behind the letter, once the ';' is looked for. The name is cut out of
-- `unparsed`.
unfoldable pub class_found :
    Bytes → ℕ → Bytes → Option (Bytes × Bytes) → Parsed (FieldDescriptor × Bytes)
class_found start dimensions class_start none = error Message.missing_semicolon
class_found start dimensions class_start (some ([], rest)) = error Message.missing_name
class_found start dimensions class_start (some (n ∷ name, rest)) =
    let unparsed = text_between start rest in
    let from = length start - length class_start in
    ok (
      record {
        unparsed = unparsed;
        base_kind = TypeKind.reference;
        repr_kind = TypeKind.reference;
        dimensions = dimensions;
        class_name = take (length start - length rest - 1 - from) (drop from unparsed);
      },
      rest,
    )

unfoldable pub class_field : Bytes → ℕ → Bytes → Parsed (FieldDescriptor × Bytes)
unfolding class_found
class_field start dimensions class_start =
    class_found start dimensions class_start (to_semicolon class_start)

unfoldable pub primitive_found :
    Bytes → ℕ → ℕ → Bytes → Option TypeKind → Parsed (FieldDescriptor × Bytes)
unfolding primitive_field
primitive_found start dimensions c rest none = error (Message.invalid_character c)
primitive_found start dimensions c rest (some prim) = primitive_field start dimensions c prim rest

-- The loop, at a number of dimensions read so far.
unfoldable pub field_loop : Bytes → ℕ → Bytes → Parsed (FieldDescriptor × Bytes)
unfolding primitive_found class_field
field_loop start dimensions [] = error Message.end_of_text
field_loop start dimensions (c ∷ cs) =
    if ltb 255 dimensions
    then error Message.too_many_dimensions
    else if c == b'['
    then field_loop start (dimensions + 1) cs
    else if c == b'L'
    then class_field start dimensions cs
    else primitive_found start dimensions c cs (read_type_kind_char c)

unfoldable pub parse_field_descriptor : Bytes → Parsed (FieldDescriptor × Bytes)
unfolding field_loop
parse_field_descriptor chars = field_loop chars 0 chars

complete : FieldDescriptor × Bytes → Parsed FieldDescriptor
complete (d, []) = ok d
complete (d, c ∷ cs) = error (Message.trailing_characters c)

unfoldable pub parse_complete_field_descriptor : Bytes → Parsed FieldDescriptor
unfolding parse_field_descriptor complete
parse_complete_field_descriptor entry = parse_field_descriptor entry >>= complete

pub record MethodDescriptor : Type 0 where
  pub args : List FieldDescriptor
  pub return_type : FieldDescriptor

is_void : TypeKind → Bool
is_void TypeKind.void = true
is_void k = false

-- `while (chars < end && *chars != ')')`: the arguments, and the text from the ')' or the end on. Each
-- round takes at least one character, so as many rounds as there are characters are enough.
unfoldable pub args_loop : ℕ → Bytes → Parsed (List FieldDescriptor × Bytes)
unfolding is_void parse_field_descriptor
args_loop zero chars = ok ([], chars)
args_loop (suc n) [] = ok ([], [])
args_loop (suc n) (c ∷ cs) =
    let round = parse_field_descriptor (c ∷ cs) >>= λ p.
    if is_void p.0.base_kind
    then error Message.void_parameter
    else (args_loop n p.1 >>= λ q. ok (p.0 ∷ q.0, q.1)) in
    if c == b')' then ok ([], c ∷ cs) else round

after_args : List FieldDescriptor → Bytes → Parsed MethodDescriptor
unfolding parse_field_descriptor
after_args args [] = error Message.missing_close
after_args args (c ∷ cs) =
    parse_field_descriptor cs >>= λ p. ok (record { args = args; return_type = p.0 })

-- What follows the return type is not looked at.
unfoldable pub parse_method_descriptor : Bytes → Parsed MethodDescriptor
unfolding args_loop after_args
parse_method_descriptor [] = error Message.expected_open
parse_method_descriptor (c ∷ cs) =
    if c == b'('
    then (args_loop (length cs) cs >>= λ p. after_args p.0 p.1)
    else error Message.expected_open
