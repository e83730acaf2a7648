-- ===== src/StackMap/Start.antt =====
-- vm/stackmaptable.c: `init_locals` and `stack_map_frame_iterator_init`, the frame on method entry.
use b_jvm.Common.{
  ℕ, Bool, true, false, List, [], ◌∷◌, ◌++◌, Option, none, some, Bytes, ◌==◌, if◌then◌else◌,
}
use b_jvm.Descriptor.{TypeKind}
use b_jvm.StackMap.{
  Kind, Name, ValidationType, Run, done, fail, fault, ◌>>=◌, Iterator, push_local, push_type, plain,
  stack_map_frame_iterator_next,
}

-- `type_to_validation_type`, on the kinds that represent a field
unfoldable pub type_to_validation_type : TypeKind → Kind
type_to_validation_type TypeKind.reference = Kind.object
type_to_validation_type TypeKind.int = Kind.integer
type_to_validation_type TypeKind.long = Kind.long
type_to_validation_type TypeKind.float = Kind.float
type_to_validation_type TypeKind.double = Kind.double
type_to_validation_type k = Kind.top

-- What the iterator reads of a `cp_method`.
pub record Method : Type 0 where
  pub is_static : Bool
  pub is_ctor : Bool
  pub args : List TypeKind
  pub max_locals : ℕ
  pub max_stack : ℕ
  pub stack_map_table : Option Bytes

unfoldable pub arg_locals : ℕ → List TypeKind → List ValidationType → Run (List ValidationType)
unfolding push_type type_to_validation_type
arg_locals max_locals [] locals = done locals
arg_locals max_locals (k ∷ ks) locals =
    push_type max_locals locals (type_to_validation_type k) >>= arg_locals max_locals ks

unfoldable pub init_locals : Method → Run (List ValidationType)
unfolding arg_locals
init_locals m =
    (if m.is_static
      then done []
      else push_local m.max_locals [] (record {
        kind = if m.is_ctor then Kind.uninit_this else Kind.object;
        name = Name.own_class;
      }))
    >>= arg_locals m.max_locals m.args

starts_with_zero : Bytes → Bool
starts_with_zero [] = false
starts_with_zero (b ∷ bs) = b == 0

abbrev table_or_empty : Option Bytes → Bytes
table_or_empty none = []
table_or_empty (some t) = t

abbrev is_there : Option Bytes → Bool
is_there none = false
is_there (some t) = true

-- The call passes no place for a message, so a failure writes through a null pointer.
without_message : Run Iterator → Run Iterator
without_message (done it) = done it
without_message (fail m) = fault
without_message fault = fault

abbrev start : Method → List ValidationType → Iterator
start m locals = record {
  pc = 0;
  stack = [];
  locals = locals;
  table = table_or_empty m.stack_map_table;
  has_next = is_there m.stack_map_table;
  is_first = true;
  max_locals = m.max_locals;
  max_stack = m.max_stack;
}

-- A first same_frame with offset 0 is skipped.
unfoldable pub stack_map_frame_iterator_init : Method → Run Iterator
unfolding init_locals stack_map_frame_iterator_next starts_with_zero without_message
stack_map_frame_iterator_init m = init_locals m >>= λ locals.
    if starts_with_zero (table_or_empty m.stack_map_table)
    then without_message (stack_map_frame_iterator_next (start m locals))
    else done (start m locals)

unfoldable pub arg_types : List TypeKind → List ValidationType
arg_types [] = []
arg_types (k ∷ ks) = plain (type_to_validation_type k) ∷ arg_types ks

-- The types on method entry: the object itself, and the arguments.
abbrev pub entry_types : Method → List ValidationType
entry_types m =
    (if m.is_static
      then []
      else record {
        kind = if m.is_ctor then Kind.uninit_this else Kind.object;
        name = Name.own_class;
      }
        ∷ [])
    ++ arg_types m.args
