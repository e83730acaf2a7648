-- ===== src/ClassFile.antt =====
-- vm/classfile.c and vm/classfile.h: the reader over the bytes of a class file, and the entries of the
-- constant pool with the checks of their kinds. A pointer to an entry is the entry's index, its
-- `my_index`. A format error ends the parse (`longjmp`), so it is a result; the message is its text, or
-- the values that are printed into it.
use b_jvm.Common.{
  ℕ, zero, suc, ◌+◌, ◌-◌, ◌*◌, ◌^◌, Bool, true, false, ◌||◌, List, [], ◌∷◌, Option, none, some,
  Bytes, length, take, drop, get_elem?, ltb, ◌==◌, if◌then◌else◌,
}
use Prim.Native.String.{String}
use b_jvm.Descriptor
use b_jvm.Descriptor.{FieldDescriptor, MethodDescriptor}
mod Insn
mod Locals
mod Opcodes
mod Switches
mod Parse
mod Gives
mod Targets
mod Checked
mod Table
mod Cases
mod Sound
mod Code
mod Resolve
mod Retarget
mod Exceptions
mod Pool
mod Linked
mod Kinds
mod Passes
mod LinkPass
mod Finish
mod LinkedPool
mod Tests

-- `cp_kind`, in the order of its bits, after CP_KIND_INVALID
pub data CpKind : Type 0 where
  invalid utf8 integer float long double class string field_ref method_ref interface_method_ref :
      CpKind
  name_and_type method_handle method_type invoke_dynamic dynamic_constant module_kind package_kind :
      CpKind

-- 0 for CP_KIND_INVALID, and n + 1 for the bit n
abbrev pub bit : CpKind → ℕ
bit CpKind.invalid = 0
bit CpKind.utf8 = 1
bit CpKind.integer = 2
bit CpKind.float = 3
bit CpKind.long = 4
bit CpKind.double = 5
bit CpKind.class = 6
bit CpKind.string = 7
bit CpKind.field_ref = 8
bit CpKind.method_ref = 9
bit CpKind.interface_method_ref = 10
bit CpKind.name_and_type = 11
bit CpKind.method_handle = 12
bit CpKind.method_type = 13
bit CpKind.invoke_dynamic = 14
bit CpKind.dynamic_constant = 15
bit CpKind.module_kind = 16
bit CpKind.package_kind = 17

pub data FormatError : Type 0 where
  static : String → FormatError
  end_of_slice : String → FormatError
  cp_index : ℕ → ℕ → String → FormatError
  cp_kind : CpKind → List CpKind → String → FormatError
  descriptor : Descriptor.Message → FormatError
  invalid_method : Bytes → Bytes → Descriptor.Message → FormatError
  newarray_type invalid_opcode invalid_wide program_counter : ℕ → FormatError

pub data Result (A : Type 0) : Type 0 where
  ok : A → Result A
  error : FormatError → Result A

infixl 5 ◌>>=◌
abbrev pub ◌>>=◌ : {A B : Type 0} → Result A → (A → Result B) → Result B
ok a >>= f = f a
error e >>= f = error e

-- The bytes from the reader's pointer on, and what is left.
unfoldable pub reader_advance : Bytes → String → ℕ → Result (Bytes × Bytes)
reader_advance reader reason len =
    if ltb (length reader) len
    then error (FormatError.static reason)
    else ok (take len reader, drop len reader)

-- `read_u16_be` and the like: big-endian
unfoldable pub read_be : ℕ → Bytes → ℕ
read_be n [] = n
read_be n (b ∷ bs) = read_be (256 * n + b) bs

-- READER_NEXT_IMPL(8 * size)
unfoldable pub reader_next : ℕ → Bytes → String → Result (ℕ × Bytes)
unfolding reader_advance read_be
reader_next size reader reason = reader_advance reader reason size >>= λ p. ok (read_be 0 p.0, p.1)

-- An intN_t has the bits of the uintN_t.
abbrev pub reader_next_u8 : Bytes → String → Result (ℕ × Bytes)
reader_next_u8 = reader_next 1

abbrev pub reader_next_u16 : Bytes → String → Result (ℕ × Bytes)
reader_next_u16 = reader_next 2

abbrev pub reader_next_u32 : Bytes → String → Result (ℕ × Bytes)
reader_next_u32 = reader_next 4

abbrev pub reader_next_u64 : Bytes → String → Result (ℕ × Bytes)
reader_next_u64 = reader_next 8

unfoldable pub reader_get_slice : Bytes → ℕ → String → Result (Bytes × Bytes)
reader_get_slice reader len reason =
    if ltb (length reader) len
    then error (FormatError.end_of_slice reason)
    else ok (take len reader, drop len reader)

-- The bits of an intN_t, as those of the int64_t that it is converted to.
abbrev pub sign_extend : ℕ → ℕ → ℕ
sign_extend width n = if ltb n (2 ^ (width - 1)) then n else n + (2 ^ 64 - 2 ^ width)

-- `cp_entry`. Numbers and floats are their bits; an entry that is not linked yet has null pointers,
-- and the empty text for a null slice.
pub data CpEntry : Type 0 where
  invalid : CpEntry
  utf8 : Bytes → CpEntry
  integer float long double : ℕ → CpEntry
  class_info module_info package_info : Bytes → CpEntry
  string : Bytes → CpEntry
  field_ref : Option ℕ → Option ℕ → Option FieldDescriptor → CpEntry
  method_ref interface_method_ref : Option ℕ → Option ℕ → Option MethodDescriptor → CpEntry
  name_and_type : Bytes → Bytes → CpEntry
  method_handle : ℕ → Option ℕ → CpEntry
  method_type : Bytes → Option MethodDescriptor → CpEntry
  -- the index of the bootstrap method, the name and type, and the descriptor
  dynamic_constant invoke_dynamic : ℕ → Option ℕ → Option MethodDescriptor → CpEntry

abbrev pub kind_of : CpEntry → CpKind
kind_of CpEntry.invalid = CpKind.invalid
kind_of (CpEntry.utf8 s) = CpKind.utf8
kind_of (CpEntry.integer n) = CpKind.integer
kind_of (CpEntry.float n) = CpKind.float
kind_of (CpEntry.long n) = CpKind.long
kind_of (CpEntry.double n) = CpKind.double
kind_of (CpEntry.class_info name) = CpKind.class
kind_of (CpEntry.module_info name) = CpKind.module_kind
kind_of (CpEntry.package_info name) = CpKind.package_kind
kind_of (CpEntry.string s) = CpKind.string
kind_of (CpEntry.field_ref c nat d) = CpKind.field_ref
kind_of (CpEntry.method_ref c nat d) = CpKind.method_ref
kind_of (CpEntry.interface_method_ref c nat d) = CpKind.interface_method_ref
kind_of (CpEntry.name_and_type n d) = CpKind.name_and_type
kind_of (CpEntry.method_handle k r) = CpKind.method_handle
kind_of (CpEntry.method_type d p) = CpKind.method_type
kind_of (CpEntry.dynamic_constant i nat d) = CpKind.dynamic_constant
kind_of (CpEntry.invoke_dynamic i nat d) = CpKind.invoke_dynamic

-- `entry->kind & expected_kinds`
abbrev pub is_expected : List CpKind → CpKind → Bool
is_expected [] k = false
is_expected (e ∷ es) k = if bit e == bit k then true else is_expected es k

unfoldable pub check_cp_entry : CpEntry → List CpKind → String → Result CpEntry
check_cp_entry entry [] reason = ok entry
check_cp_entry entry (k ∷ ks) reason =
    if is_expected (k ∷ ks) (kind_of entry)
    then ok entry
    else error (FormatError.cp_kind (kind_of entry) (k ∷ ks) reason)

abbrev checked : List CpEntry → ℕ → List CpKind → String → Option CpEntry → Result CpEntry
checked pool index kinds reason none = error (FormatError.cp_index index (length pool) reason)
checked pool index kinds reason (some entry) = check_cp_entry entry kinds reason

unfoldable pub checked_cp_entry : List CpEntry → ℕ → List CpKind → String → Result CpEntry
unfolding check_cp_entry
checked_cp_entry pool index kinds reason = checked pool index kinds reason (get_elem? pool index)

abbrev text_of : CpEntry → Bytes
text_of (CpEntry.utf8 s) = s
text_of e = []

unfoldable pub checked_get_utf8 : List CpEntry → ℕ → String → Result Bytes
unfolding checked_cp_entry
checked_get_utf8 pool index reason =
    checked_cp_entry pool index (CpKind.utf8 ∷ []) reason >>= λ e. ok (text_of e)
