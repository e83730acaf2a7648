-- ===== src/ClassFile/Pool.antt =====
-- vm/classfile.c: the constant pool, read and then linked. Entries that have not been read are
-- CP_KIND_INVALID, as the arena gives zeroed memory.
use b_jvm.Common.{
  ℕ, zero, suc, ◌-◌, Bool, true, false, List, [], ◌∷◌, Option, none, some, Bytes, get_elem?, set,
  replicate, ◌==◌, if◌then◌else◌,
}
use Prim.Native.String.{String}
use b_jvm.Descriptor
use b_jvm.Descriptor.{
  FieldDescriptor, MethodDescriptor, Parsed, parse_complete_field_descriptor,
  parse_method_descriptor,
}
use b_jvm.ClassFile.{
  CpKind, CpEntry, FormatError, Result, ok, error, ◌>>=◌, reader_next_u8, reader_next_u16,
  reader_next_u32, reader_next_u64, reader_get_slice, sign_extend, checked_cp_entry,
  checked_get_utf8,
}

-- `cp_resolution_pass`
pub data Pass : Type 0 where
  read link : Pass

-- `skip_linking ? null_str() : checked_get_utf8(…)`
unfoldable pub linked_text : Pass → List CpEntry → ℕ → String → Result Bytes
unfolding checked_get_utf8
linked_text Pass.read pool index reason = ok []
linked_text Pass.link pool index reason = checked_get_utf8 pool index reason

-- `skip_linking ? nullptr : checked_cp_entry(…)`
unfoldable pub linked_entry : Pass → List CpEntry → ℕ → List CpKind → String → Result (Option ℕ)
unfolding checked_cp_entry
linked_entry Pass.read pool index kinds reason = ok none
linked_entry Pass.link pool index kinds reason =
    checked_cp_entry pool index kinds reason >>= λ e. ok (some index)

abbrev pub Read : Type 0
Read = Result (CpEntry × Bytes)

-- Class, module and package; string; method type.
unfoldable pub text_entry : Pass → List CpEntry → (Bytes → CpEntry) → String → String → Bytes → Read
unfolding linked_text
text_entry pass pool make index reason reader = do
  (n, r) ← reader_next_u16 reader index
  text ← linked_text pass pool n reason
  ok (make text, r)

unfoldable pub ref_entry : Pass → List CpEntry → (Option ℕ → Option ℕ → CpEntry) → Bytes → Read
unfolding linked_entry
ref_entry pass pool make reader = do
  (class_index, r1) ← reader_next_u16 reader "class index"
  (name_and_type_index, r2) ← reader_next_u16 r1 "name and type index"
  class_info ←
      linked_entry pass pool class_index (CpKind.class ∷ [])
        "fieldref/methodref/interfacemethodref class info"
  name_and_type ←
      linked_entry pass pool name_and_type_index (CpKind.name_and_type ∷ [])
        "fieldref/methodref/interfacemethodref name and type"
  ok (make class_info name_and_type, r2)

unfoldable pub number_entry :
    (Bytes → String → Result (ℕ × Bytes)) → (ℕ → CpEntry) → String → Bytes → Read
number_entry next make reason reader = next reader reason >>= λ p. ok (make p.0, p.1)

unfoldable pub name_and_type_entry : Pass → List CpEntry → Bytes → Read
unfolding linked_text
name_and_type_entry pass pool reader = do
  (name_index, r1) ← reader_next_u16 reader "name index"
  (descriptor_index, r2) ← reader_next_u16 r1 "descriptor index"
  name ← linked_text pass pool name_index "name and type name"
  descriptor ← linked_text pass pool descriptor_index "name and type descriptor"
  ok (CpEntry.name_and_type name descriptor, r2)

abbrev pub text_in : Pass → Bytes → Bytes
text_in Pass.read s = s
text_in Pass.link s = []

unfoldable pub utf8_entry : Pass → Bytes → Read
utf8_entry pass reader = do
  (size, r1) ← reader_next_u16 reader "utf8 length"
  (text, r2) ← reader_get_slice r1 size "utf8 data"
  ok (CpEntry.utf8 (text_in pass text), r2)

unfoldable pub method_handle_entry : Pass → List CpEntry → Bytes → Read
unfolding linked_entry
method_handle_entry pass pool reader = do
  (handle_kind, r1) ← reader_next_u8 reader "method handle kind"
  (reference_index, r2) ← reader_next_u16 r1 "reference index"
  reference ←
      linked_entry pass pool reference_index
        (CpKind.field_ref ∷ CpKind.method_ref ∷ CpKind.interface_method_ref ∷ [])
        "method handle reference"
  ok (CpEntry.method_handle handle_kind reference, r2)

unfoldable pub indy_entry : Pass → List CpEntry → (ℕ → Option ℕ → CpEntry) → Bytes → Read
unfolding linked_entry
indy_entry pass pool make reader = do
  (method_index, r1) ← reader_next_u16 reader "bootstrap method attr index"
  (name_and_type_index, r2) ← reader_next_u16 r1 "name and type index"
  name_and_type ←
      linked_entry pass pool name_and_type_index (CpKind.name_and_type ∷ []) "indy name and type"
  ok (make method_index name_and_type, r2)

-- The switch of `parse_constant_pool_entry`.
unfoldable pub entry_of : Pass → List CpEntry → ℕ → Bytes → Read
unfolding text_entry ref_entry number_entry name_and_type_entry utf8_entry method_handle_entry
    indy_entry
entry_of pass pool tag reader =
    if tag == 1
    then utf8_entry pass reader
    else if tag == 3
    then number_entry reader_next_u32 (λ n. CpEntry.integer (sign_extend 32 n)) "integer value"
        reader
    else if tag == 4
    then number_entry reader_next_u32 CpEntry.float "double value" reader
    else if tag == 5
    then number_entry reader_next_u64 CpEntry.long "long value" reader
    else if tag == 6
    then number_entry reader_next_u64 CpEntry.double "double value" reader
    else if tag == 7
    then text_entry pass pool CpEntry.class_info "class index" "class info name" reader
    else if tag == 8
    then text_entry pass pool CpEntry.string "string index" "string value" reader
    else if tag == 9
    then ref_entry pass pool (λ c t. CpEntry.field_ref c t none) reader
    else if tag == 10
    then ref_entry pass pool (λ c t. CpEntry.method_ref c t none) reader
    else if tag == 11
    then ref_entry pass pool (λ c t. CpEntry.interface_method_ref c t none) reader
    else if tag == 12
    then name_and_type_entry pass pool reader
    else if tag == 15
    then method_handle_entry pass pool reader
    else if tag == 16
    then text_entry pass pool (λ s. CpEntry.method_type s none) "descriptor index"
        "method type descriptor" reader
    else if tag == 17
    then indy_entry pass pool (λ i t. CpEntry.dynamic_constant i t none) reader
    else if tag == 18
    then indy_entry pass pool (λ i t. CpEntry.invoke_dynamic i t none) reader
    else if tag == 19
    then text_entry pass pool CpEntry.module_info "class index" "class info name" reader
    else if tag == 20
    then text_entry pass pool CpEntry.package_info "class index" "class info name" reader
    else error (FormatError.static "Invalid constant pool entry kind")

unfoldable pub parse_constant_pool_entry : Pass → List CpEntry → Bytes → Read
unfolding entry_of
parse_constant_pool_entry pass pool reader =
    reader_next_u8 reader "cp kind" >>= λ p. entry_of pass pool p.0 p.1

abbrev pub is_wide : CpEntry → Bool
is_wide (CpEntry.long n) = true
is_wide (CpEntry.double n) = true
is_wide e = false

-- The second pass keeps the texts that the first has read.
abbrev pub stored : Pass → ℕ → CpEntry → List CpEntry → List CpEntry
stored Pass.read i e pool = set pool i e
stored Pass.link i (CpEntry.utf8 s) pool = pool
stored Pass.link i e pool = set pool i e

-- After a long or a double, the next index is invalid.
abbrev pub skipped : ℕ → Bool → List CpEntry → List CpEntry
skipped i true pool = set pool (suc i) CpEntry.invalid
skipped i false pool = pool

-- One pass over the indices from `i` on; `skip` where `i` follows a long or a double.
unfoldable pub parse_entries :
    ℕ → Pass → ℕ → Bool → List CpEntry → Bytes → Result (List CpEntry × Bytes)
unfolding parse_constant_pool_entry
parse_entries zero pass i skip pool reader = ok (pool, reader)
parse_entries (suc n) pass i true pool reader = parse_entries n pass (suc i) false pool reader
parse_entries (suc n) pass i false pool reader = parse_constant_pool_entry pass pool reader >>= λ p.
    parse_entries n pass (suc i) (is_wide p.0) (skipped i (is_wide p.0) (stored pass i p.0 pool))
      p.1

-- The name and the descriptor of a name-and-type entry.
abbrev name_and_type_of : Option CpEntry → Bytes × Bytes
name_and_type_of (some (CpEntry.name_and_type name descriptor)) = (name, descriptor)
name_and_type_of o = ([], [])

abbrev pub nat_at : List CpEntry → Option ℕ → Bytes × Bytes
nat_at pool none = ([], [])
nat_at pool (some i) = name_and_type_of (get_elem? pool i)

abbrev pub described : {A : Type 0} → (Descriptor.Message → FormatError) → Parsed A → Result A
described f (Parsed.ok a) = ok a
described f (Parsed.error m) = error (f m)

unfoldable pub finish_constant_pool_entry : List CpEntry → CpEntry → Result CpEntry
finish_constant_pool_entry pool (CpEntry.field_ref c t d) =
    described FormatError.descriptor (parse_complete_field_descriptor (nat_at pool t).1) >>= λ f.
    ok (CpEntry.field_ref c t (some f))
finish_constant_pool_entry pool (CpEntry.invoke_dynamic i t d) =
    described FormatError.descriptor (parse_method_descriptor (nat_at pool t).1) >>= λ m.
    ok (CpEntry.invoke_dynamic i t (some m))
finish_constant_pool_entry pool (CpEntry.method_ref c t d) =
    described (FormatError.invalid_method (nat_at pool t).0 (nat_at pool t).1)
      (parse_method_descriptor (nat_at pool t).1)
    >>= λ m. ok (CpEntry.method_ref c t (some m))
finish_constant_pool_entry pool (CpEntry.interface_method_ref c t d) =
    described (FormatError.invalid_method (nat_at pool t).0 (nat_at pool t).1)
      (parse_method_descriptor (nat_at pool t).1)
    >>= λ m. ok (CpEntry.interface_method_ref c t (some m))
finish_constant_pool_entry pool (CpEntry.method_type s d) =
    described FormatError.descriptor (parse_method_descriptor s) >>= λ m.
    ok (CpEntry.method_type s (some m))
finish_constant_pool_entry pool e = ok e

-- An index out of range does not occur.
abbrev pub finished_at : List CpEntry → ℕ → Option CpEntry → Result (List CpEntry)
finished_at pool i none = ok pool
finished_at pool i (some e) = finish_constant_pool_entry pool e >>= λ e'. ok (set pool i e')

unfoldable pub finish_entries : ℕ → ℕ → List CpEntry → Result (List CpEntry)
unfolding finish_constant_pool_entry
finish_entries zero i pool = ok pool
finish_entries (suc n) i pool =
    finished_at pool i (get_elem? pool i) >>= λ pool'. finish_entries n (suc i) pool'

unfoldable pub init_constant_pool : ℕ → List CpEntry
init_constant_pool count = replicate (suc count) CpEntry.invalid

unfoldable pub parse_constant_pool : Bytes → Result (List CpEntry × Bytes)
unfolding parse_entries finish_entries init_constant_pool
parse_constant_pool reader = do
  (cp_count, r) ← reader_next_u16 reader "constant pool count"
  (pool, r1) ← parse_entries (cp_count - 1) Pass.read 1 false (init_constant_pool cp_count) r
  (pool', r2) ← parse_entries (cp_count - 1) Pass.link 1 false pool r
  linked ← finish_entries (cp_count - 1) 1 pool'
  ok (linked, r2)
