-- ===== src/ClassFile/Parse.antt =====
-- vm/classfile.c: an instruction is read at a program counter. `max_pc` is `current_code_max_pc`, and
-- `pool` the constant pool of the context. Immediates are the bits of the signed numbers.
use b_jvm.Common.{ℕ, ◌*◌, ◌%◌, ◌^◌, List, [], ◌∷◌, Bytes, ◌==◌, if◌then◌else◌}
use Prim.Native.String.{String}
use b_jvm.Descriptor.{TypeKind}
use b_jvm.ClassFile.{
  CpKind, CpEntry, FormatError, Result, ok, error, ◌>>=◌, reader_next, reader_next_u8,
  reader_next_u16, sign_extend, checked_cp_entry,
}
use b_jvm.ClassFile.Insn.{InsnKind, Operand, BytecodeInsn}
use b_jvm.ClassFile.Locals.{Form}
use b_jvm.ClassFile.Opcodes.{form}
use b_jvm.ClassFile.Switches.{checked_pc, parse_tableswitch_insn, parse_lookupswitch_insn}

unfoldable pub parse_atype : ℕ → Result TypeKind
parse_atype atype =
    if atype == 4
    then ok TypeKind.boolean
    else if atype == 5
    then ok TypeKind.char
    else if atype == 6
    then ok TypeKind.float
    else if atype == 7
    then ok TypeKind.double
    else if atype == 8
    then ok TypeKind.byte
    else if atype == 9
    then ok TypeKind.short
    else if atype == 10
    then ok TypeKind.int
    else if atype == 11
    then ok TypeKind.long
    else error (FormatError.newarray_type atype)

-- What a case returns, but for `original_pc`.
abbrev pub Parsed : Type 0
Parsed = Result (InsnKind × Operand × Bytes)

abbrev pub ldc_kinds : List CpKind
ldc_kinds = CpKind.integer ∷ CpKind.float ∷ CpKind.string ∷ CpKind.class ∷ []

-- An int or a float becomes an immediate.
abbrev pub loaded : ℕ → CpEntry → InsnKind × Operand
loaded index (CpEntry.integer n) = (InsnKind.iconst, Operand.integer_imm n)
loaded index (CpEntry.float n) = (InsnKind.fconst, Operand.f_imm n)
loaded index (CpEntry.long n) = (InsnKind.lconst, Operand.integer_imm n)
loaded index (CpEntry.double n) = (InsnKind.dconst, Operand.d_imm n)
loaded index e = (InsnKind.ldc, Operand.cp index)

unfoldable pub parse_ldc : List CpEntry → ℕ → Bytes → Parsed
unfolding checked_cp_entry
parse_ldc pool index reader = do
  entry ← checked_cp_entry pool index ldc_kinds "ldc/ldc_w index"
  let (kind, operand) = loaded index entry
  ok (kind, operand, reader)

unfoldable pub parse_ldc2_w : List CpEntry → ℕ → Bytes → Parsed
unfolding checked_cp_entry
parse_ldc2_w pool index reader = do
  entry ← checked_cp_entry pool index (CpKind.double ∷ CpKind.long ∷ []) "ldc2_w index"
  let (kind, operand) = loaded index entry
  ok (kind, operand, reader)

unfoldable pub read_local : InsnKind → String → ℕ → Bytes → Parsed
read_local kind reason size reader =
    reader_next size reader reason >>= λ p. ok (kind, Operand.index p.0, p.1)

unfoldable pub parse_wide_iinc : Bytes → Parsed
parse_wide_iinc reader = do
  (index, r1) ← reader_next_u16 reader "wide iinc index"
  (constant, r2) ← reader_next_u16 r1 "wide iinc const"
  ok (InsnKind.iinc, Operand.iinc index constant, r2)

-- The switch over the widened opcode. The message of its default case names the opcode of `wide`.
unfoldable pub parse_widened : ℕ → Bytes → Parsed
unfolding read_local parse_wide_iinc
parse_widened opcode reader =
    if opcode == 0x15
    then read_local InsnKind.iload "wide iload index" 2 reader
    else if opcode == 0x16
    then read_local InsnKind.lload "wide lload index" 2 reader
    else if opcode == 0x17
    then read_local InsnKind.fload "wide fload index" 2 reader
    else if opcode == 0x18
    then read_local InsnKind.dload "wide dload index" 2 reader
    else if opcode == 0x19
    then read_local InsnKind.aload "wide aload index" 2 reader
    else if opcode == 0x36
    then read_local InsnKind.istore "wide istore index" 2 reader
    else if opcode == 0x37
    then read_local InsnKind.lstore "wide lstore index" 2 reader
    else if opcode == 0x38
    then read_local InsnKind.fstore "wide fstore index" 2 reader
    else if opcode == 0x39
    then read_local InsnKind.dstore "wide dstore index" 2 reader
    else if opcode == 0x3a
    then read_local InsnKind.astore "wide astore index" 2 reader
    else if opcode == 0x84
    then parse_wide_iinc reader
    else if opcode == 0xa9
    then read_local InsnKind.ret "wide ret index" 2 reader
    else error (FormatError.invalid_wide 0xc4)

unfoldable pub parse_iinc : Bytes → Parsed
parse_iinc reader = do
  (index, r1) ← reader_next_u8 reader "iinc index"
  (constant, r2) ← reader_next_u8 r1 "iinc const"
  ok (InsnKind.iinc, Operand.iinc index (sign_extend 8 constant % 2 ^ 16), r2)

-- A branch with an offset of `size` bytes.
unfoldable pub read_branch : InsnKind → String → ℕ → ℕ → ℕ → Bytes → Parsed
unfolding checked_pc
read_branch kind reason size pc max_pc reader = do
  (offset, r) ← reader_next size reader reason
  target ← checked_pc pc (sign_extend (8 * size) offset % 2 ^ 32) max_pc
  ok (kind, Operand.index target, r)

unfoldable pub read_cp : List CpEntry → InsnKind → String → List CpKind → String → Bytes → Parsed
unfolding checked_cp_entry
read_cp pool kind reason kinds reading reader = do
  (index, r) ← reader_next_u16 reader reason
  entry ← checked_cp_entry pool index kinds reading
  ok (kind, Operand.cp index, r)

unfoldable pub parse_invokeinterface : List CpEntry → Bytes → Parsed
unfolding read_cp
parse_invokeinterface pool reader = do
  (kind, operand, r1) ←
      read_cp pool InsnKind.invokeinterface "invokeinterface index"
        (CpKind.interface_method_ref ∷ []) "invokeinterface method ref" reader
  (count, r2) ← reader_next_u8 r1 "invokeinterface count"
  (nil, r3) ← reader_next_u8 r2 "invokeinterface zero"
  ok (kind, operand, r3)

unfoldable pub parse_invokedynamic : List CpEntry → Bytes → Parsed
unfolding read_cp
parse_invokedynamic pool reader = do
  (kind, operand, r1) ←
      read_cp pool InsnKind.invokedynamic "invokedynamic index" (CpKind.invoke_dynamic ∷ [])
        "indy method ref" reader
  (nil, r2) ← reader_next_u16 r1 "invokedynamic zero"
  ok (kind, operand, r2)

unfoldable pub parse_multianewarray : List CpEntry → Bytes → Parsed
unfolding checked_cp_entry
parse_multianewarray pool reader = do
  (index, r1) ← reader_next_u16 reader "multianewarray index"
  (dimensions, r2) ← reader_next_u8 r1 "multianewarray dimensions"
  entry ← checked_cp_entry pool index (CpKind.class ∷ []) "multianewarray class"
  ok (InsnKind.multianewarray, Operand.multianewarray index dimensions, r2)

unfoldable pub parse_newarray : Bytes → Parsed
unfolding parse_atype
parse_newarray reader = do
  (atype, r) ← reader_next_u8 reader "newarray type"
  parsed ← parse_atype atype
  ok (InsnKind.newarray, Operand.array_type parsed, r)

unfoldable pub read_immediate : ℕ → String → Bytes → Parsed
read_immediate size reason reader = reader_next size reader reason >>= λ p.
    ok (InsnKind.iconst, Operand.integer_imm (sign_extend (8 * size) p.0), p.1)

-- What the case of an opcode does.
unfoldable pub parse_form : List CpEntry → ℕ → ℕ → ℕ → Bytes → Form → Parsed
unfolding parse_widened parse_iinc read_branch read_cp parse_invokeinterface parse_invokedynamic
    parse_multianewarray parse_newarray read_immediate read_local parse_ldc parse_ldc2_w
    parse_tableswitch_insn parse_lookupswitch_insn
parse_form pool max_pc pc opcode reader (Form.fixed kind operand) = ok (kind, operand, reader)
parse_form pool max_pc pc opcode reader (Form.local kind reason) = read_local kind reason 1 reader
parse_form pool max_pc pc opcode reader (Form.branch kind reason) =
    read_branch kind reason 2 pc max_pc reader
parse_form pool max_pc pc opcode reader (Form.branch_wide kind reason) =
    read_branch kind reason 4 pc max_pc reader
parse_form pool max_pc pc opcode reader (Form.cp_index kind reason kinds reading) =
    read_cp pool kind reason kinds reading reader
parse_form pool max_pc pc opcode reader Form.bipush = read_immediate 1 "bipush immediate" reader
parse_form pool max_pc pc opcode reader Form.sipush = read_immediate 2 "sipush immediate" reader
parse_form pool max_pc pc opcode reader Form.ldc =
    reader_next_u8 reader "ldc index" >>= λ p. parse_ldc pool p.0 p.1
parse_form pool max_pc pc opcode reader Form.ldc_w =
    reader_next_u16 reader "ldc_w index" >>= λ p. parse_ldc pool p.0 p.1
parse_form pool max_pc pc opcode reader Form.ldc2_w =
    reader_next_u16 reader "ldc2_w index" >>= λ p. parse_ldc2_w pool p.0 p.1
parse_form pool max_pc pc opcode reader Form.iinc = parse_iinc reader
parse_form pool max_pc pc opcode reader Form.tableswitch =
    parse_tableswitch_insn pc max_pc reader >>= λ p. ok (InsnKind.tableswitch, p.0, p.1)
parse_form pool max_pc pc opcode reader Form.lookupswitch =
    parse_lookupswitch_insn pc max_pc reader >>= λ p. ok (InsnKind.lookupswitch, p.0, p.1)
parse_form pool max_pc pc opcode reader Form.invokeinterface = parse_invokeinterface pool reader
parse_form pool max_pc pc opcode reader Form.invokedynamic = parse_invokedynamic pool reader
parse_form pool max_pc pc opcode reader Form.newarray = parse_newarray reader
parse_form pool max_pc pc opcode reader Form.wide =
    reader_next_u8 reader "widened opcode" >>= λ p. parse_widened p.0 p.1
parse_form pool max_pc pc opcode reader Form.multianewarray = parse_multianewarray pool reader
parse_form pool max_pc pc opcode reader Form.invalid = error (FormatError.invalid_opcode opcode)

unfoldable pub parse_insn_impl : List CpEntry → ℕ → ℕ → Bytes → Parsed
unfolding parse_form form
parse_insn_impl pool max_pc pc reader =
    reader_next_u8 reader "instruction opcode" >>= λ p. parse_form pool max_pc pc p.0 p.1 (form p.0)

unfoldable pub parse_insn : List CpEntry → ℕ → ℕ → Bytes → Result (BytecodeInsn × Bytes)
unfolding parse_insn_impl
parse_insn pool max_pc pc reader = parse_insn_impl pool max_pc pc reader >>= λ p.
    ok (record { kind = p.0; original_pc = pc; operand = p.1 }, p.2)
