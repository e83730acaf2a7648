-- ===== src/ClassFile/Tests.antt =====
-- vm/classfile.c on a few bytes of code: runs of the parser, and the theorems at them.
use b_jvm.Common.{arith, ℕ, ◌<◌, ◌≡◌, ◌≢◌, refl, List, [], ◌∷◌, none, some, Bytes, length}
use b_jvm.Descriptor.{
  TypeKind, parse_complete_field_descriptor, read_type_kind_char, kind_to_representable_kind,
}
use b_jvm.ClassFile.Pool.{parse_constant_pool}
use b_jvm.ClassFile.Linked.{LinksTo}
use b_jvm.ClassFile.Finish.{IsDescribed}
use b_jvm.ClassFile.LinkedPool.{parse_constant_pool-LinksTo}
use b_jvm.ClassFile.{CpEntry, ok, reader_next, reader_get_slice}
use b_jvm.ClassFile.Insn.{InsnKind, Operand, BytecodeInsn}
use b_jvm.ClassFile.Parse.{parse_insn}
use b_jvm.ClassFile.Checked.{IsChecked}
use b_jvm.ClassFile.Sound.{parse_insn-IsChecked}
use b_jvm.ClassFile.Code.{
  CodeState, ExceptionTableEntry, parse_insns, convert_pcs_to_insn_indices, parse_exception_table,
  start_of, parse_code_attribute,
}
use b_jvm.ClassFile.Retarget.{IsRetargeted, convert_pcs_to_insn_indices-IsRetargeted}
use b_jvm.ClassFile.Exceptions.{
  AreHandlers, parse_exception_table-IsHandler, parse_code_attribute_ends,
}

abbrev pool : List CpEntry
pool = CpEntry.invalid ∷ CpEntry.utf8 [] ∷ CpEntry.class_info [] ∷ []

abbrev insn : InsnKind → ℕ → Operand → BytecodeInsn
insn kind pc operand = record { kind = kind; original_pc = pc; operand = operand }

reads_anewarray :
    parse_insn pool 20 7 (0xbd ∷ 0 ∷ 2 ∷ 0xb1 ∷ [])
    ≡ ok (insn InsnKind.anewarray 7 (Operand.cp 2), 0xb1 ∷ [])
unfolding parse_insn reader_next
reads_anewarray = refl

-- anewarray #2
parse_insn-IsChecked_example :
    (length {A = ℕ} (0xb1 ∷ []) < length {A = ℕ} (0xbd ∷ 0 ∷ 2 ∷ 0xb1 ∷ []))
    × ◌≡◌ {A = ℕ} 7 7
    × IsChecked pool 20 InsnKind.anewarray (Operand.cp 2)
parse_insn-IsChecked_example =
    parse_insn-IsChecked pool 20 7 (0xbd ∷ 0 ∷ 2 ∷ 0xb1 ∷ []) (0xb1 ∷ [])
      (insn InsnKind.anewarray 7 (Operand.cp 2)) reads_anewarray

-- goto 4; nop; return
abbrev code : Bytes
code = 0xa7 ∷ 0 ∷ 4 ∷ 0 ∷ 0xb1 ∷ []

abbrev state : CodeState
state = record {
  pc_to_insn = some 0 ∷ none ∷ none ∷ some 1 ∷ some 2 ∷ [];
  code =
      insn InsnKind.goto 0 (Operand.index 4)
      ∷ insn InsnKind.nop 3 Operand.nothing
      ∷ insn InsnKind.return 4 Operand.nothing
      ∷ [];
}

abbrev converted : List BytecodeInsn
converted =
    insn InsnKind.goto 0 (Operand.index 2)
    ∷ insn InsnKind.nop 3 Operand.nothing
    ∷ insn InsnKind.return 4 Operand.nothing
    ∷ []

reads_code : parse_insns 5 pool 5 code (start_of 5) ≡ some (ok state)
unfolding parse_insns reader_next
reads_code = refl

converts : convert_pcs_to_insn_indices state.pc_to_insn state.code ≡ ok converted
unfolding convert_pcs_to_insn_indices
converts = refl

convert_pcs_to_insn_indices-IsRetargeted_example : IsRetargeted state.code state.code converted
convert_pcs_to_insn_indices-IsRetargeted_example =
    convert_pcs_to_insn_indices-IsRetargeted pool code state converted reads_code converts

-- The whole code is protected; the handler is the last instruction, for the class #2.
abbrev table : Bytes
table = 0 ∷ 0 ∷ 0 ∷ 5 ∷ 0 ∷ 4 ∷ 0 ∷ 2 ∷ []

abbrev entry : ExceptionTableEntry
entry = record { start_insn = 0; end_insn = 5; handler_insn = 2; catch_type = some 2 }

reads_table : parse_exception_table 1 pool 5 state.pc_to_insn table ≡ ok (entry ∷ [], [])
unfolding parse_exception_table reader_next
reads_table = refl

parse_exception_table-IsHandler_example : AreHandlers pool 5 state.code (entry ∷ [])
parse_exception_table-IsHandler_example =
    parse_exception_table-IsHandler pool code state reads_code 1 table [] (entry ∷ []) reads_table

parse_code_attribute_ends_example :
    parse_code_attribute pool (0 ∷ 1 ∷ 0 ∷ 1 ∷ 0 ∷ 0 ∷ 0 ∷ 5 ∷ code) ≢ none
parse_code_attribute_ends_example =
    parse_code_attribute_ends pool (0 ∷ 1 ∷ 0 ∷ 1 ∷ 0 ∷ 0 ∷ 0 ∷ 5 ∷ code)

-- A field "A.A : I", with the texts "A" and "I".
abbrev pool_bytes : Bytes
pool_bytes =
    0 ∷ 6 ∷ 1 ∷ 0 ∷ 1 ∷ 65 ∷ 7 ∷ 0 ∷ 1 ∷ 1 ∷ 0 ∷ 1 ∷ 73 ∷ 12 ∷ 0 ∷ 1 ∷ 0 ∷ 3 ∷ 9 ∷ 0 ∷ 2 ∷ 0 ∷ 4
    ∷ []

abbrev field : CpEntry
field = CpEntry.field_ref (some 2) (some 4) (
    some (record {
      unparsed = 73 ∷ [];
      base_kind = TypeKind.int;
      repr_kind = TypeKind.int;
      dimensions = 0;
      class_name = [];
    }))

abbrev field_pool : List CpEntry
field_pool =
    CpEntry.invalid
    ∷ CpEntry.utf8 (65 ∷ [])
    ∷ CpEntry.class_info (65 ∷ [])
    ∷ CpEntry.utf8 (73 ∷ [])
    ∷ CpEntry.name_and_type (65 ∷ []) (73 ∷ [])
    ∷ field
    ∷ CpEntry.invalid
    ∷ []

reads_pool : parse_constant_pool pool_bytes ≡ ok (field_pool, [])
unfolding parse_constant_pool reader_next reader_get_slice parse_complete_field_descriptor
    read_type_kind_char kind_to_representable_kind
reads_pool = refl

parse_constant_pool-LinksTo_example : LinksTo field_pool field × IsDescribed field
parse_constant_pool-LinksTo_example =
    parse_constant_pool-LinksTo pool_bytes [] field_pool reads_pool 5 field (omega arith) refl
