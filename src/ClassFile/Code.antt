-- ===== src/ClassFile/Code.antt =====
-- vm/classfile.c: the instructions and the exception table of a Code attribute. `pc_to_insn` is a list
-- with `none` for -1. A counted loop recurs on the rounds left.
use b_jvm.Common.{
  ℕ, zero, suc, ◌-◌, ◌||◌, not, List, [], ◌∷◌, ◌++◌, Option, none, some, Bytes, length, get_elem?,
  set, replicate, ltb, leb, ◌==◌, if◌then◌else◌,
}
use b_jvm.ClassFile.{
  CpKind, CpEntry, FormatError, Result, ok, error, ◌>>=◌, reader_next_u16, reader_next_u32,
  reader_get_slice, checked_cp_entry,
}
use b_jvm.ClassFile.Insn.{InsnKind, Operand, BytecodeInsn, is_branch}
use b_jvm.ClassFile.Parse.{parse_insn}

pub record CodeState : Type 0 where
  pub pc_to_insn : List (Option ℕ)
  pub code : List BytecodeInsn

-- `while (code_reader.len > 0)`, in at most `n` rounds; `none` where they are not enough.
unfoldable pub parse_insns : ℕ → List CpEntry → ℕ → Bytes → CodeState → Option (Result CodeState)
unfolding parse_insn
parse_insns n pool code_length [] s = some (ok s)
parse_insns zero pool code_length (b ∷ bs) s = none
parse_insns (suc n) pool code_length (b ∷ bs) s =
    let pc = code_length - length (b ∷ bs) in
    let table = set s.pc_to_insn pc (some (length s.code)) in
    elim (parse_insn pool code_length pc (b ∷ bs)) [
      | error e ↦ some (error e)
      | ok (insn, reader) ↦
          parse_insns n pool code_length reader
            (record { pc_to_insn = table; code = s.code ++ (insn ∷ []) })
    ]

abbrev pub found : ℕ → Option (Option ℕ) → Result ℕ
found pc (some (some insn)) = ok insn
found pc (some none) = error (FormatError.program_counter pc)
found pc none = error (FormatError.program_counter pc)

-- A program counter outside the table has been refused before.
unfoldable pub convert_pc_to_insn : List (Option ℕ) → ℕ → Result ℕ
convert_pc_to_insn pc_to_insn pc = found pc (get_elem? pc_to_insn pc)

unfoldable pub convert_all : List (Option ℕ) → List ℕ → Result (List ℕ)
unfolding convert_pc_to_insn
convert_all pc_to_insn [] = ok []
convert_all pc_to_insn (pc ∷ pcs) =
    convert_pc_to_insn pc_to_insn pc >>= λ i. convert_all pc_to_insn pcs >>= λ is. ok (i ∷ is)

-- The body of the loop of `convert_pcs_to_insn_indices`.
unfoldable pub convert_operand : List (Option ℕ) → InsnKind → Operand → Result Operand
unfolding convert_all
convert_operand table kind (Operand.tableswitch d low high ts) =
    convert_pc_to_insn table d >>= λ d'.
    convert_all table ts >>= λ ts'. ok (Operand.tableswitch d' low high ts')
convert_operand table kind (Operand.lookupswitch d keys ts) = convert_pc_to_insn table d >>= λ d'.
    convert_all table ts >>= λ ts'. ok (Operand.lookupswitch d' keys ts')
convert_operand table kind (Operand.index n) =
    if is_branch kind
    then (convert_pc_to_insn table n >>= λ i. ok (Operand.index i))
    else ok (Operand.index n)
convert_operand table kind o = ok o

unfoldable pub convert_pcs_to_insn_indices :
    List (Option ℕ) → List BytecodeInsn → Result (List BytecodeInsn)
unfolding convert_operand
convert_pcs_to_insn_indices table [] = ok []
convert_pcs_to_insn_indices table (insn ∷ code) =
    convert_operand table insn.kind insn.operand >>= λ o.
    convert_pcs_to_insn_indices table code >>= λ rest. ok (record insn { operand = o } ∷ rest)

pub record ExceptionTableEntry : Type 0 where
  pub start_insn : ℕ
  pub end_insn : ℕ
  pub handler_insn : ℕ
  -- none for a null pointer: any exception
  pub catch_type : Option ℕ

unfoldable pub catch_type_of : List CpEntry → ℕ → Result (Option ℕ)
unfolding checked_cp_entry
catch_type_of pool catch_type =
    if catch_type == 0
    then ok none
    else (checked_cp_entry pool catch_type (CpKind.class ∷ []) "exception catch type" >>= λ e.
        ok (some catch_type))

unfoldable pub link_exception :
    List CpEntry → ℕ → List (Option ℕ) → ℕ → ℕ → ℕ → ℕ → Result ExceptionTableEntry
unfolding convert_pc_to_insn catch_type_of
link_exception pool code_length table start_pc end_pc handler_pc catch_type =
    if not (ltb start_pc code_length) || ltb code_length end_pc || not (ltb handler_pc code_length)
    then error (FormatError.static "exception table entry out of bounds")
    else if leb end_pc start_pc
    then error (FormatError.static "exception table entry start >= end")
    else (convert_pc_to_insn table start_pc >>= λ start_insn.
        (if end_pc == code_length then ok code_length else convert_pc_to_insn table end_pc)
        >>= λ end_insn. convert_pc_to_insn table handler_pc >>= λ handler_insn.
            catch_type_of pool catch_type >>= λ c. ok (record {
              start_insn = start_insn;
              end_insn = end_insn;
              handler_insn = handler_insn;
              catch_type = c;
            }))

unfoldable pub parse_exception_table :
    ℕ → List CpEntry → ℕ → List (Option ℕ) → Bytes → Result (List ExceptionTableEntry × Bytes)
unfolding link_exception
parse_exception_table zero pool code_length table reader = ok ([], reader)
parse_exception_table (suc n) pool code_length table reader =
    reader_next_u16 reader "exception start pc" >>= λ start.
    reader_next_u16 start.1 "exception end pc" >>= λ last.
    reader_next_u16 last.1 "exception handler pc" >>= λ handler.
    reader_next_u16 handler.1 "exception catch type" >>= λ catching.
    link_exception pool code_length table start.0 last.0 handler.0 catching.0 >>= λ entry.
    parse_exception_table n pool code_length table catching.1 >>= λ p. ok (entry ∷ p.0, p.1)

pub record Code : Type 0 where
  pub max_stack : ℕ
  pub max_locals : ℕ
  pub max_formal_pc : ℕ
  pub code : List BytecodeInsn
  pub exception_table : List ExceptionTableEntry

-- max_stack, max_locals, the code's bytes, and what follows them
unfoldable pub read_header : Bytes → Result (ℕ × ℕ × Bytes × Bytes)
read_header reader = do
  (max_stack, r1) ← reader_next_u16 reader "max stack"
  (max_locals, r2) ← reader_next_u16 r1 "max locals"
  (code_length, r3) ← reader_next_u32 r2 "code length"
  (code, r4) ← reader_get_slice r3 code_length "code"
  ok (max_stack, max_locals, code, r4)

unfoldable pub finish_code : List CpEntry → ℕ → ℕ → ℕ → Bytes → CodeState → Result (Code × Bytes)
unfolding convert_pcs_to_insn_indices parse_exception_table
finish_code pool max_stack max_locals code_length reader s = do
  code ← convert_pcs_to_insn_indices s.pc_to_insn s.code
  (exception_table_length, r1) ← reader_next_u16 reader "exception table length"
  (table, r2) ← parse_exception_table exception_table_length pool code_length s.pc_to_insn r1
  ok (
    record {
      max_stack = max_stack;
      max_locals = max_locals;
      max_formal_pc = code_length;
      code = code;
      exception_table = table;
    },
    r2,
  )

abbrev pub start_of : ℕ → CodeState
start_of code_length = record { pc_to_insn = replicate code_length none; code = [] }

abbrev pub finished :
    List CpEntry
    → ℕ
    → ℕ
    → Bytes
    → Bytes
    → Option (Result CodeState)
    → Option (Result (Code × Bytes))
finished pool max_stack max_locals code rest none = none
finished pool max_stack max_locals code rest (some (error e)) = some (error e)
finished pool max_stack max_locals code rest (some (ok s)) =
    some (finish_code pool max_stack max_locals (length code) rest s)

abbrev pub parsed : List CpEntry → Result (ℕ × ℕ × Bytes × Bytes) → Option (Result (Code × Bytes))
parsed pool (error e) = some (error e)
parsed pool (ok (max_stack, max_locals, code, rest)) =
    finished pool max_stack max_locals code rest
      (parse_insns (length code) pool (length code) code (start_of (length code)))

-- `parse_code_attribute` up to the attributes of the attribute, which the rest of the bytes holds.
unfoldable pub parse_code_attribute : List CpEntry → Bytes → Option (Result (Code × Bytes))
unfolding read_header parse_insns finish_code
parse_code_attribute pool reader = parsed pool (read_header reader)
