-- ===== src/ClassFile/Sound.antt =====
-- vm/classfile.c: what the reader of an instruction has checked, for every opcode.
use b_jvm.Common.{
  ℕ, ◌<◌, ◌≡◌, refl, sym, subst, Bool, true, false, not, ◌&&◌, List, [], ◌∷◌, Bytes, length, arith,
}
use Prim.Native.String.{String}
use b_jvm.ClassFile.{CpKind, CpEntry, ok}
use b_jvm.ClassFile.Insn.{InsnKind, Operand, BytecodeInsn, is_branch}
use b_jvm.ClassFile.Locals.{Form}
use b_jvm.ClassFile.Opcodes.{form}
use b_jvm.ClassFile.Cases.{
  Reads, later, read_local-IsRead, read_branch-IsRead, read_cp-IsRead, parse_widened-IsRead,
  parse_iinc-IsRead, parse_ldc-IsRead, parse_ldc2_w-IsRead, parse_invokeinterface-IsRead,
  parse_invokedynamic-IsRead, parse_multianewarray-IsRead, parse_newarray-IsRead,
  read_immediate-IsRead,
}
use b_jvm.ClassFile.Parse.{parse_form, parse_insn_impl, parse_insn, read_cp}
use b_jvm.ClassFile.Gives.{Gives, Gives-bind, Gives-map, Gives-ok, reader_next-Takes}
use b_jvm.ClassFile.Targets.{parse_tableswitch_insn-IsBelow, parse_lookupswitch_insn-IsBelow}
use b_jvm.ClassFile.Checked.{IsChecked, allowed}
use b_jvm.ClassFile.Table.{is_plain, is_consistent, form-is_consistent, same_kinds, is_some_kind}

module _ (pool : List CpEntry) (max_pc : ℕ) where
  fixed-IsChecked :
      (k : InsnKind) (o : Operand)
      → is_branch k ≡ false
      → is_plain o ≡ true
      → IsChecked pool max_pc k o
  fixed-IsChecked k Operand.nothing h p = h
  fixed-IsChecked k (Operand.cp n) h p = cc
  fixed-IsChecked k (Operand.index n) h p = λ b. cc (h, b)
  fixed-IsChecked k (Operand.integer_imm n) h p = h
  fixed-IsChecked k (Operand.f_imm n) h p = h
  fixed-IsChecked k (Operand.d_imm n) h p = h
  fixed-IsChecked k (Operand.iinc i c) h p = cc
  fixed-IsChecked k (Operand.array_type t) h p = cc
  fixed-IsChecked k (Operand.multianewarray n d) h p = cc
  fixed-IsChecked k (Operand.tableswitch d l u ts) h p = cc
  fixed-IsChecked k (Operand.lookupswitch d ks ts) h p = cc

  both : (a b : Bool) → (not a && b) ≡ true → (a ≡ false) × (b ≡ true)
  both a b h = ground arith

  cp_index-IsRead :
      (k : InsnKind) (reason : String) (ks : List CpKind) (reading : String) (reader : Bytes)
      → is_branch k ≡ false
      → (is_some_kind ks && same_kinds ks (allowed k)) ≡ true
      → Reads pool max_pc reader (read_cp pool k reason ks reading reader)
  cp_index-IsRead k reason [] reading reader h p = cc
  cp_index-IsRead k reason (c ∷ cs) reading reader h p =
      read_cp-IsRead pool max_pc k reason reading c cs reader h p

  parse_form-IsRead :
      (pc op : ℕ) (reader : Bytes) (f : Form)
      → is_consistent f ≡ true
      → Reads pool max_pc reader (parse_form pool max_pc pc op reader f)
  unfolding parse_form
  parse_form-IsRead pc op reader (Form.fixed k o) h =
      let (a, b) = both (is_branch k) (is_plain o) h in
      Gives.good (omega arith, fixed-IsChecked k o a b)
  parse_form-IsRead pc op reader (Form.local k r) h =
      read_local-IsRead pool max_pc k r 1 reader (ground arith)
  parse_form-IsRead pc op reader (Form.branch k r) h =
      read_branch-IsRead pool max_pc k r 2 pc reader
  parse_form-IsRead pc op reader (Form.branch_wide k r) h =
      read_branch-IsRead pool max_pc k r 4 pc reader
  parse_form-IsRead pc op reader (Form.cp_index k r ks s) h =
      let (a, b) = both (is_branch k) (is_some_kind ks && same_kinds ks (allowed k)) h in
      cp_index-IsRead k r ks s reader a b
  parse_form-IsRead pc op reader Form.bipush h =
      read_immediate-IsRead pool max_pc 1 "bipush immediate" reader
  parse_form-IsRead pc op reader Form.sipush h =
      read_immediate-IsRead pool max_pc 2 "sipush immediate" reader
  parse_form-IsRead pc op reader Form.ldc h =
      Gives-bind (reader_next-Takes 1 reader "ldc index")
        λ p k. later pool max_pc reader p.1 (omega arith) (parse_ldc-IsRead pool max_pc p.0 p.1)
  parse_form-IsRead pc op reader Form.ldc_w h =
      Gives-bind (reader_next-Takes 2 reader "ldc_w index")
        λ p k. later pool max_pc reader p.1 (omega arith) (parse_ldc-IsRead pool max_pc p.0 p.1)
  parse_form-IsRead pc op reader Form.ldc2_w h =
      Gives-bind (reader_next-Takes 2 reader "ldc2_w index")
        λ p k. later pool max_pc reader p.1 (omega arith) (parse_ldc2_w-IsRead pool max_pc p.0 p.1)
  parse_form-IsRead pc op reader Form.iinc h = parse_iinc-IsRead pool max_pc reader
  parse_form-IsRead pc op reader Form.tableswitch h =
      Gives-bind (parse_tableswitch_insn-IsBelow pc max_pc reader) λ p k.
        let (le, rest) = k in
        let (d, low, high, ts, e, lt, below, n) = rest in
        Gives.good (
          le,
          subst (λ o. IsChecked pool max_pc InsnKind.tableswitch o) (sym e) (refl, lt, below, n),
        )
  parse_form-IsRead pc op reader Form.lookupswitch h =
      Gives-bind (parse_lookupswitch_insn-IsBelow pc max_pc reader) λ p k.
        let (le, rest) = k in
        let (d, keys, ts, e, lt, below, n) = rest in
        Gives.good (
          le,
          subst (λ o. IsChecked pool max_pc InsnKind.lookupswitch o) (sym e) (refl, lt, below, n),
        )
  parse_form-IsRead pc op reader Form.invokeinterface h =
      parse_invokeinterface-IsRead pool max_pc reader
  parse_form-IsRead pc op reader Form.invokedynamic h =
      parse_invokedynamic-IsRead pool max_pc reader
  parse_form-IsRead pc op reader Form.newarray h = parse_newarray-IsRead pool max_pc reader
  parse_form-IsRead pc op reader Form.wide h =
      Gives-bind (reader_next-Takes 1 reader "widened opcode")
        λ p k. later pool max_pc reader p.1 (omega arith) (parse_widened-IsRead pool max_pc p.0 p.1)
  parse_form-IsRead pc op reader Form.multianewarray h =
      parse_multianewarray-IsRead pool max_pc reader
  parse_form-IsRead pc op reader Form.invalid h = Gives.bad

  parse_insn_impl-IsRead :
      (pc : ℕ) (reader : Bytes)
      → Gives
          (λ p. (length p.2 < length reader) × IsChecked pool max_pc p.0 p.1)
          (parse_insn_impl pool max_pc pc reader)
  unfolding parse_insn_impl
  parse_insn_impl-IsRead pc reader =
      Gives-bind (reader_next-Takes 1 reader "instruction opcode") λ p k.
        Gives-map (parse_form-IsRead pc p.0 p.1 (form p.0) (form-is_consistent p.0))
          (λ q m. (omega arith, m.1))

  pub parse_insn-IsRead :
      (pc : ℕ) (reader : Bytes)
      → Gives
          (λ p.
            (length p.1 < length reader)
            × (p.0.original_pc ≡ pc)
            × IsChecked pool max_pc p.0.kind p.0.operand)
          (parse_insn pool max_pc pc reader)
  unfolding parse_insn
  parse_insn-IsRead pc reader =
      Gives-bind (parse_insn_impl-IsRead pc reader) λ p k. Gives.good (k.0, refl, k.1)

-- An instruction that is read takes at least one byte and has its program counter. Its constant
-- has one of the kinds that the instruction works on; the targets of a branch or a switch lie in
-- the code; a tableswitch has as many targets as its range has values, and a lookupswitch as many
-- as keys.
pub parse_insn-IsChecked :
    (pool : List CpEntry) (max_pc pc : ℕ) (reader rest : Bytes) (insn : BytecodeInsn)
    → parse_insn pool max_pc pc reader ≡ ok (insn, rest)
    → (length rest < length reader)
      × (insn.original_pc ≡ pc)
      × IsChecked pool max_pc insn.kind insn.operand
parse_insn-IsChecked pool max_pc pc reader rest insn e =
    Gives-ok (parse_insn-IsRead pool max_pc pc reader) e
