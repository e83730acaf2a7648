-- ===== src/ClassFile/Checked.antt =====
-- vm/classfile.c: what the parser has checked of an instruction.
use b_jvm.Common.{ℕ, ◌+◌, ◌≤◌, ◌<◌, ◌≡◌, true, false, List, [], ◌∷◌, Bytes, length}
use b_jvm.ClassFile.{CpKind, CpEntry}
use b_jvm.ClassFile.Insn.{InsnKind, Operand, is_branch}
use b_jvm.ClassFile.Gives.{IsEntry}
use b_jvm.ClassFile.Switches.{biased}
use b_jvm.ClassFile.Targets.{IsBelow}

-- The kinds of constants that an instruction works on.
abbrev pub allowed : InsnKind → List CpKind
allowed InsnKind.getstatic = CpKind.field_ref ∷ []
allowed InsnKind.putstatic = CpKind.field_ref ∷ []
allowed InsnKind.getfield = CpKind.field_ref ∷ []
allowed InsnKind.putfield = CpKind.field_ref ∷ []
allowed InsnKind.invokevirtual = CpKind.method_ref ∷ CpKind.interface_method_ref ∷ []
allowed InsnKind.invokespecial = CpKind.method_ref ∷ CpKind.interface_method_ref ∷ []
allowed InsnKind.invokestatic = CpKind.method_ref ∷ CpKind.interface_method_ref ∷ []
allowed InsnKind.invokeinterface = CpKind.interface_method_ref ∷ []
allowed InsnKind.invokedynamic = CpKind.invoke_dynamic ∷ []
allowed InsnKind.new = CpKind.class ∷ []
allowed InsnKind.anewarray = CpKind.class ∷ []
allowed InsnKind.checkcast = CpKind.class ∷ []
allowed InsnKind.instanceof = CpKind.class ∷ []
allowed InsnKind.multianewarray = CpKind.class ∷ []
allowed InsnKind.ldc = CpKind.string ∷ CpKind.class ∷ []
allowed k = []

-- A constant has a kind for the instruction; every target of a branch or switch lies in the code; a
-- switch has as many targets as it has keys.
abbrev pub IsChecked : List CpEntry → ℕ → InsnKind → Operand → Type 0
IsChecked pool max_pc kind Operand.nothing = is_branch kind ≡ false
IsChecked pool max_pc kind (Operand.cp n) = (is_branch kind ≡ false) × IsEntry pool n (allowed kind)
IsChecked pool max_pc kind (Operand.index n) = is_branch kind ≡ true → n < max_pc
IsChecked pool max_pc kind (Operand.integer_imm n) = is_branch kind ≡ false
IsChecked pool max_pc kind (Operand.f_imm n) = is_branch kind ≡ false
IsChecked pool max_pc kind (Operand.d_imm n) = is_branch kind ≡ false
IsChecked pool max_pc kind (Operand.iinc i c) = is_branch kind ≡ false
IsChecked pool max_pc kind (Operand.array_type t) = is_branch kind ≡ false
IsChecked pool max_pc kind (Operand.multianewarray n d) =
    (is_branch kind ≡ false) × IsEntry pool n (allowed kind)
IsChecked pool max_pc kind (Operand.tableswitch d low high ts) =
    (is_branch kind ≡ false)
    × (d < max_pc)
    × IsBelow max_pc ts
    × (biased low + length ts ≡ biased high + 1)
IsChecked pool max_pc kind (Operand.lookupswitch d keys ts) =
    (is_branch kind ≡ false) × (d < max_pc) × IsBelow max_pc ts × (length keys ≡ length ts)

-- What a case of the switch reads, after the opcode.
abbrev pub IsRead : List CpEntry → ℕ → Bytes → InsnKind × Operand × Bytes → Type 0
IsRead pool max_pc reader p = (length p.2 ≤ length reader) × IsChecked pool max_pc p.0 p.1
