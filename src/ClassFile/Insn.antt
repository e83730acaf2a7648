-- ===== src/ClassFile/Insn.antt =====
-- vm/classfile.h: an instruction as the interpreter has it.
use b_jvm.Common.{ℕ, Bool, true, false, List}
use b_jvm.Descriptor.{TypeKind}

-- `insn_code_kind`, without the kinds that only resolution and the intrinsics give
pub data InsnKind : Type 0 where
  nop aaload aastore aconst_null areturn arraylength athrow baload bastore caload : InsnKind
  castore d2f d2i d2l dadd daload dastore dcmpg dcmpl ddiv dmul dneg drem dreturn dsub : InsnKind
  dup dup_x1 dup_x2 dup2 dup2_x1 dup2_x2 f2d f2i f2l fadd faload fastore fcmpg fcmpl : InsnKind
  fdiv fmul fneg frem freturn fsub i2b i2c i2d i2f i2l i2s iadd iaload iand iastore : InsnKind
  idiv imul ineg ior irem ireturn ishl ishr isub iushr ixor l2d l2f l2i ladd laload : InsnKind
  land lastore lcmp ldiv lmul lneg lor lrem lreturn lshl lshr lsub lushr lxor : InsnKind
  monitorenter monitorexit pop pop2 return saload sastore swap anewarray checkcast : InsnKind
  getfield getstatic instanceof invokedynamic new putfield putstatic invokevirtual : InsnKind
  invokespecial invokestatic ldc dload fload iload lload dstore fstore istore lstore : InsnKind
  aload astore goto jsr if_acmpeq if_acmpne if_icmpeq if_icmpne if_icmplt if_icmpge : InsnKind
  if_icmpgt if_icmple ifeq ifne iflt ifge ifgt ifle ifnonnull ifnull iconst dconst : InsnKind
  fconst lconst iinc invokeinterface multianewarray newarray tableswitch lookupswitch : InsnKind
  ret : InsnKind

-- What the kind says to be in use of the union: a pointer into the constant pool, the index of a local
-- or of an instruction (before the conversion a program counter), or an immediate, as bits.
pub data Operand : Type 0 where
  nothing : Operand
  cp : ℕ → Operand
  index : ℕ → Operand
  integer_imm f_imm d_imm : ℕ → Operand
  -- index and constant
  iinc : ℕ → ℕ → Operand
  array_type : TypeKind → Operand
  -- entry and dimensions
  multianewarray : ℕ → ℕ → Operand
  -- default target, low, high and targets
  tableswitch : ℕ → ℕ → ℕ → List ℕ → Operand
  -- default target, keys and targets
  lookupswitch : ℕ → List ℕ → List ℕ → Operand

pub record BytecodeInsn : Type 0 where
  pub kind : InsnKind
  pub original_pc : ℕ
  pub operand : Operand

-- `kind >= insn_goto && kind <= insn_ifnull`
abbrev pub is_branch : InsnKind → Bool
is_branch InsnKind.goto = true
is_branch InsnKind.jsr = true
is_branch InsnKind.if_acmpeq = true
is_branch InsnKind.if_acmpne = true
is_branch InsnKind.if_icmpeq = true
is_branch InsnKind.if_icmpne = true
is_branch InsnKind.if_icmplt = true
is_branch InsnKind.if_icmpge = true
is_branch InsnKind.if_icmpgt = true
is_branch InsnKind.if_icmple = true
is_branch InsnKind.ifeq = true
is_branch InsnKind.ifne = true
is_branch InsnKind.iflt = true
is_branch InsnKind.ifge = true
is_branch InsnKind.ifgt = true
is_branch InsnKind.ifle = true
is_branch InsnKind.ifnonnull = true
is_branch InsnKind.ifnull = true
is_branch k = false
