-- ===== src/ClassFile/Locals.antt =====
-- vm/classfile.c, `parse_insn_impl`: the cases of its switch. Each says what its case reads and
-- returns; here those of constants and locals.
use b_jvm.Common.{◌-◌, ◌^◌, List, [], ◌∷◌}
use Prim.Native.String.{String}
use b_jvm.ClassFile.{CpKind}
use b_jvm.ClassFile.Insn.{InsnKind, Operand}

pub data Form : Type 0 where
  -- no more to read
  fixed : InsnKind → Operand → Form
  -- the index of a local, a u8
  local : InsnKind → String → Form
  -- the offset of a branch, an s16 or an s32
  branch branch_wide : InsnKind → String → Form
  -- the index of a constant, a u16, with the kinds that it can have
  cp_index : InsnKind → String → List CpKind → String → Form
  bipush sipush ldc ldc_w ldc2_w iinc tableswitch lookupswitch invokeinterface invokedynamic : Form
  newarray wide multianewarray : Form
  invalid : Form

-- The opcodes from 0x0 to 0x14.
unfoldable pub constants : List Form
constants =
    Form.fixed InsnKind.nop Operand.nothing
    ∷ Form.fixed InsnKind.aconst_null Operand.nothing
    ∷ Form.fixed InsnKind.iconst (Operand.integer_imm (2 ^ 64 - 1))
    ∷ Form.fixed InsnKind.iconst (Operand.integer_imm 0)
    ∷ Form.fixed InsnKind.iconst (Operand.integer_imm 1)
    ∷ Form.fixed InsnKind.iconst (Operand.integer_imm 2)
    ∷ Form.fixed InsnKind.iconst (Operand.integer_imm 3)
    ∷ Form.fixed InsnKind.iconst (Operand.integer_imm 4)
    ∷ Form.fixed InsnKind.iconst (Operand.integer_imm 5)
    ∷ Form.fixed InsnKind.lconst (Operand.integer_imm 0)
    ∷ Form.fixed InsnKind.lconst (Operand.integer_imm 1)
    ∷ Form.fixed InsnKind.fconst (Operand.f_imm 0)
    ∷ Form.fixed InsnKind.fconst (Operand.f_imm 0x3f800000)
    ∷ Form.fixed InsnKind.fconst (Operand.f_imm 0x40000000)
    ∷ Form.fixed InsnKind.dconst (Operand.d_imm 0)
    ∷ Form.fixed InsnKind.dconst (Operand.d_imm 0x3ff0000000000000)
    ∷ Form.bipush
    ∷ Form.sipush
    ∷ Form.ldc
    ∷ Form.ldc_w
    ∷ Form.ldc2_w
    ∷ []

-- The opcodes from 0x15 to 0x35.
unfoldable pub loads : List Form
loads =
    Form.local InsnKind.iload "iload index"
    ∷ Form.local InsnKind.lload "lload index"
    ∷ Form.local InsnKind.fload "fload index"
    ∷ Form.local InsnKind.dload "dload index"
    ∷ Form.local InsnKind.aload "aload index"
    ∷ Form.fixed InsnKind.iload (Operand.index 0)
    ∷ Form.fixed InsnKind.iload (Operand.index 1)
    ∷ Form.fixed InsnKind.iload (Operand.index 2)
    ∷ Form.fixed InsnKind.iload (Operand.index 3)
    ∷ Form.fixed InsnKind.lload (Operand.index 0)
    ∷ Form.fixed InsnKind.lload (Operand.index 1)
    ∷ Form.fixed InsnKind.lload (Operand.index 2)
    ∷ Form.fixed InsnKind.lload (Operand.index 3)
    ∷ Form.fixed InsnKind.fload (Operand.index 0)
    ∷ Form.fixed InsnKind.fload (Operand.index 1)
    ∷ Form.fixed InsnKind.fload (Operand.index 2)
    ∷ Form.fixed InsnKind.fload (Operand.index 3)
    ∷ Form.fixed InsnKind.dload (Operand.index 0)
    ∷ Form.fixed InsnKind.dload (Operand.index 1)
    ∷ Form.fixed InsnKind.dload (Operand.index 2)
    ∷ Form.fixed InsnKind.dload (Operand.index 3)
    ∷ Form.fixed InsnKind.aload (Operand.index 0)
    ∷ Form.fixed InsnKind.aload (Operand.index 1)
    ∷ Form.fixed InsnKind.aload (Operand.index 2)
    ∷ Form.fixed InsnKind.aload (Operand.index 3)
    ∷ Form.fixed InsnKind.iaload Operand.nothing
    ∷ Form.fixed InsnKind.laload Operand.nothing
    ∷ Form.fixed InsnKind.faload Operand.nothing
    ∷ Form.fixed InsnKind.daload Operand.nothing
    ∷ Form.fixed InsnKind.aaload Operand.nothing
    ∷ Form.fixed InsnKind.baload Operand.nothing
    ∷ Form.fixed InsnKind.caload Operand.nothing
    ∷ Form.fixed InsnKind.saload Operand.nothing
    ∷ []

-- The opcodes from 0x36 to 0x56.
unfoldable pub stores : List Form
stores =
    Form.local InsnKind.istore "istore index"
    ∷ Form.local InsnKind.lstore "lstore index"
    ∷ Form.local InsnKind.fstore "fstore index"
    ∷ Form.local InsnKind.dstore "dstore index"
    ∷ Form.local InsnKind.astore "astore index"
    ∷ Form.fixed InsnKind.istore (Operand.index 0)
    ∷ Form.fixed InsnKind.istore (Operand.index 1)
    ∷ Form.fixed InsnKind.istore (Operand.index 2)
    ∷ Form.fixed InsnKind.istore (Operand.index 3)
    ∷ Form.fixed InsnKind.lstore (Operand.index 0)
    ∷ Form.fixed InsnKind.lstore (Operand.index 1)
    ∷ Form.fixed InsnKind.lstore (Operand.index 2)
    ∷ Form.fixed InsnKind.lstore (Operand.index 3)
    ∷ Form.fixed InsnKind.fstore (Operand.index 0)
    ∷ Form.fixed InsnKind.fstore (Operand.index 1)
    ∷ Form.fixed InsnKind.fstore (Operand.index 2)
    ∷ Form.fixed InsnKind.fstore (Operand.index 3)
    ∷ Form.fixed InsnKind.dstore (Operand.index 0)
    ∷ Form.fixed InsnKind.dstore (Operand.index 1)
    ∷ Form.fixed InsnKind.dstore (Operand.index 2)
    ∷ Form.fixed InsnKind.dstore (Operand.index 3)
    ∷ Form.fixed InsnKind.astore (Operand.index 0)
    ∷ Form.fixed InsnKind.astore (Operand.index 1)
    ∷ Form.fixed InsnKind.astore (Operand.index 2)
    ∷ Form.fixed InsnKind.astore (Operand.index 3)
    ∷ Form.fixed InsnKind.iastore Operand.nothing
    ∷ Form.fixed InsnKind.lastore Operand.nothing
    ∷ Form.fixed InsnKind.fastore Operand.nothing
    ∷ Form.fixed InsnKind.dastore Operand.nothing
    ∷ Form.fixed InsnKind.aastore Operand.nothing
    ∷ Form.fixed InsnKind.bastore Operand.nothing
    ∷ Form.fixed InsnKind.castore Operand.nothing
    ∷ Form.fixed InsnKind.sastore Operand.nothing
    ∷ []
