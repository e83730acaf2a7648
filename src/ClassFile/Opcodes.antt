-- ===== src/ClassFile/Opcodes.antt =====
-- vm/classfile.c, `parse_insn_impl`: the other cases of its switch, and the case of each opcode, which
-- ClassFile/Parse.antt reads.
use b_jvm.Common.{ℕ, ◌-◌, List, [], ◌∷◌, get_or, ltb, if◌then◌else◌}
use b_jvm.ClassFile.{CpKind}
use b_jvm.ClassFile.Insn.{InsnKind, Operand}
use b_jvm.ClassFile.Locals.{Form, constants, loads, stores}

-- The opcodes from 0x57 to 0x83.
unfoldable pub arithmetic : List Form
arithmetic =
    Form.fixed InsnKind.pop Operand.nothing
    ∷ Form.fixed InsnKind.pop2 Operand.nothing
    ∷ Form.fixed InsnKind.dup Operand.nothing
    ∷ Form.fixed InsnKind.dup_x1 Operand.nothing
    ∷ Form.fixed InsnKind.dup_x2 Operand.nothing
    ∷ Form.fixed InsnKind.dup2 Operand.nothing
    ∷ Form.fixed InsnKind.dup2_x1 Operand.nothing
    ∷ Form.fixed InsnKind.dup2_x2 Operand.nothing
    ∷ Form.fixed InsnKind.swap Operand.nothing
    ∷ Form.fixed InsnKind.iadd Operand.nothing
    ∷ Form.fixed InsnKind.ladd Operand.nothing
    ∷ Form.fixed InsnKind.fadd Operand.nothing
    ∷ Form.fixed InsnKind.dadd Operand.nothing
    ∷ Form.fixed InsnKind.isub Operand.nothing
    ∷ Form.fixed InsnKind.lsub Operand.nothing
    ∷ Form.fixed InsnKind.fsub Operand.nothing
    ∷ Form.fixed InsnKind.dsub Operand.nothing
    ∷ Form.fixed InsnKind.imul Operand.nothing
    ∷ Form.fixed InsnKind.lmul Operand.nothing
    ∷ Form.fixed InsnKind.fmul Operand.nothing
    ∷ Form.fixed InsnKind.dmul Operand.nothing
    ∷ Form.fixed InsnKind.idiv Operand.nothing
    ∷ Form.fixed InsnKind.ldiv Operand.nothing
    ∷ Form.fixed InsnKind.fdiv Operand.nothing
    ∷ Form.fixed InsnKind.ddiv Operand.nothing
    ∷ Form.fixed InsnKind.irem Operand.nothing
    ∷ Form.fixed InsnKind.lrem Operand.nothing
    ∷ Form.fixed InsnKind.frem Operand.nothing
    ∷ Form.fixed InsnKind.drem Operand.nothing
    ∷ Form.fixed InsnKind.ineg Operand.nothing
    ∷ Form.fixed InsnKind.lneg Operand.nothing
    ∷ Form.fixed InsnKind.fneg Operand.nothing
    ∷ Form.fixed InsnKind.dneg Operand.nothing
    ∷ Form.fixed InsnKind.ishl Operand.nothing
    ∷ Form.fixed InsnKind.lshl Operand.nothing
    ∷ Form.fixed InsnKind.ishr Operand.nothing
    ∷ Form.fixed InsnKind.lshr Operand.nothing
    ∷ Form.fixed InsnKind.iushr Operand.nothing
    ∷ Form.fixed InsnKind.lushr Operand.nothing
    ∷ Form.fixed InsnKind.iand Operand.nothing
    ∷ Form.fixed InsnKind.land Operand.nothing
    ∷ Form.fixed InsnKind.ior Operand.nothing
    ∷ Form.fixed InsnKind.lor Operand.nothing
    ∷ Form.fixed InsnKind.ixor Operand.nothing
    ∷ Form.fixed InsnKind.lxor Operand.nothing
    ∷ []

-- The opcodes from 0x84 to 0x98.
unfoldable pub conversions : List Form
conversions =
    Form.iinc
    ∷ Form.fixed InsnKind.i2l Operand.nothing
    ∷ Form.fixed InsnKind.i2f Operand.nothing
    ∷ Form.fixed InsnKind.i2d Operand.nothing
    ∷ Form.fixed InsnKind.l2i Operand.nothing
    ∷ Form.fixed InsnKind.l2f Operand.nothing
    ∷ Form.fixed InsnKind.l2d Operand.nothing
    ∷ Form.fixed InsnKind.f2i Operand.nothing
    ∷ Form.fixed InsnKind.f2l Operand.nothing
    ∷ Form.fixed InsnKind.f2d Operand.nothing
    ∷ Form.fixed InsnKind.d2i Operand.nothing
    ∷ Form.fixed InsnKind.d2l Operand.nothing
    ∷ Form.fixed InsnKind.d2f Operand.nothing
    ∷ Form.fixed InsnKind.i2b Operand.nothing
    ∷ Form.fixed InsnKind.i2c Operand.nothing
    ∷ Form.fixed InsnKind.i2s Operand.nothing
    ∷ Form.fixed InsnKind.lcmp Operand.nothing
    ∷ Form.fixed InsnKind.fcmpl Operand.nothing
    ∷ Form.fixed InsnKind.fcmpg Operand.nothing
    ∷ Form.fixed InsnKind.dcmpl Operand.nothing
    ∷ Form.fixed InsnKind.dcmpg Operand.nothing
    ∷ []

-- The opcodes from 0x99 to 0xa8.
unfoldable pub branches : List Form
branches =
    Form.branch InsnKind.ifeq "if_eq offset"
    ∷ Form.branch InsnKind.ifne "if_ne offset"
    ∷ Form.branch InsnKind.iflt "if_lt offset"
    ∷ Form.branch InsnKind.ifge "if_ge offset"
    ∷ Form.branch InsnKind.ifgt "if_gt offset"
    ∷ Form.branch InsnKind.ifle "if_le offset"
    ∷ Form.branch InsnKind.if_icmpeq "if_icmpeq offset"
    ∷ Form.branch InsnKind.if_icmpne "if_icmpne offset"
    ∷ Form.branch InsnKind.if_icmplt "if_icmplt offset"
    ∷ Form.branch InsnKind.if_icmpge "if_icmpge offset"
    ∷ Form.branch InsnKind.if_icmpgt "if_icmpgt offset"
    ∷ Form.branch InsnKind.if_icmple "if_icmple offset"
    ∷ Form.branch InsnKind.if_acmpeq "if_acmpeq offset"
    ∷ Form.branch InsnKind.if_acmpne "if_acmpne offset"
    ∷ Form.branch InsnKind.goto "goto offset"
    ∷ Form.branch InsnKind.jsr "jsr offset"
    ∷ []

-- The opcodes from 0xa9 to 0xb1.
unfoldable pub returns : List Form
returns =
    Form.local InsnKind.ret "ret index"
    ∷ Form.tableswitch
    ∷ Form.lookupswitch
    ∷ Form.fixed InsnKind.ireturn Operand.nothing
    ∷ Form.fixed InsnKind.lreturn Operand.nothing
    ∷ Form.fixed InsnKind.freturn Operand.nothing
    ∷ Form.fixed InsnKind.dreturn Operand.nothing
    ∷ Form.fixed InsnKind.areturn Operand.nothing
    ∷ Form.fixed InsnKind.return Operand.nothing
    ∷ []

-- The opcodes from 0xb2 to 0xc9.
unfoldable pub references : List Form
references =
    Form.cp_index InsnKind.getstatic "getstatic index" (CpKind.field_ref ∷ []) "getstatic field ref"
    ∷ Form.cp_index InsnKind.putstatic "putstatic index" (CpKind.field_ref ∷ [])
        "putstatic field ref"
    ∷ Form.cp_index InsnKind.getfield "getfield index" (CpKind.field_ref ∷ []) "getfield field ref"
    ∷ Form.cp_index InsnKind.putfield "putfield index" (CpKind.field_ref ∷ []) "putfield field ref"
    ∷ Form.cp_index InsnKind.invokevirtual "invokevirtual index"
        (CpKind.method_ref ∷ CpKind.interface_method_ref ∷ []) "invokevirtual method ref"
    ∷ Form.cp_index InsnKind.invokespecial "invokespecial index"
        (CpKind.method_ref ∷ CpKind.interface_method_ref ∷ []) "invokespecial method ref"
    ∷ Form.cp_index InsnKind.invokestatic "invokestatic index"
        (CpKind.method_ref ∷ CpKind.interface_method_ref ∷ []) "invokestatic method ref"
    ∷ Form.invokeinterface
    ∷ Form.invokedynamic
    ∷ Form.cp_index InsnKind.new "new index" (CpKind.class ∷ []) "new class"
    ∷ Form.newarray
    ∷ Form.cp_index InsnKind.anewarray "anewarray index" (CpKind.class ∷ []) "anewarray class"
    ∷ Form.fixed InsnKind.arraylength Operand.nothing
    ∷ Form.fixed InsnKind.athrow Operand.nothing
    ∷ Form.cp_index InsnKind.checkcast "checkcast index" (CpKind.class ∷ []) "checkcast class"
    ∷ Form.cp_index InsnKind.instanceof "instanceof index" (CpKind.class ∷ []) "instanceof class"
    ∷ Form.fixed InsnKind.monitorenter Operand.nothing
    ∷ Form.fixed InsnKind.monitorexit Operand.nothing
    ∷ Form.wide
    ∷ Form.multianewarray
    ∷ Form.branch InsnKind.ifnull "ifnull offset"
    ∷ Form.branch InsnKind.ifnonnull "ifnonnull offset"
    ∷ Form.branch_wide InsnKind.goto "goto_w offset"
    ∷ Form.branch_wide InsnKind.jsr "jsr_w offset"
    ∷ []

unfoldable pub form : ℕ → Form
unfolding constants loads stores arithmetic conversions branches returns references
form opcode =
    if ltb opcode 0x15
    then get_or constants opcode Form.invalid
    else if ltb opcode 0x36
    then get_or loads (opcode - 0x15) Form.invalid
    else if ltb opcode 0x57
    then get_or stores (opcode - 0x36) Form.invalid
    else if ltb opcode 0x84
    then get_or arithmetic (opcode - 0x57) Form.invalid
    else if ltb opcode 0x99
    then get_or conversions (opcode - 0x84) Form.invalid
    else if ltb opcode 0xa9
    then get_or branches (opcode - 0x99) Form.invalid
    else if ltb opcode 0xb2
    then get_or returns (opcode - 0xa9) Form.invalid
    else get_or references (opcode - 0xb2) Form.invalid
