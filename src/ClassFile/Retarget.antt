-- ===== src/ClassFile/Retarget.antt =====
-- vm/classfile.c: the targets of the instructions, after their conversion to indices.
use b_jvm.Common.{
  ℕ, ◌≡◌, refl, Bool, true, false, List, [], ◌∷◌, Option, none, some, Bytes, length, get_elem?,
  Bool-cases, inl, inr,
}
use b_jvm.ClassFile.{CpEntry, ok}
use b_jvm.ClassFile.Insn.{InsnKind, Operand, BytecodeInsn, is_branch}
use b_jvm.ClassFile.Gives.{Gives, Gives-bind, Gives-ok}
use b_jvm.ClassFile.Code.{
  CodeState, parse_insns, found, convert_pc_to_insn, convert_all, convert_operand,
  convert_pcs_to_insn_indices, start_of,
}
use b_jvm.ClassFile.Resolve.{IsAt, IsIndexed, parse_insns-result}

-- After the conversion: the index of the instruction that starts at each target.
abbrev pub AreAt : List BytecodeInsn → List ℕ → List ℕ → Type 0
AreAt code [] [] = Unit {0}
AreAt code [] (pc ∷ pcs) = ⊥
AreAt code (i ∷ is) [] = ⊥
AreAt code (i ∷ is) (pc ∷ pcs) = IsAt code i pc × AreAt code is pcs

abbrev pub has_target : InsnKind → Operand → Bool
has_target kind (Operand.index n) = is_branch kind
has_target kind (Operand.tableswitch d low high ts) = true
has_target kind (Operand.lookupswitch d keys ts) = true
has_target kind o = false

-- An operand that is converted, from one before the conversion.
pub data Retargeted (code : List BytecodeInsn) (kind : InsnKind) : Operand → Operand → Type 0 where
  branch :
      {pc i : ℕ}
      → is_branch kind ≡ true
      → IsAt code i pc
      → Retargeted code kind (Operand.index pc) (Operand.index i)
  tableswitch :
      {pc i low high : ℕ} {pcs is : List ℕ}
      → IsAt code i pc
      → AreAt code is pcs
      → Retargeted code kind
          (Operand.tableswitch pc low high pcs)
          (Operand.tableswitch i low high is)
  lookupswitch :
      {pc i : ℕ} {keys pcs is : List ℕ}
      → IsAt code i pc
      → AreAt code is pcs
      → Retargeted code kind (Operand.lookupswitch pc keys pcs) (Operand.lookupswitch i keys is)
  other : {o : Operand} → has_target kind o ≡ false → Retargeted code kind o o

abbrev pub IsRetargeted : List BytecodeInsn → List BytecodeInsn → List BytecodeInsn → Type 0
IsRetargeted code [] [] = Unit {0}
IsRetargeted code [] (y ∷ ys) = ⊥
IsRetargeted code (x ∷ xs) [] = ⊥
IsRetargeted code (x ∷ xs) (y ∷ ys) =
    (y.kind ≡ x.kind)
    × (y.original_pc ≡ x.original_pc)
    × Retargeted code x.kind x.operand y.operand
    × IsRetargeted code xs ys

module _ (pool : List CpEntry) (code_length : ℕ) (s : CodeState)
    (inv : IsIndexed pool code_length s) where
  pub convert_pc_to_insn-IsAt :
      (pc : ℕ) → Gives (λ i. IsAt s.code i pc) (convert_pc_to_insn s.pc_to_insn pc)
  unfolding convert_pc_to_insn
  convert_pc_to_insn-IsAt pc = go (get_elem? s.pc_to_insn pc) refl
    where
      go :
          (o : Option (Option ℕ))
          → get_elem? s.pc_to_insn pc ≡ o
          → Gives (λ i. IsAt s.code i pc) (found pc o)
      go none e = Gives.bad
      go (some none) e = Gives.bad
      go (some (some i)) e = Gives.good (inv.at pc i e)

  convert_all-AreAt :
      (pcs : List ℕ) → Gives (λ is. AreAt s.code is pcs) (convert_all s.pc_to_insn pcs)
  unfolding convert_all
  convert_all-AreAt [] = Gives.good tt
  convert_all-AreAt (pc ∷ pcs) =
      Gives-bind (convert_pc_to_insn-IsAt pc)
        λ i h. Gives-bind (convert_all-AreAt pcs) λ is k. Gives.good (h, k)

  convert_operand-Retargeted :
      (kind : InsnKind) (o : Operand)
      → Gives (λ o'. Retargeted s.code kind o o') (convert_operand s.pc_to_insn kind o)
  unfolding convert_operand
  convert_operand-Retargeted kind (Operand.tableswitch d low high ts) =
      Gives-bind (convert_pc_to_insn-IsAt d)
        λ i h. Gives-bind (convert_all-AreAt ts) λ is k. Gives.good (Retargeted.tableswitch h k)
  convert_operand-Retargeted kind (Operand.lookupswitch d keys ts) =
      Gives-bind (convert_pc_to_insn-IsAt d)
        λ i h. Gives-bind (convert_all-AreAt ts) λ is k. Gives.good (Retargeted.lookupswitch h k)
  convert_operand-Retargeted kind (Operand.index n) = elim (Bool-cases (is_branch kind)) [
    | inl e ↦
        rw e (Gives-bind (convert_pc_to_insn-IsAt n) λ i h. Gives.good (Retargeted.branch e h))
    | inr e ↦ rw e (Gives.good (Retargeted.other e))
  ]
  convert_operand-Retargeted kind Operand.nothing = Gives.good (Retargeted.other refl)
  convert_operand-Retargeted kind (Operand.cp n) = Gives.good (Retargeted.other refl)
  convert_operand-Retargeted kind (Operand.integer_imm n) = Gives.good (Retargeted.other refl)
  convert_operand-Retargeted kind (Operand.f_imm n) = Gives.good (Retargeted.other refl)
  convert_operand-Retargeted kind (Operand.d_imm n) = Gives.good (Retargeted.other refl)
  convert_operand-Retargeted kind (Operand.iinc i c) = Gives.good (Retargeted.other refl)
  convert_operand-Retargeted kind (Operand.array_type t) = Gives.good (Retargeted.other refl)
  convert_operand-Retargeted kind (Operand.multianewarray n d) = Gives.good (Retargeted.other refl)

  convert-IsRetargeted :
      (code : List BytecodeInsn)
      → Gives
          (λ code'. IsRetargeted s.code code code')
          (convert_pcs_to_insn_indices s.pc_to_insn code)
  unfolding convert_pcs_to_insn_indices
  convert-IsRetargeted [] = Gives.good tt
  convert-IsRetargeted (x ∷ code) =
      Gives-bind (convert_operand-Retargeted x.kind x.operand)
        λ o h. Gives-bind (convert-IsRetargeted code) λ rest k. Gives.good (refl, refl, h, k)

-- For the instructions that the loop over the code of a method reads, the conversion keeps every
-- kind and program counter, and makes of each target of a branch or a switch the index of the
-- instruction that starts at the program counter that was read; all other operands stay.
pub convert_pcs_to_insn_indices-IsRetargeted :
    (pool : List CpEntry) (reader : Bytes) (s : CodeState) (code : List BytecodeInsn)
    → parse_insns (length reader) pool (length reader) reader (start_of (length reader))
      ≡ some (ok s)
    → convert_pcs_to_insn_indices s.pc_to_insn s.code ≡ ok code
    → IsRetargeted s.code s.code code
convert_pcs_to_insn_indices-IsRetargeted pool reader s code e f =
    Gives-ok
      (convert-IsRetargeted pool (length reader) s
        (parse_insns-result pool (length reader) reader s e) s.code)
      f
