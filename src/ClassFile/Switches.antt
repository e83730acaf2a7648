-- ===== src/ClassFile/Switches.antt =====
-- vm/classfile.c: the targets of branches, and the two instructions with many. `max_pc` is
-- `current_code_max_pc`. Offsets and keys are the bits of the signed numbers.
use b_jvm.Common.{
  ℕ, zero, suc, ◌+◌, ◌-◌, ◌%◌, ◌^◌, not, ◌&&◌, ◌||◌, List, [], ◌∷◌, Bytes, ltb, if◌then◌else◌,
}
use Prim.Native.String.{String}
use b_jvm.ClassFile.{FormatError, Result, ok, error, ◌>>=◌, reader_next_u8, reader_next_u32}
use b_jvm.ClassFile.Insn.{Operand}

-- The sum as an int: it overflows from 2^31 on, and `offset` is negative from 2^31 on.
unfoldable pub checked_pc : ℕ → ℕ → ℕ → Result ℕ
checked_pc insn_pc offset max_pc =
    let target = insn_pc + offset - (if ltb offset (2 ^ 31) then 0 else 2 ^ 32) in
    let negative = not (ltb offset (2 ^ 31)) && ltb insn_pc (2 ^ 32 - offset) in
    if negative || not (ltb target (2 ^ 31)) || not (ltb target max_pc)
    then error (FormatError.static "Branch target out of bounds")
    else ok target

-- The bytes up to the next program counter that is 0 mod 4: `n` of them.
unfoldable pub skip_padding : ℕ → Bytes → Result Bytes
skip_padding zero reader = ok reader
skip_padding (suc n) reader =
    reader_next_u8 reader "tableswitch padding" >>= λ p. skip_padding n p.1

abbrev pub padding : ℕ → ℕ
padding pc = (4 - (pc + 1) % 4) % 4

unfoldable pub read_target : ℕ → ℕ → Bytes → String → Result (ℕ × Bytes)
unfolding checked_pc
read_target pc max_pc reader reason = do
  (offset, r) ← reader_next_u32 reader reason
  target ← checked_pc pc offset max_pc
  ok (target, r)

unfoldable pub read_targets : ℕ → ℕ → ℕ → Bytes → Result (List ℕ × Bytes)
unfolding read_target
read_targets zero pc max_pc reader = ok ([], reader)
read_targets (suc n) pc max_pc reader = read_target pc max_pc reader "tableswitch target" >>= λ p.
    read_targets n pc max_pc p.1 >>= λ q. ok (p.0 ∷ q.0, q.1)

-- An int, moved up by 2^31.
abbrev pub biased : ℕ → ℕ
biased n = (n + 2 ^ 31) % 2 ^ 32

unfoldable pub parse_tableswitch_insn : ℕ → ℕ → Bytes → Result (Operand × Bytes)
unfolding skip_padding read_targets
parse_tableswitch_insn pc max_pc reader = do
  r0 ← skip_padding (padding pc) reader
  (default_target, r1) ← read_target pc max_pc r0 "tableswitch default target"
  (low, r2) ← reader_next_u32 r1 "tableswitch low"
  (high, r3) ← reader_next_u32 r2 "tableswitch high"
  if ltb (biased low + 2 ^ 15) (biased high + 1)
      then error (FormatError.static "tableswitch instruction is too large")
      else if ltb (biased high) (biased low)
      then error (FormatError.static "tableswitch high < low")
      else read_targets (biased high + 1 - biased low) pc max_pc r3 >>= λ p.
          ok (Operand.tableswitch default_target low high p.0, p.1)

unfoldable pub read_pairs : ℕ → ℕ → ℕ → Bytes → Result (List ℕ × List ℕ × Bytes)
unfolding read_target
read_pairs zero pc max_pc reader = ok ([], [], reader)
read_pairs (suc n) pc max_pc reader = reader_next_u32 reader "lookupswitch key" >>= λ k.
    read_target pc max_pc k.1 "lookupswitch target" >>= λ p.
    read_pairs n pc max_pc p.1 >>= λ q. ok (k.0 ∷ q.0, p.0 ∷ q.1, q.2)

-- As bits, a negative number of pairs is larger than 2^15 too.
unfoldable pub parse_lookupswitch_insn : ℕ → ℕ → Bytes → Result (Operand × Bytes)
unfolding skip_padding read_pairs
parse_lookupswitch_insn pc max_pc reader = do
  r0 ← skip_padding (padding pc) reader
  (default_target, r1) ← read_target pc max_pc r0 "lookupswitch default target"
  (pairs_count, r2) ← reader_next_u32 r1 "lookupswitch pairs count"
  if ltb (2 ^ 15) pairs_count
      then error (FormatError.static "lookupswitch instruction is too large")
      else read_pairs pairs_count pc max_pc r2 >>= λ p.
          ok (Operand.lookupswitch default_target p.0 p.1, p.2)
