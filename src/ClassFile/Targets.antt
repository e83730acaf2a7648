-- ===== src/ClassFile/Targets.antt =====
-- vm/classfile.c: the targets that a branch or a switch gets.
use b_jvm.Common.{
  ℕ, zero, suc, ◌+◌, ◌-◌, ◌^◌, ◌≤◌, ◌<◌, ◌≡◌, refl, Bool, true, false, not, ◌&&◌, ◌||◌, List, [],
  ◌∷◌, Bytes, length, ltb, if◌then◌else◌, arith, Bool-cases, inl, inr,
}
use Prim.Native.String.{String}
use b_jvm.ClassFile.Gives.{Gives, Gives-bind, Gives-map, reader_next-Takes}
use b_jvm.ClassFile.Insn.{Operand}
use b_jvm.ClassFile.Switches.{
  checked_pc, skip_padding, padding, read_target, read_targets, read_pairs, parse_tableswitch_insn,
  parse_lookupswitch_insn, biased,
}

abbrev pub IsBelow : ℕ → List ℕ → Type 0
IsBelow n [] = Unit {0}
IsBelow n (x ∷ xs) = (x < n) × IsBelow n xs

below : (a b : Bool) (t m : ℕ) → (a || b || not (ltb t m)) ≡ false → t < m
below true b t m e = cc
below false true t m e = cc
below false false t m e = ground arith

pub checked_pc-lt : (pc off max_pc : ℕ) → Gives (λ t. t < max_pc) (checked_pc pc off max_pc)
unfolding checked_pc
checked_pc-lt pc off max_pc =
    let target = pc + off - (if ltb off (2 ^ 31) then 0 else 2 ^ 32) in
    let negative = not (ltb off (2 ^ 31)) && ltb pc (2 ^ 32 - off) in
    elim (Bool-cases (negative || not (ltb target (2 ^ 31)) || not (ltb target max_pc))) [
      | inl e ↦ rw e Gives.bad
      | inr e ↦ rw e (Gives.good (below negative (not (ltb target (2 ^ 31))) target max_pc e))
    ]

pub skip_padding-le :
    (n : ℕ) (reader : Bytes) → Gives (λ r. length r ≤ length reader) (skip_padding n reader)
unfolding skip_padding
skip_padding-le zero reader = Gives.good (omega arith)
skip_padding-le (suc n) reader =
    Gives-bind (reader_next-Takes 1 reader "tableswitch padding")
      λ p h. Gives-map (skip_padding-le n p.1) λ r k. omega arith

pub read_target-lt :
    (pc max_pc : ℕ) (reader : Bytes) (reason : String)
    → Gives
        (λ p. (length p.1 ≤ length reader) × (p.0 < max_pc))
        (read_target pc max_pc reader reason)
unfolding read_target
read_target-lt pc max_pc reader reason =
    Gives-bind (reader_next-Takes 4 reader reason)
      λ p h. Gives-bind (checked_pc-lt pc p.0 max_pc) λ t k. Gives.good (omega arith, k)

pub read_targets-IsBelow :
    (n pc max_pc : ℕ) (reader : Bytes)
    → Gives
        (λ p. (length p.1 ≤ length reader) × IsBelow max_pc p.0 × (length p.0 ≡ n))
        (read_targets n pc max_pc reader)
unfolding read_targets
read_targets-IsBelow zero pc max_pc reader = Gives.good (omega arith, tt, refl)
read_targets-IsBelow (suc n) pc max_pc reader =
    Gives-bind (read_target-lt pc max_pc reader "tableswitch target") λ p h.
      Gives-bind (read_targets-IsBelow n pc max_pc p.1)
        λ q k. Gives.good (omega arith, (h.1, k.1), omega arith)

pub parse_tableswitch_insn-IsBelow :
    (pc max_pc : ℕ) (reader : Bytes)
    → Gives
        (λ p.
          (length p.1 ≤ length reader)
          × ((d : ℕ) × (low : ℕ) × (high : ℕ) × (ts : List ℕ) × (p.0
                ≡ Operand.tableswitch d low high ts)
              × (d < max_pc)
              × IsBelow max_pc ts
              × (biased low + length ts ≡ biased high + 1)))
        (parse_tableswitch_insn pc max_pc reader)
unfolding parse_tableswitch_insn
parse_tableswitch_insn-IsBelow pc max_pc reader =
    Gives-bind (skip_padding-le (padding pc) reader) λ r0 h0.
      Gives-bind (read_target-lt pc max_pc r0 "tableswitch default target") λ p1 h1.
        Gives-bind (reader_next-Takes 4 p1.1 "tableswitch low") λ p2 h2.
          Gives-bind (reader_next-Takes 4 p2.1 "tableswitch high") λ p3 h3.
            elim (Bool-cases (ltb (biased p2.0 + 2 ^ 15) (biased p3.0 + 1))) [
              | inl e ↦ rw e Gives.bad
              | inr e ↦ rw e (elim (Bool-cases (ltb (biased p3.0) (biased p2.0))) [
                | inl f ↦ rw f Gives.bad
                | inr f ↦
                    let order : biased p2.0 ≤ biased p3.0 = ground arith in
                    rw f (
                      Gives-bind
                        (read_targets-IsBelow (biased p3.0 + 1 - biased p2.0) pc max_pc p3.1)
                        λ q k.
                          Gives.good
                            (omega arith, (p1.0, p2.0, p3.0, q.0, refl, h1.1, k.1, omega arith)))
              ])
            ]

pub read_pairs-IsBelow :
    (n pc max_pc : ℕ) (reader : Bytes)
    → Gives
        (λ p. (length p.2 ≤ length reader) × IsBelow max_pc p.1 × (length p.0 ≡ length p.1))
        (read_pairs n pc max_pc reader)
unfolding read_pairs
read_pairs-IsBelow zero pc max_pc reader = Gives.good (omega arith, tt, refl)
read_pairs-IsBelow (suc n) pc max_pc reader =
    Gives-bind (reader_next-Takes 4 reader "lookupswitch key") λ k h0.
      Gives-bind (read_target-lt pc max_pc k.1 "lookupswitch target") λ p h.
        Gives-bind (read_pairs-IsBelow n pc max_pc p.1)
          λ q m. Gives.good (omega arith, (h.1, m.1), omega arith)

pub parse_lookupswitch_insn-IsBelow :
    (pc max_pc : ℕ) (reader : Bytes)
    → Gives
        (λ p.
          (length p.1 ≤ length reader)
          × ((d : ℕ) × (keys : List ℕ) × (ts : List ℕ) × (p.0 ≡ Operand.lookupswitch d keys ts)
              × (d < max_pc)
              × IsBelow max_pc ts
              × (length keys ≡ length ts)))
        (parse_lookupswitch_insn pc max_pc reader)
unfolding parse_lookupswitch_insn
parse_lookupswitch_insn-IsBelow pc max_pc reader =
    Gives-bind (skip_padding-le (padding pc) reader) λ r0 h0.
      Gives-bind (read_target-lt pc max_pc r0 "lookupswitch default target") λ p1 h1.
        Gives-bind (reader_next-Takes 4 p1.1 "lookupswitch pairs count") λ p2 h2.
          elim (Bool-cases (ltb (2 ^ 15) p2.0)) [
            | inl e ↦ rw e Gives.bad
            | inr e ↦ rw e (
                Gives-bind (read_pairs-IsBelow p2.0 pc max_pc p2.1)
                  λ q k. Gives.good (omega arith, (p1.0, q.0, q.1, refl, h1.1, k.1, k.2)))
          ]
