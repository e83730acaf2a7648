-- ===== src/ClassFile/Exceptions.antt =====
-- vm/classfile.c: the exception table of a Code attribute, and the end of the attribute's loop.
use b_jvm.Common.{
  ℕ, zero, suc, ◌≤◌, ◌<◌, ◌≡◌, ◌≢◌, refl, sym, ap, ◌∙◌, Bool, false, not, ◌||◌, List, [], ◌∷◌,
  Option, none, some, Bytes, length, ltb, leb, ◌==◌, if◌then◌else◌, arith, Bool-cases, inl, inr,
  ◌⊎◌,
}
use b_jvm.ClassFile.{CpKind, CpEntry, Result, ok, error}
use b_jvm.ClassFile.Insn.{BytecodeInsn}
use b_jvm.ClassFile.Gives.{
  Gives, Gives-bind, Gives-map, reader_next-Takes, Gives-ok, IsEntry, checked_cp_entry-is_expected,
}
use b_jvm.ClassFile.Code.{
  CodeState, ExceptionTableEntry, parse_insns, convert_pc_to_insn, catch_type_of, link_exception,
  parse_exception_table, start_of, finished, parsed, read_header, parse_code_attribute,
}
use b_jvm.ClassFile.Resolve.{
  IsAt, IsIndexed, parse_insns-IsIndexed, IsIndexed-start, parse_insns-result,
}
use b_jvm.ClassFile.Retarget.{convert_pc_to_insn-IsAt}

abbrev pub IsCatchType : List CpEntry → Option ℕ → Type 0
IsCatchType pool none = Unit {0}
IsCatchType pool (some n) = IsEntry pool n (CpKind.class ∷ [])

-- A protected range starts at an instruction, before the program counter where it ends; that is the
-- start of an instruction, or the end of the code.
pub data IsHandler (pool : List CpEntry) (code_length : ℕ) (code : List BytecodeInsn)
    (e : ExceptionTableEntry) : Type 0 where
  handler :
      (start last entry : ℕ)
      → start < last
      → last ≤ code_length
      → IsAt code e.start_insn start
      → ((last ≡ code_length) × (e.end_insn ≡ code_length)) ⊎ IsAt code e.end_insn last
      → IsAt code e.handler_insn entry
      → IsCatchType pool e.catch_type
      → IsHandler pool code_length code e

abbrev pub AreHandlers : List CpEntry → ℕ → List BytecodeInsn → List ExceptionTableEntry → Type 0
AreHandlers pool n code [] = Unit {0}
AreHandlers pool n code (e ∷ es) = IsHandler pool n code e × AreHandlers pool n code es

module _ (pool : List CpEntry) (code_length : ℕ) where
  catch_type_of-IsCatchType : (n : ℕ) → Gives (λ c. IsCatchType pool c) (catch_type_of pool n)
  unfolding catch_type_of
  catch_type_of-IsCatchType n = elim (Bool-cases (n == 0)) [
    | inl e ↦ rw e (Gives.good tt)
    | inr e ↦ rw e (
        Gives-bind (checked_cp_entry-is_expected pool n CpKind.class [] "exception catch type")
          λ x h. Gives.good (x, h.0, h.1))
  ]

  within : (start last n : ℕ) (b : Bool) → (not (ltb start n) || ltb n last || b) ≡ false → last ≤ n
  within start last n b h = ground arith

  module _ (s : CodeState) (inv : IsIndexed pool code_length s) where
    link_exception-IsHandler :
        (start last entry catching : ℕ)
        → Gives
            (λ e. IsHandler pool code_length s.code e)
            (link_exception pool code_length s.pc_to_insn start last entry catching)
    unfolding link_exception
    link_exception-IsHandler start last entry catching =
        elim (Bool-cases
          (not (ltb start code_length) || ltb code_length last || not (ltb entry code_length))) [
            | inl e ↦ rw e Gives.bad
            | inr e ↦ rw e (elim (Bool-cases (leb last start)) [
              | inl f ↦ rw f Gives.bad
              | inr f ↦ rw f (
                  Gives-bind (convert_pc_to_insn-IsAt pool code_length s inv start) λ i h.
                    Gives-bind
                      {P = λ j. ((last ≡ code_length) × (j ≡ code_length)) ⊎ IsAt s.code j last}
                      (end_of last)
                      λ j k.
                        Gives-bind (convert_pc_to_insn-IsAt pool code_length s inv entry) λ m l.
                          Gives-bind (catch_type_of-IsCatchType catching) λ c t. Gives.good (
                            IsHandler.handler start last entry (ground arith)
                              (within start last code_length (not (ltb entry code_length)) e) h k l
                              t))
            ])
          ]
      where
        end_of :
            (last : ℕ)
            → Gives
                (λ j. ((last ≡ code_length) × (j ≡ code_length)) ⊎ IsAt s.code j last)
                (if last == code_length
                  then ok code_length
                  else convert_pc_to_insn s.pc_to_insn last)
        end_of last = elim (Bool-cases (last == code_length)) [
          | inl e ↦ rw e (Gives.good (inl (ground arith, refl)))
          | inr e ↦
              rw e (Gives-map (convert_pc_to_insn-IsAt pool code_length s inv last) (λ j h. inr h))
        ]

    parse_exception_table-AreHandlers :
        (n : ℕ) (reader : Bytes)
        → Gives
            (λ p. AreHandlers pool code_length s.code p.0)
            (parse_exception_table n pool code_length s.pc_to_insn reader)
    unfolding parse_exception_table
    parse_exception_table-AreHandlers zero reader = Gives.good tt
    parse_exception_table-AreHandlers (suc n) reader =
        Gives-bind (reader_next-Takes 2 reader "exception start pc") λ start h0.
          Gives-bind (reader_next-Takes 2 start.1 "exception end pc") λ last h1.
            Gives-bind (reader_next-Takes 2 last.1 "exception handler pc") λ entry h2.
              Gives-bind (reader_next-Takes 2 entry.1 "exception catch type") λ catching h3.
                Gives-bind (link_exception-IsHandler start.0 last.0 entry.0 catching.0) λ e h.
                  Gives-bind (parse_exception_table-AreHandlers n catching.1)
                    λ p k. Gives.good (h, k)

-- In the exception table that is read for the instructions of a method, every range starts at an
-- instruction and before its end, which is an instruction or the end of the code; its handler is
-- an instruction, and its catch type a class or none.
pub parse_exception_table-IsHandler :
    (pool : List CpEntry) (code : Bytes) (s : CodeState)
    → parse_insns (length code) pool (length code) code (start_of (length code)) ≡ some (ok s)
    → (n : ℕ) (reader rest : Bytes) (table : List ExceptionTableEntry)
    → parse_exception_table n pool (length code) s.pc_to_insn reader ≡ ok (table, rest)
    → AreHandlers pool (length code) s.code table
parse_exception_table-IsHandler pool code s e n reader rest table f =
    Gives-ok
      (parse_exception_table-AreHandlers pool (length code) s
        (parse_insns-result pool (length code) code s e) n reader)
      f

-- Reading a Code attribute ends, with a result or a format error: as many rounds as the code has
-- bytes are enough for the loop over its instructions.
pub parse_code_attribute_ends :
    (pool : List CpEntry) (reader : Bytes) → parse_code_attribute pool reader ≢ none
unfolding parse_code_attribute
parse_code_attribute_ends pool reader = ended (read_header reader)
  where
    linked :
        (r : Result CodeState) (a b : ℕ) (code rest : Bytes)
        → finished pool a b code rest (some r) ≡ none
        → ⊥
    linked (ok s) a b code rest n = cc
    linked (error e) a b code rest n = cc

    ended : (h : Result (ℕ × ℕ × Bytes × Bytes)) → parsed pool h ≢ none
    ended (error e) n = cc
    ended (ok (a, b, code, rest)) n =
        let (r, f, post) =
          parse_insns-IsIndexed pool (length code) (length code) code (start_of (length code))
            (omega arith) (IsIndexed-start pool (length code)) in
        linked r a b code rest (ap (λ o. finished pool a b code rest o) (sym f) ∙ n)
