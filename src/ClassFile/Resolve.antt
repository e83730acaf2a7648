-- ===== src/ClassFile/Resolve.antt =====
-- vm/classfile.c: the loop over the instructions, and the targets after their conversion to indices.
use b_jvm.Common.{
  ℕ, zero, suc, ◌-◌, ◌≤◌, ◌≡◌, refl, sym, ap, ◌∙◌, subst, List, [], ◌∷◌, ◌++◌, Option, none, some,
  Bytes, length, get_elem?, set, replicate, arith, inl, inr, ◌⊎◌,
}
use mathlib.Core.Option.{some_inj}
use b_jvm.ClassFile.{CpEntry, FormatError, Result, ok, error}
use b_jvm.ClassFile.Insn.{BytecodeInsn}
use b_jvm.ClassFile.Parse.{parse_insn}
use b_jvm.ClassFile.Gives.{Gives, Gives-ok}
use b_jvm.ClassFile.Checked.{IsChecked}
use b_jvm.ClassFile.Sound.{parse_insn-IsRead}
use b_jvm.ClassFile.Code.{CodeState, parse_insns, start_of}

pub Result-cases :
    {A : Type 0} (m : Result A) → ((a : A) × (m ≡ ok a)) ⊎ ((e : FormatError) × (m ≡ error e))
Result-cases (ok a) = inl (a, refl)
Result-cases (error e) = inr (e, refl)

-- The instruction of the index starts at the program counter.
abbrev pub IsAt : List BytecodeInsn → ℕ → ℕ → Type 0
IsAt code i pc = (x : BytecodeInsn) × (get_elem? code i ≡ some x) × (x.original_pc ≡ pc)

pub record IsIndexed (pool : List CpEntry) (code_length : ℕ) (s : CodeState) : Type 0 where
  pub at : (pc i : ℕ) → get_elem? s.pc_to_insn pc ≡ some (some i) → IsAt s.code i pc
  pub checked :
      (i : ℕ) (x : BytecodeInsn)
      → get_elem? s.code i ≡ some x
      → IsChecked pool code_length x.kind x.operand

module _ {ℓ} {A : Type ℓ} where
  get_elem?-append_old :
      (xs ys : List A) (i : ℕ) (x : A) → get_elem? xs i ≡ some x → get_elem? (xs ++ ys) i ≡ some x
  get_elem?-append_old [] ys i x h = cc
  get_elem?-append_old (y ∷ xs) ys zero x h = h
  get_elem?-append_old (y ∷ xs) ys (suc i) x h = get_elem?-append_old xs ys i x h

  get_elem?-append_last : (xs : List A) (x : A) → get_elem? (xs ++ (x ∷ [])) (length xs) ≡ some x
  get_elem?-append_last [] x = refl
  get_elem?-append_last (y ∷ xs) x = get_elem?-append_last xs x

  get_elem?-append_cases :
      (xs : List A) (y : A) (i : ℕ) (x : A)
      → get_elem? (xs ++ (y ∷ [])) i ≡ some x
      → (get_elem? xs i ≡ some x) ⊎ (x ≡ y)
  get_elem?-append_cases [] y zero x h = inr (sym (some_inj.0 h))
  get_elem?-append_cases [] y (suc i) x h = cc
  get_elem?-append_cases (z ∷ xs) y zero x h = inl h
  get_elem?-append_cases (z ∷ xs) y (suc i) x h = get_elem?-append_cases xs y i x h

  get_elem?-set_cases :
      (xs : List A) (j : ℕ) (v : A) (i : ℕ) (x : A)
      → get_elem? (set xs j v) i ≡ some x
      → (get_elem? xs i ≡ some x) ⊎ ((i ≡ j) × (x ≡ v))
  get_elem?-set_cases [] j v i x h = cc
  get_elem?-set_cases (y ∷ xs) zero v zero x h = inr (refl, sym (some_inj.0 h))
  get_elem?-set_cases (y ∷ xs) zero v (suc i) x h = inl h
  get_elem?-set_cases (y ∷ xs) (suc j) v zero x h = inl h
  get_elem?-set_cases (y ∷ xs) (suc j) v (suc i) x h = elim (get_elem?-set_cases xs j v i x h) [
    | inl e ↦ inl e
    | inr e ↦ inr (ap suc e.0, e.1)
  ]

module _ (pool : List CpEntry) (code_length : ℕ) where
  pub IsIndexed-start : IsIndexed pool code_length (start_of code_length)
  IsIndexed-start = record {
    at = λ pc i h. absurd (no_insn code_length pc i h);
    checked = λ i x h. cc;
  }
    where
      no_insn : (n pc i : ℕ) → get_elem? (replicate {A = Option ℕ} n none) pc ≡ some (some i) → ⊥
      no_insn zero pc i h = cc
      no_insn (suc n) zero i h = cc
      no_insn (suc n) (suc pc) i h = no_insn n pc i h

  IsIndexed-insn :
      (s : CodeState) (x : BytecodeInsn)
      → IsIndexed pool code_length s
      → IsChecked pool code_length x.kind x.operand
      → IsIndexed pool code_length (record {
        pc_to_insn = set s.pc_to_insn x.original_pc (some (length s.code));
        code = s.code ++ (x ∷ []);
      })
  IsIndexed-insn s x inv ok_x = record {
    at = λ pc i h.
        elim (get_elem?-set_cases s.pc_to_insn x.original_pc (some (length s.code)) pc (some i) h) [
          | inl e ↦
              let (y, there, same) = inv.at pc i e in
              (y, get_elem?-append_old s.code (x ∷ []) i y there, same)
          | inr e ↦
              let j : i ≡ length s.code = some_inj.0 e.1 in
              (
                x,
                subst (λ n. get_elem? (s.code ++ (x ∷ [])) n ≡ some x) (sym j)
                    (get_elem?-append_last s.code x),
                sym e.0,
              )
        ];
    checked = λ i y h. elim (get_elem?-append_cases s.code x i y h) [
      | inl e ↦ inv.checked i y e
      | inr e ↦
          subst (λ (z : BytecodeInsn). IsChecked pool code_length z.kind z.operand) (sym e) ok_x
    ];
  }

  next_round :
      (n b : ℕ) (bs : Bytes) (s : CodeState) (insn : BytecodeInsn) (reader : Bytes)
      (r : Result CodeState)
      → parse_insn pool code_length (code_length - length (b ∷ bs)) (b ∷ bs) ≡ ok (insn, reader)
      → parse_insns n pool code_length reader (record {
        pc_to_insn = set s.pc_to_insn (code_length - length (b ∷ bs)) (some (length s.code));
        code = s.code ++ (insn ∷ []);
      })
        ≡ some r
      → parse_insns (suc n) pool code_length (b ∷ bs) s ≡ some r
  unfolding parse_insns
  next_round n b bs s insn reader r done e = rw (done, parse_insns) e

  last_round :
      (n b : ℕ) (bs : Bytes) (s : CodeState) (e : FormatError)
      → parse_insn pool code_length (code_length - length (b ∷ bs)) (b ∷ bs) ≡ error e
      → parse_insns (suc n) pool code_length (b ∷ bs) s ≡ some (error e)
  unfolding parse_insns
  last_round n b bs s e failed = rw (failed, parse_insns) refl

  -- What the loop is left with, within as many rounds as there are bytes.
  pub parse_insns-IsIndexed :
      (n : ℕ) (reader : Bytes) (s : CodeState)
      → length reader ≤ n
      → IsIndexed pool code_length s
      → (r : Result CodeState) × (parse_insns n pool code_length reader s ≡ some r)
        × Gives (λ t. IsIndexed pool code_length t) r
  unfolding parse_insns
  parse_insns-IsIndexed zero [] s le inv = (ok s, refl, Gives.good inv)
  parse_insns-IsIndexed (suc n) [] s le inv = (ok s, refl, Gives.good inv)
  parse_insns-IsIndexed zero (b ∷ bs) s le inv = absurd (omega arith)
  parse_insns-IsIndexed (suc n) (b ∷ bs) s le inv =
      let pc = code_length - length (b ∷ bs) in
      let read = parse_insn-IsRead pool code_length pc (b ∷ bs) in
      elim (Result-cases (parse_insn pool code_length pc (b ∷ bs))) [
        | inr (e, failed) ↦ (error e, last_round n b bs s e failed, Gives.bad)
        | inl ((insn, reader), done) ↦
            let (shorter, same, checked) = Gives-ok read done in
            let t : CodeState = record {
              pc_to_insn = set s.pc_to_insn pc (some (length s.code));
              code = s.code ++ (insn ∷ []);
            } in
            let inv' : IsIndexed pool code_length t =
              subst
                (λ p. IsIndexed pool code_length (record {
                  pc_to_insn = set s.pc_to_insn p (some (length s.code));
                  code = s.code ++ (insn ∷ []);
                }))
                same (IsIndexed-insn s insn inv checked) in
            let (r, e, post) = parse_insns-IsIndexed n reader t (omega arith) inv' in
            (r, next_round n b bs s insn reader r done e, post)
      ]

  pub parse_insns-result :
      (reader : Bytes) (s : CodeState)
      → parse_insns (length reader) pool code_length reader (start_of code_length) ≡ some (ok s)
      → IsIndexed pool code_length s
  parse_insns-result reader s e =
      let (r, f, post) =
        parse_insns-IsIndexed (length reader) reader (start_of code_length) (omega arith)
          IsIndexed-start in
      Gives-ok post (some_inj.0 (sym f ∙ e))
