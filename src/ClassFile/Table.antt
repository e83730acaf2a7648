-- ===== src/ClassFile/Table.antt =====
-- vm/classfile.c: what holds of every case of the switch over the opcodes.
use b_jvm.Common.{
  ℕ, zero, suc, ◌-◌, ◌≡◌, refl, Bool, true, false, not, ◌&&◌, List, [], ◌∷◌, get_or, ◌==◌, ltb,
  if◌then◌else◌, arith,
}
use b_jvm.ClassFile.{CpKind, bit, is_expected}
use b_jvm.ClassFile.Insn.{Operand, is_branch}
use b_jvm.ClassFile.Locals.{Form, constants, loads, stores}
use b_jvm.ClassFile.Opcodes.{form, arithmetic, conversions, branches, returns, references}
use b_jvm.ClassFile.Checked.{allowed}

abbrev pub is_plain : Operand → Bool
is_plain Operand.nothing = true
is_plain (Operand.index n) = true
is_plain (Operand.integer_imm n) = true
is_plain (Operand.f_imm n) = true
is_plain (Operand.d_imm n) = true
is_plain o = false

abbrev pub same_kinds : List CpKind → List CpKind → Bool
same_kinds [] [] = true
same_kinds [] (m ∷ ms) = false
same_kinds (k ∷ ks) [] = false
same_kinds (k ∷ ks) (m ∷ ms) = bit k == bit m && same_kinds ks ms

abbrev pub is_some_kind : List CpKind → Bool
is_some_kind [] = false
is_some_kind (k ∷ ks) = true

-- Only the cases of branches give a branch, and the constants of a case are those that the
-- instruction works on.
abbrev pub is_consistent : Form → Bool
is_consistent (Form.fixed k o) = not (is_branch k) && is_plain o
is_consistent (Form.local k r) = not (is_branch k)
is_consistent (Form.cp_index k r ks s) =
    not (is_branch k) && (is_some_kind ks && same_kinds ks (allowed k))
is_consistent f = true

abbrev all_consistent : List Form → Bool
all_consistent [] = true
all_consistent (f ∷ fs) = is_consistent f && all_consistent fs

get_or-is_consistent :
    (fs : List Form) (i : ℕ)
    → all_consistent fs ≡ true
    → is_consistent (get_or fs i Form.invalid) ≡ true
get_or-is_consistent [] i h = refl
get_or-is_consistent (f ∷ fs) zero h = first (is_consistent f) (all_consistent fs) h
  where
    first : (a b : Bool) → (a && b) ≡ true → a ≡ true
    first true b h = refl
    first false b h = h
get_or-is_consistent (f ∷ fs) (suc i) h =
    get_or-is_consistent fs i (second (is_consistent f) (all_consistent fs) h)
  where
    second : (a b : Bool) → (a && b) ≡ true → b ≡ true
    second true b h = h
    second false b h = cc

either :
    (b : Bool) (f g : Form)
    → is_consistent f ≡ true
    → is_consistent g ≡ true
    → is_consistent (if b then f else g) ≡ true
either true f g p q = p
either false f g p q = q

pub form-is_consistent : (opcode : ℕ) → is_consistent (form opcode) ≡ true
unfolding form
form-is_consistent op =
    let at =
      λ (fs : List Form) (i : ℕ) (h : all_consistent fs ≡ true). get_or-is_consistent fs i h in
    either (ltb op 0x15) _ _ (at constants op refl) (
      either (ltb op 0x36) _ _ (at loads (op - 0x15) refl) (
        either (ltb op 0x57) _ _ (at stores (op - 0x36) refl) (
          either (ltb op 0x84) _ _ (at arithmetic (op - 0x57) refl) (
            either (ltb op 0x99) _ _ (at conversions (op - 0x84) refl) (
              either (ltb op 0xa9) _ _ (at branches (op - 0x99) refl) (
                either (ltb op 0xb2) _ _ (at returns (op - 0xa9) refl)
                  (at references (op - 0xb2) refl)))))))

same_head :
    (a b c : ℕ) (s p q : Bool)
    → (a == b && s) ≡ true
    → (if a == c then true else p) ≡ true
    → (s ≡ true → p ≡ true → q ≡ true)
    → (if b == c then true else q) ≡ true
same_head a b c s p q h e k = ground arith

pub same_kinds-is_expected :
    (ks ms : List CpKind) (x : CpKind)
    → same_kinds ks ms ≡ true
    → is_expected ks x ≡ true
    → is_expected ms x ≡ true
same_kinds-is_expected [] ms x h e = cc
same_kinds-is_expected (k ∷ ks) [] x h e = cc
same_kinds-is_expected (k ∷ ks) (m ∷ ms) x h e =
    same_head (bit k) (bit m) (bit x) (same_kinds ks ms) (is_expected ks x) (is_expected ms x) h e
      (same_kinds-is_expected ks ms x)
