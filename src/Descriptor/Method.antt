-- ===== src/Descriptor/Method.antt =====
-- `parse_method_descriptor` of vm/classfile.c against the grammar.
use b_jvm.Common.{
  ℕ, zero, suc, ◌≤◌, ◌≡◌, refl, ◌≢◌, arith, false, List, [], ◌∷◌, ◌++◌, Bytes, length,
  length-append, replicate, ◌==◌, if◌then◌else◌, ap, sym, ◌∙◌, subst, All, append_assoc, Bool-cases,
  inl, inr,
}
use b_jvm.Descriptor.{
  TypeKind, FieldDescriptor, MethodDescriptor, Parsed, ok, error, type_kind_to_char, Message, ◌>>=◌,
  parse_field_descriptor, is_void, args_loop, after_args, parse_method_descriptor,
}
use b_jvm.Descriptor.Print.{print_base, print_field, IsField, print_args, print_method, IsMethod}
use b_jvm.Descriptor.Field.{parse_field_descriptor-print_field}
use b_jvm.Descriptor.Sound.{parse_field_descriptor-eq_ok}

abbrev IsArg : FieldDescriptor → Type 0
IsArg d = IsField d × (d.base_kind ≢ TypeKind.void)

-- A printed field is not empty and does not begin with ')'.
base_head :
    (k : TypeKind) (name : Bytes)
    → (c : ℕ) × (cs : Bytes) × (print_base k name ≡ c ∷ cs) × ((c == b')') ≡ false)
unfolding print_base type_kind_to_char
base_head TypeKind.reference name = (_, _, refl, refl)
base_head TypeKind.boolean name = (_, _, refl, refl)
base_head _ name = (_, _, refl, refl)

field_head :
    (d : FieldDescriptor)
    → (c : ℕ) × (cs : Bytes) × (print_field d ≡ c ∷ cs) × ((c == b')') ≡ false)
unfolding print_field
field_head d = go d.dimensions
  where
    go :
        (n : ℕ)
        → (c : ℕ) × (cs : Bytes) × (replicate n b'[' ++ print_base d.base_kind d.class_name
            ≡ c ∷ cs)
          × ((c == b')') ≡ false)
    go zero = base_head d.base_kind d.class_name
    go (suc n) = (_, _, refl, refl)

not_void : (k : TypeKind) → k ≢ TypeKind.void → is_void k ≡ false
unfolding is_void
not_void TypeKind.void h = absurd (h refl)
not_void _ h = refl

-- One round of the loop, at the print of an argument.
args_loop-cons :
    (n : ℕ) (d : FieldDescriptor) (chars : Bytes)
    → IsArg d
    → args_loop (suc n) (print_field d ++ chars) ≡ (args_loop n chars >>= λ q. ok (d ∷ q.0, q.1))
unfolding args_loop
args_loop-cons n d chars (is, arg) =
    let (c, cs, text, head) = field_head d in
    let read : parse_field_descriptor (c ∷ (cs ++ chars)) ≡ ok (d, chars) =
      subst (λ t. parse_field_descriptor (t ++ chars) ≡ ok (d, chars)) text
        (parse_field_descriptor-print_field d chars is) in
    rw (text, head, read, not_void d.base_kind arg)

args_loop-print_args :
    (n : ℕ) (args : List FieldDescriptor) (rest : Bytes)
    → All IsArg args
    → length args ≤ n
    → args_loop n (print_args args ++ b')' ∷ rest) ≡ ok (args, b')' ∷ rest)
unfolding args_loop print_args
args_loop-print_args zero [] rest good h = refl
args_loop-print_args (suc n) [] rest good h = refl
args_loop-print_args zero (d ∷ args) rest good h = absurd (omega arith)
args_loop-print_args (suc n) (d ∷ args) rest good h =
    let text = append_assoc (print_field d) (print_args args) (b')' ∷ rest) in
    ap (args_loop (suc n)) text
    ∙ args_loop-cons n d (print_args args ++ b')' ∷ rest) good.0
    ∙ ap (λ r. r >>= λ q. ok (d ∷ q.0, q.1)) (args_loop-print_args n args rest good.1 (omega arith))

length-print_args : (args : List FieldDescriptor) → length args ≤ length (print_args args)
unfolding print_args
length-print_args [] = omega arith
length-print_args (d ∷ args) =
    let (c, cs, text, head) = field_head d in
    let long : length (print_field d) ≡ suc (length cs) = ap length text in
    omega (arith, length-append (print_field d) (print_args args), long, length-print_args args)

-- Every method descriptor of the grammar is read back, and what follows it is passed over.
pub parse_method_descriptor-print_method :
    (m : MethodDescriptor) (rest : Bytes)
    → IsMethod m
    → parse_method_descriptor (print_method m ++ rest) ≡ ok m
unfolding parse_method_descriptor print_method
parse_method_descriptor-print_method m rest is =
    let tail = print_field m.return_type ++ rest in
    let text : (print_args m.args ++ b')' ∷ print_field m.return_type) ++ rest
        ≡ print_args m.args ++ b')' ∷ tail =
      append_assoc _ _ rest in
    let rounds : length m.args ≤ length (print_args m.args ++ b')' ∷ tail) =
      omega (arith, length-print_args m.args, length-append (print_args m.args) (b')' ∷ tail)) in
    rw (
      text,
      args_loop-print_args _ m.args tail is.args rounds,
      parse_field_descriptor-print_field m.return_type rest is.return_type,
    )

abbrev Ends : Bytes → Type 0
Ends [] = Unit
Ends (c ∷ cs) = c ≡ b')'

abbrev ArgsSound : Bytes → Parsed (List FieldDescriptor × Bytes) → Type 0
ArgsSound chars (error m) = Unit
ArgsSound chars (ok (args, rest)) = All IsArg args × (chars ≡ print_args args ++ rest) × Ends rest

ArgsSound-cons :
    (d : FieldDescriptor) (chars : Bytes) (r : Parsed (List FieldDescriptor × Bytes))
    → IsArg d
    → ArgsSound chars r
    → ArgsSound (print_field d ++ chars) (r >>= λ q. ok (d ∷ q.0, q.1))
unfolding print_args
ArgsSound-cons d chars (error m) arg h = tt
ArgsSound-cons d chars (ok (args, rest)) arg (all, text, ends) =
    ((arg, all), ap (λ l. print_field d ++ l) text ∙ sym (append_assoc _ _ rest), ends)

is_void-false : (k : TypeKind) → is_void k ≡ false → k ≢ TypeKind.void
unfolding is_void
is_void-false k h e = ground arith

abbrev next_round : ℕ → FieldDescriptor × Bytes → Parsed (List FieldDescriptor × Bytes)
next_round n p =
    if is_void p.0.base_kind
    then error Message.void_parameter
    else (args_loop n p.1 >>= λ q. ok (p.0 ∷ q.0, q.1))

round-ArgsSound :
    (n : ℕ) (chars : Bytes) (r : Parsed (FieldDescriptor × Bytes))
    → ((rest : Bytes) → length rest ≤ n → ArgsSound rest (args_loop n rest))
    → length chars ≤ suc n
    → parse_field_descriptor chars ≡ r
    → ArgsSound chars (r >>= next_round n)
round-ArgsSound n chars (error m) ih h found = tt
round-ArgsSound n chars (ok (d, rest)) ih h found = elim (Bool-cases (is_void d.base_kind)) [
  | inl void ↦ rw void tt
  | inr arg ↦
      let (is, text) = parse_field_descriptor-eq_ok chars found in
      let (c, cs, head, ne) = field_head d in
      let long : length (print_field d) ≡ suc (length cs) = ap length head in
      let total : length chars ≡ length (print_field d ++ rest) = ap length text in
      let less : length rest ≤ n = omega (arith, length-append (print_field d) rest, long, total) in
      rw (arg, text)
        (ArgsSound-cons d rest (args_loop n rest) (is, is_void-false d.base_kind arg)
          (ih rest less))
]

args_loop-ArgsSound :
    (n : ℕ) (chars : Bytes) → length chars ≤ n → ArgsSound chars (args_loop n chars)
unfolding args_loop print_args
args_loop-ArgsSound zero [] h = (tt, refl, tt)
args_loop-ArgsSound zero (c ∷ cs) h = absurd (omega arith)
args_loop-ArgsSound (suc n) [] h = (tt, refl, tt)
args_loop-ArgsSound (suc n) (c ∷ cs) h = elim (Bool-cases (c == b')')) [
  | inl close ↦ rw close (tt, refl, ground arith)
  | inr other ↦
      rw other (
        round-ArgsSound n (c ∷ cs) (parse_field_descriptor (c ∷ cs)) (args_loop-ArgsSound n) h refl)
]

-- What a successful read means, and that the text may go on behind it.
abbrev MethodSound : Bytes → Parsed MethodDescriptor → Type 0
MethodSound entry (error m) = Unit
MethodSound entry (ok m) = IsMethod m × ((rest : Bytes) × (entry ≡ print_method m ++ rest))

returned-MethodSound :
    (args : List FieldDescriptor) (chars : Bytes) (c : ℕ) (cs : Bytes)
    (r : Parsed (FieldDescriptor × Bytes))
    → All IsArg args
    → chars ≡ print_args args ++ c ∷ cs
    → c ≡ b')'
    → parse_field_descriptor cs ≡ r
    → MethodSound (b'(' ∷ chars) (r >>= λ p. ok (record { args = args; return_type = p.0 }))
unfolding print_method
returned-MethodSound args chars c cs (error m) all text ends found = tt
returned-MethodSound args chars c cs (ok (d, rest)) all text ends found =
    let (is, printed) = parse_field_descriptor-eq_ok cs found in
    let split = append_assoc (print_args args) (b')' ∷ print_field d) rest in
    let whole : print_args args ++ c ∷ cs ≡ print_args args ++ b')' ∷ (print_field d ++ rest) =
      cc (ends, printed) in
    (record { args = all; return_type = is }, (rest, ap (λ l. b'(' ∷ l) (text ∙ whole ∙ sym split)))

after_args-MethodSound :
    (args : List FieldDescriptor) (chars rest : Bytes)
    → All IsArg args
    → chars ≡ print_args args ++ rest
    → Ends rest
    → MethodSound (b'(' ∷ chars) (after_args args rest)
unfolding after_args
after_args-MethodSound args chars [] all text ends = tt
after_args-MethodSound args chars (c ∷ cs) all text ends =
    returned-MethodSound args chars c cs (parse_field_descriptor cs) all text ends refl

args_of-MethodSound :
    (chars : Bytes) (r : Parsed (List FieldDescriptor × Bytes))
    → ArgsSound chars r
    → MethodSound (b'(' ∷ chars) (r >>= λ p. after_args p.0 p.1)
args_of-MethodSound chars (error m) h = tt
args_of-MethodSound chars (ok (args, rest)) (all, text, ends) =
    after_args-MethodSound args chars rest all text ends

parse_method_descriptor-MethodSound :
    (entry : Bytes) → MethodSound entry (parse_method_descriptor entry)
unfolding parse_method_descriptor
parse_method_descriptor-MethodSound [] = tt
parse_method_descriptor-MethodSound (c ∷ cs) = elim (Bool-cases (c == b'(')) [
  | inl open_ ↦
      let is : c ≡ b'(' = ground arith in
      rw (open_, is)
        (args_of-MethodSound cs (args_loop (length cs) cs)
          (args_loop-ArgsSound (length cs) cs (omega arith)))
  | inr other ↦ rw other tt
]

-- Whatever `parse_method_descriptor` accepts begins with the print of the descriptor that it returns.
pub parse_method_descriptor-eq_ok :
    (entry : Bytes) {m : MethodDescriptor}
    → parse_method_descriptor entry ≡ ok m
    → IsMethod m × ((rest : Bytes) × (entry ≡ print_method m ++ rest))
parse_method_descriptor-eq_ok entry h =
    subst (λ r. MethodSound entry r) h (parse_method_descriptor-MethodSound entry)
