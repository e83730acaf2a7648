-- ===== src/StackMap/Entry.antt =====
-- `init_locals` of vm/stackmaptable.c gives the frame of JVMS 4.10.1.6 on method entry.
use b_jvm.Common.{
  ℕ, ◌≤◌, ◌≡◌, refl, arith, List, [], ◌∷◌, ◌++◌, length, if◌then◌else◌, append_assoc, append-nil,
  Bool-cases, inl, inr, Bool, true, false, ◌∙◌, ap,
}
use b_jvm.Descriptor.{TypeKind}
use b_jvm.StackMap.{Kind, Name, ValidationType, done, plain, implicit, is_wide}
use b_jvm.StackMap.Start.{
  Method, type_to_validation_type, arg_locals, init_locals, arg_types, entry_types,
}
use b_jvm.StackMap.Encode.{expand}
use b_jvm.StackMap.Refine.{push_type-expand, push_local_fits, length-expand-append_le}

arg_locals-expand :
    (max : ℕ) (ks : List TypeKind) (vs : List ValidationType)
    → length (expand (vs ++ arg_types ks)) ≤ max
    → arg_locals max ks (expand vs) ≡ done (expand (vs ++ arg_types ks))
unfolding arg_locals arg_types
arg_locals-expand max [] vs fits = rw append-nil
arg_locals-expand max (k ∷ ks) vs fits =
    let vs' = vs ++ plain (type_to_validation_type k) ∷ [] in
    let grown : vs' ++ arg_types ks ≡ vs ++ arg_types (k ∷ ks) =
      append_assoc vs (plain (type_to_validation_type k) ∷ []) (arg_types ks) in
    let later : length (expand (vs' ++ arg_types ks)) ≤ max = rw grown fits in
    let now : length (expand vs') ≤ max =
      omega (arith, length-expand-append_le vs' (arg_types ks)) in
    rw (push_type-expand max vs (type_to_validation_type k) now, ← grown)
      (arg_locals-expand max ks vs' later)

abbrev receiver : Method → ValidationType
receiver m = record {
  kind = if m.is_ctor then Kind.uninit_this else Kind.object;
  name = Name.own_class;
}

receiver-expand : (m : Method) → expand (receiver m ∷ []) ≡ receiver m ∷ []
unfolding expand is_wide
receiver-expand m = elim (Bool-cases m.is_ctor) [ inl ctor ↦ rw ctor | inr plain_ ↦ rw plain_ ]

nil-expand : expand [] ≡ []
unfolding expand
nil-expand = refl

init_locals-expand :
    (m : Method)
    → length (expand (entry_types m)) ≤ m.max_locals
    → init_locals m ≡ done (expand (entry_types m))
unfolding init_locals
init_locals-expand m fits = elim (Bool-cases m.is_static) [
  | inl static ↦
      let fits' = rw static at fits in
      rw (static, ← nil-expand) (arg_locals-expand m.max_locals m.args [] fits')
  | inr dynamic ↦
      let fits' = rw dynamic at fits in
      rw (dynamic, push_local_fits m.max_locals [] (receiver m) (omega arith), ← receiver-expand m)
        (arg_locals-expand m.max_locals m.args (receiver m ∷ []) fits')
]

-- JVMS 4.10.1.6: what each argument of a method stands as in the first frame.
abbrev pub entry_args : List TypeKind → List ValidationType
entry_args [] = []
entry_args (TypeKind.reference ∷ ks) = plain Kind.object ∷ entry_args ks
entry_args (TypeKind.int ∷ ks) = plain Kind.integer ∷ entry_args ks
entry_args (TypeKind.float ∷ ks) = plain Kind.float ∷ entry_args ks
entry_args (TypeKind.long ∷ ks) = plain Kind.long ∷ implicit ∷ entry_args ks
entry_args (TypeKind.double ∷ ks) = plain Kind.double ∷ implicit ∷ entry_args ks
entry_args (k ∷ ks) = plain Kind.top ∷ entry_args ks

-- The receiver, by whether the method is static and whether it is a constructor.
abbrev pub entry_receiver : Bool → Bool → List ValidationType
entry_receiver true is_ctor = []
entry_receiver false true = record { kind = Kind.uninit_this; name = Name.own_class } ∷ []
entry_receiver false false = record { kind = Kind.object; name = Name.own_class } ∷ []

abbrev pub entry_locals : Method → List ValidationType
entry_locals m = entry_receiver m.is_static m.is_ctor ++ entry_args m.args

expand-arg_types : (ks : List TypeKind) → expand (arg_types ks) ≡ entry_args ks
unfolding expand arg_types is_wide type_to_validation_type
expand-arg_types [] = refl
expand-arg_types (TypeKind.reference ∷ ks) = rw (expand-arg_types ks) refl
expand-arg_types (TypeKind.int ∷ ks) = rw (expand-arg_types ks) refl
expand-arg_types (TypeKind.float ∷ ks) = rw (expand-arg_types ks) refl
expand-arg_types (TypeKind.long ∷ ks) = rw (expand-arg_types ks) refl
expand-arg_types (TypeKind.double ∷ ks) = rw (expand-arg_types ks) refl
expand-arg_types (TypeKind.boolean ∷ ks) = rw (expand-arg_types ks) refl
expand-arg_types (TypeKind.char ∷ ks) = rw (expand-arg_types ks) refl
expand-arg_types (TypeKind.byte ∷ ks) = rw (expand-arg_types ks) refl
expand-arg_types (TypeKind.short ∷ ks) = rw (expand-arg_types ks) refl
expand-arg_types (TypeKind.void ∷ ks) = rw (expand-arg_types ks) refl

expand-entry_types : (m : Method) → expand (entry_types m) ≡ entry_locals m
unfolding expand is_wide
expand-entry_types m = elim (Bool-cases m.is_static) [
  | inl static ↦ rw static (expand-arg_types m.args)
  | inr dynamic ↦ elim (Bool-cases m.is_ctor) [
    | inl ctor ↦ rw (dynamic, ctor, expand-arg_types m.args) refl
    | inr other ↦ rw (dynamic, other, expand-arg_types m.args) refl
  ]
]

-- Where the locals of a method hold them, the first frame is made of the types of JVMS 4.10.1.6:
-- nothing for a static method, an uninitialised object for a constructor and an object of its own
-- class for any other; and then for each argument an object, an integer or a float, or a long or
-- a double followed by an implicit top.
pub init_locals-entry_locals :
    (m : Method) → length (entry_locals m) ≤ m.max_locals → init_locals m ≡ done (entry_locals m)
init_locals-entry_locals m fits =
    let whole = expand-entry_types m in
    let fits' : length (expand (entry_types m)) ≤ m.max_locals = rw whole fits in
    init_locals-expand m fits' ∙ ap done whole
