-- ===== src/StackMap/Refine.antt =====
-- `stack_map_frame_iterator_next` of vm/stackmaptable.c reads every frame of JVMS 4.7.4 back.
use b_jvm.Common.{
  ℕ, ◌+◌, ◌*◌, ◌/◌, ◌%◌, ◌≤◌, ◌≡◌, refl, arith, false, List, [], ◌∷◌, ◌++◌, some, Bytes, length,
  length-append, ltb, if◌then◌else◌, ap, ◌∙◌, append_assoc, append-nil, Bool-cases, inl, inr,
}
use b_jvm.StackMap.{
  Kind, ValidationType, Message, done, read_u16, kind_of, plain, implicit, is_wide, has_index,
  read_verification_type, push_local, push_type, read_locals, read_stack,
}
use b_jvm.StackMap.Encode.{code_of, Typed, u16_bytes, encode_type, encode_types, types, expand}

kind_of-code_of : (k : Kind) → kind_of (code_of k) ≡ some k
unfolding kind_of code_of
kind_of-code_of Kind.top = refl
kind_of-code_of _ = refl

pub read_u16-u16_bytes : (n : ℕ) (rest : Bytes) → read_u16 (u16_bytes n ++ rest) ≡ done (n, rest)
unfolding read_u16 u16_bytes
read_u16-u16_bytes n rest = let whole : n / 256 * 256 + n % 256 ≡ n = omega arith in rw whole

pub read_verification_type-encode_type :
    (t : Typed) (rest : Bytes)
    → read_verification_type (encode_type t ++ rest) ≡ done (t.kind, rest)
unfolding read_verification_type encode_type
read_verification_type-encode_type t rest =
    rw (kind_of-code_of t.kind)
      (elim (Bool-cases (has_index t.kind)) [ inl index ↦ rw index | inr none_ ↦ rw none_ ])

pub expand-append : (vs ws : List ValidationType) → expand (vs ++ ws) ≡ expand vs ++ expand ws
unfolding expand
expand-append [] ws = refl
expand-append (v ∷ vs) ws = elim (Bool-cases (is_wide v.kind)) [
  | inl wide ↦ rw wide (ap (λ l. v ∷ implicit ∷ l) (expand-append vs ws))
  | inr narrow ↦ rw narrow (ap (λ l. v ∷ l) (expand-append vs ws))
]

pub push_local_fits :
    (max : ℕ) (vs : List ValidationType) (v : ValidationType)
    → length vs ≤ max
    → push_local max vs v ≡ done (vs ++ v ∷ [])
unfolding push_local
push_local_fits max vs v h = ground arith

pub expand_one :
    (k : Kind)
    → expand (plain k ∷ []) ≡ (if is_wide k then plain k ∷ implicit ∷ [] else plain k ∷ [])
unfolding expand
expand_one k = refl

-- One type, where the buffer has room for what it becomes.
pub push_type-expand :
    (max : ℕ) (vs : List ValidationType) (k : Kind)
    → length (expand (vs ++ plain k ∷ [])) ≤ max
    → push_type max (expand vs) k ≡ done (expand (vs ++ plain k ∷ []))
unfolding push_type
push_type-expand max vs k fits =
    let split = expand-append vs (plain k ∷ []) in
    let total = ap length (split ∙ ap (λ l. expand vs ++ l) (expand_one k)) in
    elim (Bool-cases (is_wide k)) [
      | inl wide ↦
          let size = rw wide at total in
          let two = length-append (expand vs) (plain k ∷ implicit ∷ []) in
          let one = length-append (expand vs) (plain k ∷ []) in
          rw (
            split,
            expand_one k,
            wide,
            push_local_fits max (expand vs) (plain k) (omega (arith, size, two)),
            push_local_fits max (expand vs ++ plain k ∷ []) implicit
                (omega (arith, size, two, one)),
            append_assoc,
          )
      | inr narrow ↦
          let size = rw narrow at total in
          let one = length-append (expand vs) (plain k ∷ []) in
          rw (
            split,
            expand_one k,
            narrow,
            push_local_fits max (expand vs) (plain k) (omega (arith, size, one)),
          )
    ]

pub length-expand-append_le :
    (vs ws : List ValidationType) → length (expand vs) ≤ length (expand (vs ++ ws))
length-expand-append_le vs ws =
    rw (expand-append vs ws) (omega (arith, length-append (expand vs) (expand ws)))

-- A run of types, where the buffer has room for all of them.
pub read_locals-encode_types :
    (e : Message) (max : ℕ) (vs : List ValidationType) (ts : List Typed) (rest : Bytes)
    → length (expand (vs ++ types ts)) ≤ max
    → read_locals e (length ts) max (expand vs) (encode_types ts ++ rest)
      ≡ done (expand (vs ++ types ts), rest)
unfolding read_locals encode_types
read_locals-encode_types e max vs [] rest fits = rw append-nil
read_locals-encode_types e max vs (t ∷ ts) rest fits =
    let vs' = vs ++ plain t.kind ∷ [] in
    let grown : vs' ++ types ts ≡ vs ++ types (t ∷ ts) =
      append_assoc vs (plain t.kind ∷ []) (types ts) in
    let later : length (expand (vs' ++ types ts)) ≤ max = rw grown fits in
    let now : length (expand vs') ≤ max = omega (arith, length-expand-append_le vs' (types ts)) in
    let small : ltb max (length (expand vs')) ≡ false = ground arith in
    rw
      (
        append_assoc (encode_type t) (encode_types ts) rest,
        read_verification_type-encode_type t (encode_types ts ++ rest),
        push_type-expand max vs t.kind now,
        small,
        ← grown,
      )
      (read_locals-encode_types e max vs' ts rest later)

pub read_stack-encode_types :
    (max : ℕ) (vs : List ValidationType) (ss : List Typed) (rest : Bytes)
    → length (vs ++ types ss) ≤ max
    → read_stack (length ss) max vs (encode_types ss ++ rest) ≡ done (vs ++ types ss, rest)
unfolding read_stack encode_types
read_stack-encode_types max vs [] rest fits = rw append-nil
read_stack-encode_types max vs (t ∷ ts) rest fits =
    let vs' = vs ++ plain t.kind ∷ [] in
    let grown : vs' ++ types ts ≡ vs ++ types (t ∷ ts) =
      append_assoc vs (plain t.kind ∷ []) (types ts) in
    let later : length (vs' ++ types ts) ≤ max = rw grown fits in
    let now : length vs' ≤ max = omega (arith, length-append vs' (types ts)) in
    let small : ltb max (length vs') ≡ false = ground arith in
    let before : length vs ≤ max = omega (arith, length-append vs (plain t.kind ∷ [])) in
    rw
      (
        append_assoc (encode_type t) (encode_types ts) rest,
        read_verification_type-encode_type t (encode_types ts ++ rest),
        push_local_fits max vs (plain t.kind) before,
        small,
        ← grown,
      )
      (read_stack-encode_types max vs' ts rest later)
