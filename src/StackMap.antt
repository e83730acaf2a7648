-- ===== src/StackMap.antt =====
-- vm/stackmaptable.c: the iterator over the frames of a StackMapTable attribute (JVMS 4.7.4). The
-- buffer `iter->locals` has `max_locals + 1` entries and is written at `locals_size` only, so its part
-- below `locals_size` stands for it; likewise the stack. `fault` is an access outside a buffer.
use b_jvm.Common.{
  ℕ, zero, suc, ◌+◌, ◌-◌, ◌*◌, Bool, true, false, ◌&&◌, ◌||◌, List, [], ◌∷◌, ◌++◌, Option, none,
  some, Bytes, length, take, drop, ltb, leb, ◌==◌, if◌then◌else◌,
}
pub mod Bounds
pub mod Encode
pub mod Refine
pub mod Chop
pub mod Decode
pub mod Faults
pub mod Start
mod Tests
pub mod Entry

-- `stack_map_frame_validation_type_kind`, in its order
pub data Kind : Type 0 where
  top integer float double long null uninit_this object uninit : Kind

-- `name`: only null, the mark of an implicit "top" and the method's own class occur.
pub data Name : Type 0 where
  nothing implicit_top own_class : Name

pub record ValidationType : Type 0 where
  pub kind : Kind
  pub name : Name

pub data Message : Type 0 where
  unexpected_end invalid_type reserved_kind chop_underflow append_overflow locals_overflow : Message
  stack_overflow frame_overflow : Message

pub data Run (A : Type 0) : Type 0 where
  done : A → Run A
  fail : Message → Run A
  fault : Run A

infixl 5 ◌>>=◌
abbrev pub ◌>>=◌ : {A B : Type 0} → Run A → (A → Run B) → Run B
done a >>= f = f a
fail m >>= f = fail m
fault >>= f = fault

-- `code`: max_locals and max_stack; `table`: what is left to read
pub record Iterator : Type 0 where
  pub pc : ℕ
  pub stack : List ValidationType
  pub locals : List ValidationType
  pub table : Bytes
  pub has_next : Bool
  pub is_first : Bool
  pub max_locals : ℕ
  pub max_stack : ℕ

unfoldable pub read_u8 : Bytes → Run (ℕ × Bytes)
read_u8 [] = fail Message.unexpected_end
read_u8 (b ∷ bs) = done (b, bs)

-- big-endian
unfoldable pub read_u16 : Bytes → Run (ℕ × Bytes)
read_u16 [] = fail Message.unexpected_end
read_u16 (b ∷ []) = fail Message.unexpected_end
read_u16 (b ∷ c ∷ bs) = done (b * 256 + c, bs)

-- `none`: above STACK_MAP_FRAME_VALIDATION_TYPE_UNINIT
unfoldable pub kind_of : ℕ → Option Kind
kind_of c =
    if c == 0
    then some Kind.top
    else if c == 1
    then some Kind.integer
    else if c == 2
    then some Kind.float
    else if c == 3
    then some Kind.double
    else if c == 4
    then some Kind.long
    else if c == 5
    then some Kind.null
    else if c == 6
    then some Kind.uninit_this
    else if c == 7
    then some Kind.object
    else if c == 8
    then some Kind.uninit
    else none

abbrev pub plain : Kind → ValidationType
plain k = record { kind = k; name = Name.nothing }

abbrev pub implicit : ValidationType
implicit = record { kind = Kind.top; name = Name.implicit_top }

unfoldable pub is_wide : Kind → Bool
is_wide Kind.double = true
is_wide Kind.long = true
is_wide k = false

-- An index follows the two kinds that name a class or an instruction.
unfoldable pub has_index : Kind → Bool
has_index Kind.object = true
has_index Kind.uninit = true
has_index k = false

unfoldable pub read_index : Kind → Bytes → Run (Kind × Bytes)
unfolding has_index read_u16
read_index k bs = if has_index k then (read_u16 bs >>= λ p. done (k, p.1)) else done (k, bs)

unfoldable pub read_kind : Option Kind → Bytes → Run (Kind × Bytes)
unfolding read_index
read_kind none bs = fail Message.invalid_type
read_kind (some k) bs = read_index k bs

unfoldable pub read_verification_type : Bytes → Run (Kind × Bytes)
unfolding read_u8 read_kind
read_verification_type bs = read_u8 bs >>= λ p. read_kind (kind_of p.0) p.1

-- `*(iter->locals + iter->locals_size++) = v`
unfoldable pub push_local : ℕ → List ValidationType → ValidationType → Run (List ValidationType)
push_local max_locals locals v =
    if leb (length locals) max_locals then done (locals ++ v ∷ []) else fault

-- A wide type is followed by an implicit "top".
unfoldable pub push_type : ℕ → List ValidationType → Kind → Run (List ValidationType)
unfolding push_local
push_type max_locals locals k = push_local max_locals locals (plain k) >>= λ ls.
    if is_wide k then push_local max_locals ls implicit else done ls

-- The loops of append_frame and of full_frame over the locals, with `n` rounds left.
unfoldable pub read_locals :
    Message → ℕ → ℕ → List ValidationType → Bytes → Run (List ValidationType × Bytes)
unfolding push_type
read_locals overflow zero max_locals locals bs = done (locals, bs)
read_locals overflow (suc n) max_locals locals bs = read_verification_type bs >>= λ p.
    push_type max_locals locals p.0 >>= λ ls.
    let rest = read_locals overflow n max_locals ls p.1 in
    if ltb max_locals (length ls) then fail overflow else rest

-- The loop of full_frame over the stack. Its buffer holds the one entry too many.
unfoldable pub read_stack : ℕ → ℕ → List ValidationType → Bytes → Run (List ValidationType × Bytes)
unfolding push_local
read_stack zero max_stack stack bs = done (stack, bs)
read_stack (suc n) max_stack stack bs = read_verification_type bs >>= λ p.
    push_local max_stack stack (plain p.0) >>= λ st.
    let rest = read_stack n max_stack st p.1 in
    if ltb max_stack (length st) then fail Message.stack_overflow else rest

unfoldable pub is_implicit_top : ValidationType → Bool
is_implicit_top v = elim v.kind [
  | Kind.top ↦ elim v.name [ Name.implicit_top ↦ true | _ ↦ false ]
  | _ ↦ false
]

unfoldable pub last : List ValidationType → Option ValidationType
last [] = none
last (v ∷ []) = some v
last (v ∷ w ∷ vs) = last (w ∷ vs)

unfoldable pub init : List ValidationType → List ValidationType
init [] = []
init (v ∷ []) = []
init (v ∷ w ∷ vs) = v ∷ init (w ∷ vs)

unfoldable pub drop_wide : List ValidationType → Run (List ValidationType)
unfolding init
drop_wide [] = fail Message.chop_underflow
drop_wide (v ∷ vs) = done (init (v ∷ vs))

unfoldable pub chop_last : Option ValidationType → List ValidationType → Run (List ValidationType)
chop_last none locals = fault
chop_last (some v) locals =
    if is_implicit_top v then drop_wide (init locals) else done (init locals)

-- One round of chop_frame. The entry below `locals_size` is read before `locals_size` is tested.
unfoldable pub chop_one : List ValidationType → Run (List ValidationType)
unfolding chop_last
chop_one locals = chop_last (last locals) locals

unfoldable pub chop : ℕ → List ValidationType → Run (List ValidationType)
unfolding chop_one
chop zero locals = done locals
chop (suc n) locals = chop_one locals >>= chop n

-- The end of `stack_map_frame_iterator_next`, `increment_pc` included.
unfoldable pub finish : Iterator → ℕ → Run Iterator
finish it offset_delta =
    if ltb it.max_stack (length it.stack) || ltb it.max_locals (length it.locals)
    then fail Message.frame_overflow
    else done (record it {
      has_next = ltb 0 (length it.table);
      pc = if it.is_first then it.pc + offset_delta else it.pc + (offset_delta + 1);
      is_first = false;
    })

unfoldable pub one_item : Iterator → ℕ → Bytes → Run Iterator
one_item it delta bs = read_verification_type bs >>= λ p.
    finish (record it { stack = plain p.0 ∷ []; table = p.1 }) delta

unfoldable pub full_stack : Iterator → ℕ → List ValidationType → Bytes → Run Iterator
unfolding read_stack
full_stack it delta locals bs = read_u16 bs >>= λ n. read_stack n.0 it.max_stack [] n.1 >>= λ p.
    finish (record it { locals = locals; stack = p.0; table = p.1 }) delta

unfoldable pub full : Iterator → ℕ → Bytes → Run Iterator
unfolding full_stack read_locals
full it delta bs = read_u16 bs >>= λ n.
    read_locals Message.locals_overflow n.0 it.max_locals [] n.1 >>= λ p.
    full_stack it delta p.0 p.1

-- The branches on `frame_kind`, with `bs` what follows it.
unfoldable pub frame : Iterator → ℕ → Bytes → Run Iterator
unfolding one_item full finish chop read_locals
frame it kind bs =
    if leb kind 63
    then finish (record it { stack = []; table = bs }) kind
    else if leb kind 127
    then one_item it (kind - 64) bs
    else if leb kind 246
    then fail Message.reserved_kind
    else if kind == 247
    then (read_u16 bs >>= λ d. one_item it d.0 d.1)
    else if leb kind 250
    then (chop (251 - kind) it.locals >>= λ locals.
        read_u16 bs >>= λ d. finish (record it { locals = locals; stack = []; table = d.1 }) d.0)
    else if kind == 251
    then (read_u16 bs >>= λ d. finish (record it { stack = []; table = d.1 }) d.0)
    else if leb kind 254
    then (read_u16 bs >>= λ d.
        read_locals Message.append_overflow (kind - 251) it.max_locals it.locals d.1 >>= λ p.
        finish (record it { locals = p.0; stack = []; table = p.1 }) d.0)
    else (read_u16 bs >>= λ d. full it d.0 d.1)

unfoldable pub stack_map_frame_iterator_next : Iterator → Run Iterator
unfolding frame
stack_map_frame_iterator_next it = read_u8 it.table >>= λ p. frame it p.0 p.1
