-- ===== src/StackMap/Faults.antt =====
-- vm/stackmaptable.c: two kinds of frames make the iterator leave its buffer of locals.
use b_jvm.Common.{
  ℕ, zero, suc, ◌≤◌, ◌<◌, ◌≡◌, refl, arith, true, false, List, [], ◌∷◌, ◌++◌, Bytes, length,
  length-append, leb, append_assoc,
}
use b_jvm.StackMap.{
  Kind, ValidationType, fault, Iterator, read_u8, plain, implicit, is_wide, push_local, push_type,
  read_locals, last, chop_one, chop, stack_map_frame_iterator_next,
}
use b_jvm.StackMap.Encode.{Typed, u16_bytes, encode_type, encode_types, Frame, encode}
use b_jvm.StackMap.Refine.{read_u16-u16_bytes, read_verification_type-encode_type, push_local_fits}
use b_jvm.StackMap.Decode.{chop_kind, append_kind}

push_local_full :
    (max : ℕ) (vs : List ValidationType) (v : ValidationType)
    → max < length vs
    → push_local max vs v ≡ fault
unfolding push_local
push_local_full max vs v h = let over : leb (length vs) max ≡ false = ground arith in rw over

push_type_full :
    (max : ℕ) (vs : List ValidationType) (k : Kind)
    → length vs ≡ max
    → is_wide k ≡ true
    → push_type max vs k ≡ fault
unfolding push_type
push_type_full max vs k full wide =
    rw (push_local_fits max vs (plain k) (omega arith), wide)
      (push_local_full max (vs ++ plain k ∷ []) implicit
        (omega (arith, length-append vs (plain k ∷ []))))

-- With as many locals as the method may have, an append_frame that begins with a double or a long is
-- not refused: its implicit top is written past the end of the buffer.
pub append_wide-fault :
    (it : Iterator) (d : ℕ) (t : Typed) (ts : List Typed) (rest : Bytes)
    → length it.locals ≡ it.max_locals
    → is_wide t.kind ≡ true
    → length ts ≤ 2
    → stack_map_frame_iterator_next (record it { table = encode (Frame.append d (t ∷ ts)) ++ rest })
      ≡ fault
unfolding stack_map_frame_iterator_next encode read_u8 encode_types read_locals
append_wide-fault it d t ts rest full wide few = rw (
  append_kind (record it { table = encode (Frame.append d (t ∷ ts)) ++ rest })
      (u16_bytes d ++ encode_types (t ∷ ts) ++ rest) (suc (length ts)) (omega arith) (omega arith),
  append_assoc (u16_bytes d) (encode_types (t ∷ ts)) rest,
  read_u16-u16_bytes d (encode_types (t ∷ ts) ++ rest),
  append_assoc (encode_type t) (encode_types ts) rest,
  read_verification_type-encode_type t (encode_types ts ++ rest),
  push_type_full it.max_locals it.locals t.kind full wide,
)

chop_nil : (n : ℕ) → 1 ≤ n → chop n [] ≡ fault
unfolding chop chop_one last
chop_nil zero h = absurd (omega arith)
chop_nil (suc n) h = refl

-- With no locals, a chop_frame is not refused as an underflow: the entry before the buffer is read.
pub chop_empty-fault :
    (it : Iterator) (n d : ℕ) (rest : Bytes)
    → it.locals ≡ []
    → 1 ≤ n
    → n ≤ 3
    → stack_map_frame_iterator_next (record it { table = encode (Frame.chop n d) ++ rest }) ≡ fault
unfolding stack_map_frame_iterator_next encode read_u8
chop_empty-fault it n d rest none_ h k = rw (
  chop_kind (record it { table = encode (Frame.chop n d) ++ rest }) (u16_bytes d ++ rest) n h k,
  none_,
  chop_nil n h,
)
