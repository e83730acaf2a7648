-- ===== src/StackMap/Decode.antt =====
-- `stack_map_frame_iterator_next` of vm/stackmaptable.c on the frames of JVMS 4.7.4.
use b_jvm.Common.{
  ℕ, zero, suc, ◌+◌, ◌-◌, ◌≤◌, ◌≡◌, refl, arith, true, false, ◌||◌, List, [], ◌∷◌, ◌++◌, Bytes,
  length, take, ltb, leb, if◌then◌else◌, append_assoc,
}
use b_jvm.StackMap.{
  ValidationType, Message, done, ◌>>=◌, Iterator, read_u8, read_u16, plain, read_locals, chop,
  finish, one_item, full_stack, full, frame, stack_map_frame_iterator_next,
}
use b_jvm.StackMap.Encode.{
  Typed, u16_bytes, encode_type, encode_types, Frame, IsFrame, encode, delta_of, types,
  locals_after, stack_after, Applies, Explicit, expand,
}
use b_jvm.StackMap.Refine.{
  read_u16-u16_bytes, read_verification_type-encode_type, read_locals-encode_types,
  read_stack-encode_types,
}
use b_jvm.StackMap.Chop.{chop-take}

-- The iterator after a frame.
unfoldable pub after : Iterator → Frame → List ValidationType → Bytes → Iterator
after it f vs rest = record it {
  locals = expand (locals_after f vs);
  stack = stack_after f;
  table = rest;
  has_next = ltb 0 (length rest);
  pc = if it.is_first then it.pc + delta_of f else it.pc + (delta_of f + 1);
  is_first = false;
}

finish_fits :
    (it : Iterator) (delta : ℕ)
    → length it.locals ≤ it.max_locals
    → length it.stack ≤ it.max_stack
    → finish it delta
      ≡ done (record it {
        has_next = ltb 0 (length it.table);
        pc = if it.is_first then it.pc + delta else it.pc + (delta + 1);
        is_first = false;
      })
unfolding finish
finish_fits it delta h k =
    let fits : (ltb it.max_stack (length it.stack) || ltb it.max_locals (length it.locals))
        ≡ false =
      ground arith in
    rw fits

pub chop_kind :
    (it : Iterator) (bs : Bytes) (n : ℕ)
    → 1 ≤ n
    → n ≤ 3
    → frame it (251 - n) bs ≡ (
        chop n it.locals >>= λ locals.
        read_u16 bs >>= λ d. finish (record it { locals = locals; stack = []; table = d.1 }) d.0)
unfolding frame
chop_kind it bs zero h k = absurd (omega arith)
chop_kind it bs (suc zero) h k = refl
chop_kind it bs (suc (suc zero)) h k = refl
chop_kind it bs (suc (suc (suc zero))) h k = refl
chop_kind it bs (suc (suc (suc (suc n)))) h k = absurd (omega arith)

pub append_kind :
    (it : Iterator) (bs : Bytes) (n : ℕ)
    → 1 ≤ n
    → n ≤ 3
    → frame it (n + 251) bs ≡ (
        read_u16 bs >>= λ d.
        read_locals Message.append_overflow n it.max_locals it.locals d.1 >>= λ p.
        finish (record it { locals = p.0; stack = []; table = p.1 }) d.0)
unfolding frame
append_kind it bs zero h k = absurd (omega arith)
append_kind it bs (suc zero) h k = refl
append_kind it bs (suc (suc zero)) h k = refl
append_kind it bs (suc (suc (suc zero))) h k = refl
append_kind it bs (suc (suc (suc (suc n)))) h k = absurd (omega arith)

read_fresh :
    (max : ℕ) (ts : List Typed) (rest : Bytes)
    → length (expand (types ts)) ≤ max
    → read_locals Message.locals_overflow (length ts) max [] (encode_types ts ++ rest)
      ≡ done (expand (types ts), rest)
unfolding expand
read_fresh max ts rest fits = read_locals-encode_types Message.locals_overflow max [] ts rest fits

module _ (it : Iterator) (vs : List ValidationType) (rest : Bytes) (explicit : Explicit vs) where
  Decodes : Frame → Type 0
  Decodes f =
      IsFrame f
      → Applies f vs
      → length (expand (locals_after f vs)) ≤ it.max_locals
      → length (stack_after f) ≤ it.max_stack
      → stack_map_frame_iterator_next (record it { locals = expand vs; table = encode f ++ rest })
        ≡ done (after it f vs rest)

  same-Decodes : (d : ℕ) → Decodes (Frame.same d)
  unfolding Decodes stack_map_frame_iterator_next encode after locals_after stack_after delta_of
      read_u8
  same-Decodes d is app fits fits' =
      let low : leb d 63 ≡ true = ground arith in
      rw (frame, low)
        (finish_fits (record it { locals = expand vs; stack = []; table = rest }) d fits
          (omega arith))

  -- A frame kind between 64 and 127.
  one-Decodes : (d : ℕ) (t : Typed) → Decodes (Frame.same_locals_1 d t)
  unfolding Decodes stack_map_frame_iterator_next encode after locals_after stack_after delta_of
      read_u8 one_item
  one-Decodes d t is app fits fits' =
      let high : leb (d + 64) 63 ≡ false = ground arith in
      let low : leb (d + 64) 127 ≡ true = ground arith in
      let back : d + 64 - 64 ≡ d = omega arith in
      rw (frame, high, low, back, read_verification_type-encode_type t rest)
        (finish_fits (record it { locals = expand vs; stack = plain t.kind ∷ []; table = rest }) d
          fits (omega arith))

  one_extended-Decodes : (d : ℕ) (t : Typed) → Decodes (Frame.same_locals_1_extended d t)
  unfolding Decodes stack_map_frame_iterator_next encode after locals_after stack_after delta_of
      read_u8 one_item
  one_extended-Decodes d t is app fits fits' =
      rw
        (
          frame,
          append_assoc (u16_bytes d) (encode_type t) rest,
          read_u16-u16_bytes d (encode_type t ++ rest),
          read_verification_type-encode_type t rest,
        )
        (finish_fits (record it { locals = expand vs; stack = plain t.kind ∷ []; table = rest }) d
          fits (omega arith))

  chop-Decodes : (n d : ℕ) → Decodes (Frame.chop n d)
  unfolding Decodes stack_map_frame_iterator_next encode after locals_after stack_after delta_of
      read_u8
  chop-Decodes n d is app fits fits' =
      rw
        (
          chop_kind (record it { locals = expand vs; table = encode (Frame.chop n d) ++ rest })
              (u16_bytes d ++ rest) n is.0 is.1,
          chop-take n vs app explicit,
          read_u16-u16_bytes d rest,
        )
        (finish_fits
          (record it { locals = expand (take (length vs - n) vs); stack = []; table = rest }) d fits
          (omega arith))

  same_extended-Decodes : (d : ℕ) → Decodes (Frame.same_extended d)
  unfolding Decodes stack_map_frame_iterator_next encode after locals_after stack_after delta_of
      read_u8
  same_extended-Decodes d is app fits fits' =
      rw (frame, read_u16-u16_bytes d rest)
        (finish_fits (record it { locals = expand vs; stack = []; table = rest }) d fits
          (omega arith))

  append-Decodes : (d : ℕ) (ts : List Typed) → Decodes (Frame.append d ts)
  unfolding Decodes stack_map_frame_iterator_next encode after locals_after stack_after delta_of
      read_u8
  append-Decodes d ts is app fits fits' =
      rw
        (
          append_kind (record it { locals = expand vs; table = encode (Frame.append d ts) ++ rest })
              (u16_bytes d ++ encode_types ts ++ rest) (length ts) is.0 is.1,
          append_assoc (u16_bytes d) (encode_types ts) rest,
          read_u16-u16_bytes d (encode_types ts ++ rest),
          read_locals-encode_types Message.append_overflow it.max_locals vs ts rest fits,
        )
        (finish_fits (record it { locals = expand (vs ++ types ts); stack = []; table = rest }) d
          fits (omega arith))

  full-Decodes : (d : ℕ) (ts ss : List Typed) → Decodes (Frame.full d ts ss)
  unfolding Decodes stack_map_frame_iterator_next encode after locals_after stack_after delta_of
      read_u8 full full_stack
  full-Decodes d ts ss is app fits fits' =
      let n = u16_bytes (length ts) in
      let m = u16_bytes (length ss) in
      let tail = encode_types ss ++ rest in
      simp append_assoc (
        rw
          (
            frame,
            read_u16-u16_bytes d (n ++ (encode_types ts ++ (m ++ tail))),
            read_u16-u16_bytes (length ts) (encode_types ts ++ (m ++ tail)),
            read_fresh it.max_locals ts (m ++ tail) fits,
            read_u16-u16_bytes (length ss) tail,
            read_stack-encode_types it.max_stack [] ss rest fits',
          )
          (finish_fits (record it { locals = expand (types ts); stack = types ss; table = rest }) d
            fits fits'))

  -- The iterator reads every frame of the format back: the types that the frame makes of those before
  -- it, a wide one followed by an implicit top, the offset, and the rest of the table. The frame is to
  -- apply, and its result to lie within the method's limits.
  pub stack_map_frame_iterator_next-encode :
      (f : Frame)
      → IsFrame f
      → Applies f vs
      → length (expand (locals_after f vs)) ≤ it.max_locals
      → length (stack_after f) ≤ it.max_stack
      → stack_map_frame_iterator_next (record it { locals = expand vs; table = encode f ++ rest })
        ≡ done (after it f vs rest)
  unfolding Decodes
  stack_map_frame_iterator_next-encode (Frame.same d) = same-Decodes d
  stack_map_frame_iterator_next-encode (Frame.same_locals_1 d t) = one-Decodes d t
  stack_map_frame_iterator_next-encode (Frame.same_locals_1_extended d t) = one_extended-Decodes d t
  stack_map_frame_iterator_next-encode (Frame.chop n d) = chop-Decodes n d
  stack_map_frame_iterator_next-encode (Frame.same_extended d) = same_extended-Decodes d
  stack_map_frame_iterator_next-encode (Frame.append d ts) = append-Decodes d ts
  stack_map_frame_iterator_next-encode (Frame.full d ts ss) = full-Decodes d ts ss
