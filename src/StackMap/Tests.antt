-- ===== src/StackMap/Tests.antt =====
-- The StackMapTable iterator of vm/stackmaptable.c: runs, and the theorems at them.
use b_jvm.Common.{◌-◌, ◌<◌, ◌≡◌, refl, arith, true, false, List, [], ◌∷◌, ◌++◌, some, length}
use b_jvm.Descriptor.{TypeKind}
use b_jvm.StackMap.{
  Kind, ValidationType, done, fault, Iterator, plain, implicit, is_wide,
  stack_map_frame_iterator_next, push_type, kind_of, is_implicit_top, read_u8, read_u16,
  read_verification_type,
}
use b_jvm.StackMap.Encode.{Typed, Frame, encode, locals_after, stack_after, expand}
use b_jvm.StackMap.Start.{Method, init_locals, stack_map_frame_iterator_init}
use b_jvm.StackMap.Bounds.{Advanced, stack_map_frame_iterator_next-Advanced}
use b_jvm.StackMap.Decode.{after, stack_map_frame_iterator_next-encode}
use b_jvm.StackMap.Entry.{init_locals-entry_locals}
use b_jvm.StackMap.Faults.{append_wide-fault}

-- static long f(int n, double x), three locals and a long behind them
abbrev f_method : Method
f_method = record {
  is_static = true;
  is_ctor = false;
  args = TypeKind.int ∷ TypeKind.double ∷ [];
  max_locals = 5;
  max_stack = 4;
  stack_map_table = some (252 ∷ 0 ∷ 7 ∷ 4 ∷ 250 ∷ 0 ∷ 3 ∷ []);
}

abbrev entry : Iterator
entry = record {
  pc = 0;
  stack = [];
  locals = plain Kind.integer ∷ plain Kind.double ∷ implicit ∷ [];
  table = 252 ∷ 0 ∷ 7 ∷ 4 ∷ 250 ∷ 0 ∷ 3 ∷ [];
  has_next = true;
  is_first = true;
  max_locals = 5;
  max_stack = 4;
}

abbrev loop_head : Iterator
loop_head = record entry {
  locals = plain Kind.integer ∷ plain Kind.double ∷ implicit ∷ plain Kind.long ∷ implicit ∷ [];
  table = 250 ∷ 0 ∷ 3 ∷ [];
  pc = 7;
  is_first = false;
}

f_starts : stack_map_frame_iterator_init f_method ≡ done entry
unfolding stack_map_frame_iterator_init push_type is_wide
f_starts = refl

f_goes_on : stack_map_frame_iterator_next entry ≡ done loop_head
unfolding stack_map_frame_iterator_next push_type kind_of is_wide read_u8 read_u16
    read_verification_type
f_goes_on = refl

abbrev typed_long : Typed
typed_long = record { kind = Kind.long; index = 0 }

abbrev entry_vs : List ValidationType
entry_vs = plain Kind.integer ∷ plain Kind.double ∷ []

stack_map_frame_iterator_next-encode_example :
    stack_map_frame_iterator_next (record entry {
      locals = expand entry_vs;
      table = encode (Frame.append 7 (typed_long ∷ [])) ++ (250 ∷ 0 ∷ 3 ∷ []);
    })
    ≡ done (after entry (Frame.append 7 (typed_long ∷ [])) entry_vs (250 ∷ 0 ∷ 3 ∷ []))
unfolding is_implicit_top expand locals_after stack_after is_wide
stack_map_frame_iterator_next-encode_example =
    stack_map_frame_iterator_next-encode entry entry_vs (250 ∷ 0 ∷ 3 ∷ []) (refl, (refl, tt))
      (Frame.append 7 (typed_long ∷ [])) (omega arith, omega arith) tt (omega arith) (omega arith)

stack_map_frame_iterator_next-Advanced_example :
    Advanced entry (length entry.table - 1) loop_head
    × (length loop_head.table < length entry.table)
stack_map_frame_iterator_next-Advanced_example =
    stack_map_frame_iterator_next-Advanced entry loop_head f_goes_on

init_locals-entry_locals_example :
    init_locals f_method ≡ done (plain Kind.integer ∷ plain Kind.double ∷ implicit ∷ [])
init_locals-entry_locals_example = init_locals-entry_locals f_method (omega arith)

append_wide-fault_example :
    stack_map_frame_iterator_next
      (record loop_head { table = encode (Frame.append 1 (typed_long ∷ [])) ++ [] })
    ≡ fault
unfolding is_wide
append_wide-fault_example = append_wide-fault loop_head 1 typed_long [] [] refl refl (omega arith)
