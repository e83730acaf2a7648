-- ===== src/Handles/Tests.antt =====
-- vm/bjvm.c: handles for a call of a native method with a receiver, an int and an object, and for a
-- call with too many arguments.
use b_jvm.Common.{replicate, none, ◌≡◌, refl, true, false, List, [], ◌∷◌, some, arith}
use b_jvm.Handles.{
  Handle, Value, find_slot, wrap_args, make_handle, make_handles_array, drop_handles_array,
  drop_args,
}
use b_jvm.Handles.Restore.{make_handles_array-drop_handles_array}

abbrev wrapped : List Value
wrapped = Value.handle (Handle.slot 1) ∷ Value.bits 5 ∷ Value.handle (Handle.slot 3) ∷ []

make_handles_array-drop_handles_array_example :
    drop_handles_array false (false ∷ true ∷ []) wrapped (70 ∷ 81 ∷ 72 ∷ 82 ∷ [])
    ≡ some (70 ∷ 0 ∷ 72 ∷ 0 ∷ [])
unfolding make_handles_array wrap_args make_handle find_slot
make_handles_array-drop_handles_array_example =
    make_handles_array-drop_handles_array false (false ∷ true ∷ []) (81 ∷ 5 ∷ 82 ∷ [])
      (70 ∷ 0 ∷ 72 ∷ 0 ∷ []) (70 ∷ 81 ∷ 72 ∷ 82 ∷ []) wrapped (omega arith) refl

-- With 256 references, none is written to the array, and the first is read.
too_many_are_not_written :
    make_handles_array true (replicate 256 true) (81 ∷ []) (70 ∷ []) ≡ some ([], 70 ∷ [])
unfolding make_handles_array wrap_args
too_many_are_not_written = refl

too_many_are_read : drop_handles_array true (replicate 256 true) [] (70 ∷ []) ≡ none
unfolding drop_handles_array drop_args
too_many_are_read = refl
