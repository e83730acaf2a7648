-- ===== src/Handles.antt =====
-- vm/bjvm.c: the handles of a thread, through which native code holds objects that the collector may
-- move. An object is a number, 0 for null; a handle is null or an index into the thread's table.
mod Restore
mod Tests
use b_jvm.Common.{
  ℕ, zero, suc, ◌+◌, ◌≡◌, Bool, true, false, List, [], ◌∷◌, Option, none, some, ◌>>=◌, ◌==◌,
  if◌then◌else◌, set, length, take, u8,
}

data Handle : Type 0 where
  null_handle : Handle
  slot : ℕ → Handle

abbrev shifted : Option (ℕ × List ℕ) → ℕ → Option (ℕ × List ℕ)
shifted none h = none
shifted (some (i, hs)) h = some (i, h ∷ hs)

-- The first free slot from index `i` on; `none` is UNREACHABLE, no slot is left.
unfoldable find_slot : List ℕ → ℕ → ℕ → Option (ℕ × List ℕ)
find_slot [] obj i = none
find_slot (h ∷ hs) obj i =
    let rest = find_slot hs obj (suc i) in if h == 0 then some (i, obj ∷ hs) else shifted rest h

unfoldable make_handle : List ℕ → ℕ → Option (Handle × List ℕ)
unfolding find_slot
make_handle hs obj =
    if obj == 0
    then some (Handle.null_handle, hs)
    else (find_slot hs obj 0 >>= λ r. some (Handle.slot r.0, r.1))

abbrev drop_handle : Handle → List ℕ → List ℕ
drop_handle Handle.null_handle hs = hs
drop_handle (Handle.slot i) hs = set hs i 0

-- An argument of a native method: a handle, or the bits of a primitive.
data Value : Type 0 where
  handle : Handle → Value
  bits : ℕ → Value

-- The loop of `make_handles_array` over the arguments: whether each is a reference, and what stands
-- on the stack. A stack that is too short is undefined.
unfoldable wrap_args : List Bool → List ℕ → List ℕ → Option (List Value × List ℕ)
unfolding make_handle
wrap_args [] stack hs = some ([], hs)
wrap_args (b ∷ bs) [] hs = none
wrap_args (true ∷ bs) (v ∷ stack) hs = do
  (h, hs₁) ← make_handle hs v
  (vs, hs₂) ← wrap_args bs stack hs₁
  some (Value.handle h ∷ vs, hs₂)
wrap_args (false ∷ bs) (v ∷ stack) hs = do
  (vs, hs₁) ← wrap_args bs stack hs
  some (Value.bits v ∷ vs, hs₁)

-- The receiver of a method that is not static comes first.
abbrev with_receiver : Bool → List Bool → List Bool
with_receiver is_static refs = if is_static then refs else true ∷ refs

-- The number of arguments is held in a `u8`.
unfoldable make_handles_array : Bool → List Bool → List ℕ → List ℕ → Option (List Value × List ℕ)
unfolding wrap_args
make_handles_array is_static refs stack hs =
    wrap_args (with_receiver is_static (take (u8 (length refs)) refs)) stack hs

abbrev drop_value : Value → List ℕ → List ℕ
drop_value (Value.handle h) hs = drop_handle h hs
drop_value (Value.bits n) hs = hs

-- The loop of `drop_handles_array`, over all arguments; `none` where a handle is read that was never
-- written.
unfoldable drop_args : List Bool → List Value → List ℕ → Option (List ℕ)
drop_args [] vs hs = some hs
drop_args (true ∷ bs) [] hs = none
drop_args (true ∷ bs) (v ∷ vs) hs = drop_args bs vs (drop_value v hs)
drop_args (false ∷ bs) [] hs = drop_args bs [] hs
drop_args (false ∷ bs) (v ∷ vs) hs = drop_args bs vs hs

unfoldable drop_handles_array : Bool → List Bool → List Value → List ℕ → Option (List ℕ)
unfolding drop_args
drop_handles_array is_static refs vs hs = drop_args (with_receiver is_static refs) vs hs
