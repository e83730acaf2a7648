-- ===== src/Handles/Restore.antt =====
-- vm/bjvm.c: the table of handles around a native call.
use mathlib.Core.Option.{some_inj}
use b_jvm.Common.{
  ℕ, zero, suc, ◌+◌, ◌≡◌, refl, sym, ap, ◌∙◌, Bool, true, false, List, [], ◌∷◌, Option, none, some,
  ◌>>=◌, ◌==◌, set, arith, Bool-cases, inl, inr, >>=-eq-some, ◌<◌, ◌^◌, length, take, u8,
}
use b_jvm.Handles.{
  Handle, shifted, find_slot, make_handle, drop_handle, Value, wrap_args, with_receiver,
  make_handles_array, drop_value, drop_args, drop_handles_array,
}

set-set : (l : List ℕ) (i j : ℕ) → set (set l i 0) j 0 ≡ set (set l j 0) i 0
set-set [] i j = refl
set-set (x ∷ l) zero zero = refl
set-set (x ∷ l) zero (suc j) = refl
set-set (x ∷ l) (suc i) zero = refl
set-set (x ∷ l) (suc i) (suc j) = ap (λ m. x ∷ m) (set-set l i j)

drop_handle-drop_value :
    (h : Handle) (v : Value) (l : List ℕ)
    → drop_handle h (drop_value v l) ≡ drop_value v (drop_handle h l)
drop_handle-drop_value Handle.null_handle v l = refl
drop_handle-drop_value (Handle.slot i) (Value.bits n) l = refl
drop_handle-drop_value (Handle.slot i) (Value.handle Handle.null_handle) l = refl
drop_handle-drop_value (Handle.slot i) (Value.handle (Handle.slot j)) l = set-set l j i

drop_args-drop_handle :
    (bs : List Bool) (vs : List Value) (h : Handle) (l l' : List ℕ)
    → drop_args bs vs l ≡ some l'
    → drop_args bs vs (drop_handle h l) ≡ some (drop_handle h l')
unfolding drop_args
drop_args-drop_handle [] vs h l l' e = ap (λ x. some (drop_handle h x)) (some_inj.0 e)
drop_args-drop_handle (true ∷ bs) [] h l l' e = cc
drop_args-drop_handle (true ∷ bs) (v ∷ vs) h l l' e =
    ap (drop_args bs vs) (sym (drop_handle-drop_value h v l))
    ∙ drop_args-drop_handle bs vs h (drop_value v l) l' e
drop_args-drop_handle (false ∷ bs) [] h l l' e = drop_args-drop_handle bs [] h l l' e
drop_args-drop_handle (false ∷ bs) (v ∷ vs) h l l' e = drop_args-drop_handle bs vs h l l' e

shifted-some :
    (o : Option (ℕ × List ℕ)) (x j : ℕ) (hs' : List ℕ)
    → shifted o x ≡ some (j, hs')
    → (r : ℕ × List ℕ) × (o ≡ some r) × (r.0 ≡ j) × ((x ∷ r.1) ≡ hs')
shifted-some none x j hs' h = cc
shifted-some (some r) x j hs' h =
    let e : (r.0, x ∷ r.1) ≡ (j, hs') = some_inj.0 h in
    (r, refl, ap (λ (p : ℕ × List ℕ). p.0) e, ap (λ (p : ℕ × List ℕ). p.1) e)

-- The slot that is found stands `k` entries further on, and was free.
find_slot_lem :
    (hs : List ℕ) (obj i j : ℕ) (hs' : List ℕ)
    → find_slot hs obj i ≡ some (j, hs')
    → (k : ℕ) × (j ≡ i + k) × (set hs' k 0 ≡ hs)
unfolding find_slot
find_slot_lem [] obj i j hs' h = cc
find_slot_lem (x ∷ hs) obj i j hs' h = elim (Bool-cases (x == 0)) [
  | inl free ↦
      let here : (i, obj ∷ hs) ≡ (j, hs') = some_inj.0 (sym (rw free refl) ∙ h) in
      let null : x ≡ 0 = ground (arith, free) in
      (
        0,
        omega (arith, ap (λ (p : ℕ × List ℕ). p.0) here),
        sym (ap (λ (p : ℕ × List ℕ). set p.1 0 0) here) ∙ ap (λ z. z ∷ hs) (sym null),
      )
  | inr used ↦
      let later : shifted (find_slot hs obj (suc i)) x ≡ some (j, hs') = sym (rw used refl) ∙ h in
      let (r, found, same, rest) = shifted-some (find_slot hs obj (suc i)) x j hs' later in
      let (k, at, back) = find_slot_lem hs obj (suc i) r.0 r.1 found in
      (suc k, omega (arith, at, same), sym (ap (λ l. set l (suc k) 0) rest) ∙ ap (λ l. x ∷ l) back)
]

make_handle-drop_handle :
    (hs : List ℕ) (obj : ℕ) (r : Handle × List ℕ)
    → make_handle hs obj ≡ some r
    → drop_handle r.0 r.1 ≡ hs
unfolding make_handle
make_handle-drop_handle hs obj r h = elim (Bool-cases (obj == 0)) [
  | inl null ↦
      let e : (Handle.null_handle, hs) ≡ r = some_inj.0 (sym (rw null refl) ∙ h) in
      sym (ap (λ (p : Handle × List ℕ). drop_handle p.0 p.1) e)
  | inr some_object ↦
      let e : (find_slot hs obj 0 >>= λ q. some (Handle.slot q.0, q.1)) ≡ some r =
        sym (rw some_object refl) ∙ h in
      let (q, found, last) =
        >>=-eq-some (find_slot hs obj 0) (λ (q : ℕ × List ℕ). some (Handle.slot q.0, q.1)) e in
      let (k, at, back) = find_slot_lem hs obj 0 q.0 q.1 found in
      let same : q.0 ≡ k = omega (arith, at) in
      sym (ap (λ (p : Handle × List ℕ). drop_handle p.0 p.1) (some_inj.0 last))
      ∙ ap (λ n. set q.1 n 0) same
      ∙ back
]

wrap_args-drop_args :
    (bs : List Bool) (stack hs : List ℕ) (r : List Value × List ℕ)
    → wrap_args bs stack hs ≡ some r
    → drop_args bs r.0 r.1 ≡ some hs
unfolding wrap_args drop_args
wrap_args-drop_args [] stack hs r h =
    sym (ap (λ (p : List Value × List ℕ). some p.1) (some_inj.0 h))
wrap_args-drop_args (b ∷ bs) [] hs r h = cc
wrap_args-drop_args (true ∷ bs) (v ∷ stack) hs r h =
    let (m, made, after) = >>=-eq-some (make_handle hs v) _ h in
    let (w, wrapped, last) = >>=-eq-some (wrap_args bs stack m.1) _ after in
    sym (ap (λ (p : List Value × List ℕ). drop_args (true ∷ bs) p.0 p.1) (some_inj.0 last))
    ∙ drop_args-drop_handle bs w.0 m.0 w.1 m.1 (wrap_args-drop_args bs stack m.1 w wrapped)
    ∙ ap some (make_handle-drop_handle hs v m made)
wrap_args-drop_args (false ∷ bs) (v ∷ stack) hs r h =
    let (w, wrapped, last) = >>=-eq-some (wrap_args bs stack hs) _ h in
    sym (ap (λ (p : List Value × List ℕ). drop_args (false ∷ bs) p.0 p.1) (some_inj.0 last))
    ∙ wrap_args-drop_args bs stack hs w wrapped

take-length : (l : List Bool) → take (length l) l ≡ l
take-length [] = refl
take-length (x ∷ l) = ap (λ m. x ∷ m) (take-length l)

-- For a native method with fewer than 256 arguments, dropping the handles that were made for them
-- reads no value that was not written and gives the table of handles as it was before: none is
-- lost, and no other is freed.
pub make_handles_array-drop_handles_array :
    (is_static : Bool) (refs : List Bool) (stack hs hs' : List ℕ) (vs : List Value)
    → length refs < 2 ^ 8
    → make_handles_array is_static refs stack hs ≡ some (vs, hs')
    → drop_handles_array is_static refs vs hs' ≡ some hs
unfolding make_handles_array drop_handles_array
make_handles_array-drop_handles_array is_static refs stack hs hs' vs few h =
    let no_wrap : u8 (length refs) ≡ length refs = omega (arith, few) in
    let whole : take (u8 (length refs)) refs ≡ refs =
      ap (λ n. take n refs) no_wrap ∙ take-length refs in
    wrap_args-drop_args (with_receiver is_static refs) stack hs (vs, hs')
      (sym (ap (λ l. wrap_args (with_receiver is_static l) stack hs) whole) ∙ h)
