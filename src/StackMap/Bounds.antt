-- ===== src/StackMap/Bounds.antt =====
-- vm/stackmaptable.c: a frame that is read lies within the declared limits, and uses up input.
use b_jvm.Common.{
  ℕ, zero, suc, ◌+◌, ◌-◌, ◌≤◌, ◌<◌, ◌≡◌, refl, arith, Bool, true, false, ◌||◌, List, [], ◌∷◌,
  Option, none, some, Bytes, length, ltb, leb, ◌==◌, if◌then◌else◌, subst, Bool-cases, inl, inr,
}
use b_jvm.StackMap.{
  Kind, ValidationType, Message, Run, done, fail, fault, ◌>>=◌, Iterator, read_u8, read_u16,
  kind_of, has_index, plain, read_index, read_kind, read_verification_type, read_locals, read_stack,
  chop, push_type, push_local, finish, one_item, full_stack, full, frame,
  stack_map_frame_iterator_next,
}

-- What holds of a value that is returned.
pub data After {A : Type 0} (P : A → Type 0) : Run A → Type 0 where
  returns : {a : A} → P a → After P (done a)
  fails : {m : Message} → After P (fail m)
  faults : After P fault

pub After->>= :
    {A B : Type 0} {Q : A → Type 0} {P : B → Type 0} (m : Run A) (f : A → Run B)
    → After Q m
    → ((a : A) → Q a → After P (f a))
    → After P (m >>= f)
After->>= m f (returns {a = x} h) k = k x h
After->>= m f fails k = fails
After->>= m f faults k = faults

pub After-if :
    {A : Type 0} {P : A → Type 0} (b : Bool) (x y : Run A)
    → After P x
    → After P y
    → After P (if b then x else y)
After-if true x y h k = h
After-if false x y h k = k

pub After-eq_done : {A : Type 0} {P : A → Type 0} {r : Run A} {a : A} → After P r → r ≡ done a → P a
After-eq_done {P} (returns h) e = subst P (cc) h
After-eq_done fails e = cc
After-eq_done faults e = cc

abbrev Shorter : {A : Type 0} → ℕ → A × Bytes → Type 0
Shorter n p = length p.1 ≤ n

read_u8_uses : (bs : Bytes) → After (λ p. length p.1 + 1 ≤ length bs) (read_u8 bs)
unfolding read_u8
read_u8_uses [] = fails
read_u8_uses (b ∷ bs) = returns (omega arith)

read_u16_uses : (bs : Bytes) (n : ℕ) → length bs ≤ n → After (Shorter n) (read_u16 bs)
unfolding read_u16
read_u16_uses [] n h = fails
read_u16_uses (b ∷ []) n h = fails
read_u16_uses (b ∷ c ∷ bs) n h = returns (omega arith)

read_index_uses :
    (k : Kind) (bs : Bytes) (n : ℕ) → length bs ≤ n → After (Shorter n) (read_index k bs)
unfolding read_index
read_index_uses k bs n h =
    After-if (has_index k) _ _ (After->>= (read_u16 bs) _ (read_u16_uses bs n h) (λ p q. returns q))
      (returns h)

read_kind_uses :
    (o : Option Kind) (bs : Bytes) (n : ℕ) → length bs ≤ n → After (Shorter n) (read_kind o bs)
unfolding read_kind
read_kind_uses none bs n h = fails
read_kind_uses (some k) bs n h = read_index_uses k bs n h

read_type_uses :
    (bs : Bytes) (n : ℕ) → length bs ≤ n → After (Shorter n) (read_verification_type bs)
unfolding read_verification_type
read_type_uses bs n h =
    After->>= (read_u8 bs) _ (read_u8_uses bs)
      (λ p q. read_kind_uses (kind_of p.0) p.1 n (omega arith))

any : {A : Type 0} (m : Run A) → After (λ a. Unit {0}) m
any (done a) = returns tt
any (fail m) = fails
any fault = faults

read_locals_uses :
    (e : Message) (i max : ℕ) (locals : List ValidationType) (bs : Bytes) (n : ℕ)
    → length bs ≤ n
    → After (Shorter n) (read_locals e i max locals bs)
unfolding read_locals
read_locals_uses e zero max locals bs n h = returns h
read_locals_uses e (suc i) max locals bs n h =
    After->>= (read_verification_type bs) _ (read_type_uses bs n h) (λ p q.
      After->>= (push_type max locals p.0) _ (any _)
        (λ ls u. After-if (ltb max (length ls)) _ _ fails (read_locals_uses e i max ls p.1 n q)))

read_stack_uses :
    (i max : ℕ) (stack : List ValidationType) (bs : Bytes) (n : ℕ)
    → length bs ≤ n
    → After (Shorter n) (read_stack i max stack bs)
unfolding read_stack
read_stack_uses zero max stack bs n h = returns h
read_stack_uses (suc i) max stack bs n h =
    After->>= (read_verification_type bs) _ (read_type_uses bs n h) (λ p q.
      After->>= (push_local max stack (plain p.0)) _ (any _)
        (λ st u. After-if (ltb max (length st)) _ _ fails (read_stack_uses i max st p.1 n q)))

-- A frame within the limits of `it`, with at most `n` bytes left to read.
pub record Advanced (it : Iterator) (n : ℕ) (it' : Iterator) : Type 0 where
  pub locals_fit : length it'.locals ≤ it.max_locals
  pub stack_fits : length it'.stack ≤ it.max_stack
  pub left : length it'.table ≤ n
  pub more : it'.has_next ≡ ltb 0 (length it'.table)
  pub same_locals : it'.max_locals ≡ it.max_locals
  pub same_stack : it'.max_stack ≡ it.max_stack
  pub past_first : it'.is_first ≡ false

module _ (it : Iterator) (n : ℕ) where
  finish-Advanced :
      (locals stack : List ValidationType) (bs : Bytes) (delta : ℕ)
      → length bs ≤ n
      → After
          (Advanced it n)
          (finish (record it { locals = locals; stack = stack; table = bs }) delta)
  unfolding finish
  finish-Advanced locals stack bs delta h =
      elim (Bool-cases (ltb it.max_stack (length stack) || ltb it.max_locals (length locals))) [
        | inl over ↦ rw over fails
        | inr fits ↦ rw fits (
            returns (record {
              locals_fit = ground arith;
              stack_fits = ground arith;
              left = h;
              more = refl;
              same_locals = refl;
              same_stack = refl;
              past_first = refl;
            }))
      ]

  one_item-Advanced :
      (delta : ℕ) (bs : Bytes) → length bs ≤ n → After (Advanced it n) (one_item it delta bs)
  unfolding one_item
  one_item-Advanced delta bs h =
      After->>= (read_verification_type bs) _ (read_type_uses bs n h)
        (λ p q. finish-Advanced it.locals (plain p.0 ∷ []) p.1 delta q)

  full-Advanced :
      (delta : ℕ) (bs : Bytes) → length bs ≤ n → After (Advanced it n) (full it delta bs)
  unfolding full full_stack
  full-Advanced delta bs h = After->>= (read_u16 bs) _ (read_u16_uses bs n h) (λ p q.
      After->>= (read_locals Message.locals_overflow p.0 it.max_locals [] p.1) _
        (read_locals_uses Message.locals_overflow p.0 it.max_locals [] p.1 n q)
        (λ r s. After->>= (read_u16 r.1) _ (read_u16_uses r.1 n s) (λ t u.
          After->>= (read_stack t.0 it.max_stack [] t.1) _
            (read_stack_uses t.0 it.max_stack [] t.1 n u)
            (λ v w. finish-Advanced r.0 v.0 v.1 delta w))))

  frame-Advanced :
      (kind : ℕ) (bs : Bytes) → length bs ≤ n → After (Advanced it n) (frame it kind bs)
  unfolding frame
  frame-Advanced kind bs h = After-if (leb kind 63) _ _ (finish-Advanced it.locals [] bs kind h) (
      After-if (leb kind 127) _ _ (one_item-Advanced (kind - 64) bs h) (
        After-if (leb kind 246) _ _ fails (
          After-if (kind == 247) _ _
            (After->>= (read_u16 bs) _ (read_u16_uses bs n h) (λ p q. one_item-Advanced p.0 p.1 q))
            (After-if (leb kind 250) _ _
              (After->>= (chop (251 - kind) it.locals) _ (any _) (λ ls u.
                After->>= (read_u16 bs) _ (read_u16_uses bs n h)
                  (λ p q. finish-Advanced ls [] p.1 p.0 q)))
              (After-if (kind == 251) _ _
                (After->>= (read_u16 bs) _ (read_u16_uses bs n h)
                  (λ p q. finish-Advanced it.locals [] p.1 p.0 q))
                (After-if (leb kind 254) _ _
                  (After->>= (read_u16 bs) _ (read_u16_uses bs n h) (λ p q.
                    After->>=
                      (read_locals Message.append_overflow (kind - 251) it.max_locals it.locals p.1)
                      _
                      (read_locals_uses Message.append_overflow (kind - 251) it.max_locals it.locals
                        p.1 n q)
                      (λ r s. finish-Advanced r.0 [] r.1 p.0 s)))
                  (After->>= (read_u16 bs) _ (read_u16_uses bs n h)
                    (λ p q. full-Advanced p.0 p.1 q))))))))

weaken :
    (it : Iterator) (bs : Bytes) {r : Run Iterator}
    → length bs + 1 ≤ length it.table
    → After (Advanced it (length it.table - 1)) r
    → After (λ it'. Advanced it (length it.table - 1) it' × (length it'.table < length it.table)) r
weaken it bs h (returns a) = returns (a, omega (arith, a.left))
weaken it bs h fails = fails
weaken it bs h faults = faults

next_lem :
    (it : Iterator)
    → After
        (λ it'. Advanced it (length it.table - 1) it' × (length it'.table < length it.table))
        (stack_map_frame_iterator_next it)
unfolding stack_map_frame_iterator_next
next_lem it =
    After->>= (read_u8 it.table) _ (read_u8_uses it.table)
      (λ p q. weaken it p.1 q (frame-Advanced it (length it.table - 1) p.0 p.1 (omega arith)))

-- A frame that is read lies within the method's limits, leaves fewer bytes to read, and says
-- whether another one follows.
pub stack_map_frame_iterator_next-Advanced :
    (it it' : Iterator)
    → stack_map_frame_iterator_next it ≡ done it'
    → Advanced it (length it.table - 1) it' × (length it'.table < length it.table)
stack_map_frame_iterator_next-Advanced it it' h = After-eq_done (next_lem it) h
