-- ===== src/Scheduler/Next.antt =====
-- vm/roundrobin_scheduler.c: `get_next_thr`, which turns the round robin to the next thread.
use mathlib.Core.List.{Perm, perm_middle}
use mathlib.Core.List.Perm
use b_jvm.Common.{
  ℕ, zero, suc, ◌+◌, ◌<◌, ◌≡◌, refl, subst, Bool, true, false, List, [], ◌∷◌, ◌++◌, append_assoc,
  append-nil, inl, inr, Option, none, some, ◌>>=◌, get_elem?, get_elem?-lt, remove_at, length,
  length-append, ltb, if◌then◌else◌, All, arith, Bool-cases,
}
use b_jvm.Scheduler.{ThreadInfo, WakeupInfo}

abbrev pub uint64_max : ℕ
uint64_max = 18446744073709551615

-- Null for no thread that sleeps.
abbrev pub wakeup_of : Option WakeupInfo → ℕ
wakeup_of none = 0
wakeup_of (some w) = w.wakeup_us

abbrev pub wakeup_us : ThreadInfo → ℕ
wakeup_us info = wakeup_of info.wakeup_info

-- The first loop: up to `n` times, the first thread goes to the end, until one is awake.
unfoldable turn : (ThreadInfo → Bool) → ℕ → List ThreadInfo → Option ThreadInfo × List ThreadInfo
turn asleep zero l = (none, l)
turn asleep (suc n) [] = (none, [])
turn asleep (suc n) (i ∷ l) =
    if asleep i then turn asleep n (l ++ i ∷ []) else (some i, l ++ i ∷ [])

record Best : Type 0 where
  info : ThreadInfo
  best_i : ℕ
  closest : ℕ

-- The second loop, from index `i` on.
unfoldable soonest : List ThreadInfo → ℕ → Best → Best
soonest [] i b = b
soonest (x ∷ l) i b = soonest l (suc i) (
    if ltb (wakeup_us x) b.closest
    then record { info = x; best_i = i; closest = wakeup_us x }
    else b)

abbrev last? : List ThreadInfo → Option ThreadInfo
last? [] = none
last? (x ∷ []) = some x
last? (x ∷ y ∷ l) = last? (y ∷ l)

-- All sleep: the first loop has left the last thread in `info`.
unfoldable pick_sleeping : List ThreadInfo → Option (ThreadInfo × List ThreadInfo)
unfolding soonest
pick_sleeping l = do
  info ← last? l
  let b = soonest l 0 (record { info = info; best_i = 0; closest = uint64_max })
  best ← get_elem? l b.best_i
  some (b.info, remove_at l b.best_i ++ best ∷ [])

unfoldable after_turn : Option ThreadInfo × List ThreadInfo → Option (ThreadInfo × List ThreadInfo)
unfolding pick_sleeping
after_turn (none, l) = pick_sleeping l
after_turn (some i, l) = some (i, l)

unfoldable pub get_next_thr :
    (ThreadInfo → Bool) → List ThreadInfo → Option (ThreadInfo × List ThreadInfo)
unfolding after_turn turn
get_next_thr asleep l = after_turn (turn asleep (length l) l)

turn-awake :
    (asleep : ThreadInfo → Bool) (n : ℕ) (pre : List ThreadInfo) (i : ThreadInfo)
    (post : List ThreadInfo)
    → length pre < n
    → All (λ x. asleep x ≡ true) pre
    → asleep i ≡ false
    → turn asleep n (pre ++ i ∷ post) ≡ (some i, post ++ (pre ++ i ∷ []))
unfolding turn
turn-awake asleep zero pre i post few h awake = absurd (omega arith)
turn-awake asleep (suc n) [] i post few h awake = rw awake refl
turn-awake asleep (suc n) (x ∷ pre) i post few h awake =
    let moved : (pre ++ i ∷ post) ++ x ∷ [] ≡ pre ++ i ∷ (post ++ x ∷ []) =
      append_assoc pre (i ∷ post) (x ∷ []) in
    let placed : (post ++ x ∷ []) ++ (pre ++ i ∷ []) ≡ post ++ (x ∷ pre ++ i ∷ []) =
      append_assoc post (x ∷ []) (pre ++ i ∷ []) in
    rw (h.0, moved, turn-awake asleep n pre i (post ++ x ∷ []) (omega arith) h.1 awake, placed) refl

turn-asleep :
    (asleep : ThreadInfo → Bool) (q r : List ThreadInfo)
    → All (λ x. asleep x ≡ true) q
    → turn asleep (length q) (q ++ r) ≡ (none, r ++ q)
unfolding turn
turn-asleep asleep [] r h = rw (append-nil r) refl
turn-asleep asleep (x ∷ q) r h =
    let moved : (q ++ r) ++ x ∷ [] ≡ q ++ (r ++ x ∷ []) = append_assoc q r (x ∷ []) in
    let placed : (r ++ x ∷ []) ++ q ≡ r ++ x ∷ q = append_assoc r (x ∷ []) q in
    rw (h.0, moved, turn-asleep asleep q (r ++ x ∷ []) h.1, placed) refl

-- The first thread that does not sleep runs next: it goes to the end of the round robin, and the
-- sleepers that stood before it go to the end just before it, in their order.
pub get_next_thr-awake :
    (asleep : ThreadInfo → Bool) (pre : List ThreadInfo) (i : ThreadInfo) (post : List ThreadInfo)
    → All (λ x. asleep x ≡ true) pre
    → asleep i ≡ false
    → get_next_thr asleep (pre ++ i ∷ post) ≡ some (i, post ++ (pre ++ i ∷ []))
unfolding get_next_thr after_turn
get_next_thr-awake asleep pre i post h awake =
    let size : length (pre ++ i ∷ post) ≡ length pre + suc (length post) =
      length-append pre (i ∷ post) in
    rw (turn-awake asleep (length (pre ++ i ∷ post)) pre i post (omega (arith, size)) h awake) refl

last-Perm : (l : List ThreadInfo) (x : ThreadInfo) → Perm (l ++ x ∷ []) (x ∷ l)
last-Perm l x = subst (λ m. Perm (l ++ x ∷ []) (x ∷ m)) (append-nil l) (perm_middle l [])

remove_at-Perm :
    (l : List ThreadInfo) (n : ℕ) (x : ThreadInfo)
    → get_elem? l n ≡ some x
    → Perm (remove_at l n ++ x ∷ []) l
remove_at-Perm [] n x h = cc
remove_at-Perm (y ∷ l) zero x h =
    let same : x ≡ y = cc in subst (λ z. Perm (l ++ x ∷ []) (z ∷ l)) same (last-Perm l x)
remove_at-Perm (y ∷ l) (suc n) x h = Perm.cons y (remove_at-Perm l n x h)

soonest_lem :
    (asleep : ThreadInfo → Bool) (l : List ThreadInfo) (n : ℕ) (b : Best)
    → All (λ x. asleep x ≡ true) l
    → asleep b.info ≡ true
    → b.best_i < n + length l
    → (asleep (soonest l n b).info ≡ true) × ((soonest l n b).best_i < n + length l)
unfolding soonest
soonest_lem asleep [] n b h s lt = (s, lt)
soonest_lem asleep (x ∷ l) n b h s lt = elim (Bool-cases (ltb (wakeup_us x) b.closest)) [
  | inl sooner ↦
      let rest =
        soonest_lem asleep l (suc n) (record { info = x; best_i = n; closest = wakeup_us x }) h.1
          h.0 (omega arith) in
      rw (soonest, sooner) (rest.0, omega (arith, rest.1))
  | inr later ↦
      let rest = soonest_lem asleep l (suc n) b h.1 s (omega arith) in
      rw (soonest, later) (rest.0, omega (arith, rest.1))
]

last?-asleep :
    (asleep : ThreadInfo → Bool) (x : ThreadInfo) (l : List ThreadInfo)
    → All (λ x. asleep x ≡ true) (x ∷ l)
    → (i : ThreadInfo) × (last? (x ∷ l) ≡ some i) × (asleep i ≡ true)
last?-asleep asleep x [] h = (x, refl, h.0)
last?-asleep asleep x (y ∷ l) h = last?-asleep asleep y l h.1

-- Where every thread sleeps, a thread is found all the same, one that sleeps, and the round robin
-- holds the same threads as before.
pub get_next_thr-asleep :
    (asleep : ThreadInfo → Bool) (x : ThreadInfo) (l : List ThreadInfo)
    → All (λ x. asleep x ≡ true) (x ∷ l)
    → (i : ThreadInfo) × (l' : List ThreadInfo) × (get_next_thr asleep (x ∷ l) ≡ some (i, l'))
      × (asleep i ≡ true)
      × Perm l' (x ∷ l)
unfolding get_next_thr after_turn pick_sleeping
get_next_thr-asleep asleep x l h =
    let stays : turn asleep (length (x ∷ l)) (x ∷ l) ≡ (none, x ∷ l) =
      subst (λ m. turn asleep (length (x ∷ l)) m ≡ (none, x ∷ l)) (append-nil (x ∷ l))
        (turn-asleep asleep (x ∷ l) [] h) in
    let (i, is_last, s) = last?-asleep asleep x l h in
    let start : Best = record { info = i; best_i = 0; closest = uint64_max } in
    let found = soonest_lem asleep (x ∷ l) 0 start h s (omega arith) in
    let at = get_elem?-lt (x ∷ l) (soonest (x ∷ l) 0 start).best_i (omega (arith, found.1)) in
    (
      (soonest (x ∷ l) 0 start).info,
      remove_at (x ∷ l) (soonest (x ∷ l) 0 start).best_i ++ at.0 ∷ [],
      rw (stays, is_last, at.1) refl,
      found.0,
      remove_at-Perm (x ∷ l) (soonest (x ∷ l) 0 start).best_i at.0 at.1,
    )
