-- ===== src/Scheduler/Step/Places.antt =====
-- vm/roundrobin_scheduler.c: a thread, or a record, in its place among the others.
use b_jvm.Common.{ℕ, ◌≡◌, refl, ap, ◌∙◌, true, false, List, [], ◌∷◌, ◌++◌, some, ◌==◌, All, arith}
use b_jvm.Scheduler.{ThreadInfo}
use b_jvm.Scheduler.Step.{Execution, modify, find_info, remove_info, modify_execution}

-- No thread of these has the `tid`.
abbrev pub Without : ℕ → List ThreadInfo → Type 0
Without tid l = All (λ x. (x.thread.tid == tid) ≡ false) l

pub modify-past :
    (tid : ℕ) (f : ThreadInfo → ThreadInfo) (l r : List ThreadInfo)
    → Without tid l
    → modify tid f (l ++ r) ≡ l ++ modify tid f r
modify-past tid f [] r none_before = refl
modify-past tid f (x ∷ l) r none_before =
    rw none_before.0 (ap (λ m. x ∷ m) (modify-past tid f l r none_before.1))

pub modify-append :
    (tid : ℕ) (f : ThreadInfo → ThreadInfo) (l : List ThreadInfo) (i : ThreadInfo)
    (r : List ThreadInfo)
    → Without tid l
    → i.thread.tid ≡ tid
    → modify tid f (l ++ i ∷ r) ≡ l ++ f i ∷ r
modify-append tid f l i r none_before same =
    let hit : (i.thread.tid == tid) ≡ true = ground (arith, same) in
    modify-past tid f l (i ∷ r) none_before ∙ rw hit refl

pub remove_info-append :
    (tid : ℕ) (l : List ThreadInfo) (i : ThreadInfo) (r : List ThreadInfo)
    → Without tid l
    → i.thread.tid ≡ tid
    → remove_info tid (l ++ i ∷ r) ≡ l ++ r
remove_info-append tid [] i r none_before same =
    let hit : (i.thread.tid == tid) ≡ true = ground (arith, same) in rw hit refl
remove_info-append tid (x ∷ l) i r none_before same =
    rw none_before.0 (ap (λ m. x ∷ m) (remove_info-append tid l i r none_before.1 same))

pub find_info-append :
    (tid : ℕ) (l : List ThreadInfo) (i : ThreadInfo) (r : List ThreadInfo)
    → Without tid l
    → i.thread.tid ≡ tid
    → find_info tid (l ++ i ∷ r) ≡ some i
find_info-append tid [] i r none_before same =
    let hit : (i.thread.tid == tid) ≡ true = ground (arith, same) in rw hit refl
find_info-append tid (x ∷ l) i r none_before same =
    rw none_before.0 (find_info-append tid l i r none_before.1 same)

pub modify_execution-append :
    (a : ℕ) (f : Execution → Execution) (l : List Execution) (e : Execution) (r : List Execution)
    → All (λ x. (x.address == a) ≡ false) l
    → e.address ≡ a
    → modify_execution a f (l ++ e ∷ r) ≡ l ++ f e ∷ r
modify_execution-append a f [] e r none_before same =
    let hit : (e.address == a) ≡ true = ground (arith, same) in rw hit refl
modify_execution-append a f (x ∷ l) e r none_before same =
    rw none_before.0 (ap (λ m. x ∷ m) (modify_execution-append a f l e r none_before.1 same))
