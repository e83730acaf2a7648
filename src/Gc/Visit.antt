-- ===== src/Gc/Visit.antt =====
-- vm/gc.c: what the visit to a list of references does to the flags and to the worklist.
use b_jvm.Common.{
  ℕ, ◌+◌, ◌≤◌, ◌≡◌, refl, sym, ap, ◌∙◌, true, false, List, [], ◌∷◌, some, ◌>>=◌, ◌==◌, length,
  arith, Bool-cases, inl, inr, ◌⊎◌,
}
use b_jvm.Gc.{Object, Cell, Heap, Marking, find, mark, Bounds, is_followed, push, visit, visit_all}
use b_jvm.Gc.Mark.{
  object_of, marked, unmarked, count, contains, object_of-mark, unmarked-mark, found, marked-found,
  marked-mark_eq, marked-le,
}

-- An address that the list holds and that is followed.
abbrev pub IsVisited : Bounds → List ℕ → ℕ → Type 0
IsVisited vm l a = (contains l a ≡ true) × (is_followed vm a ≡ true)

-- Every reference that is followed leads to an object.
abbrev pub IsClosed : Bounds → List ℕ → Heap → Type 0
IsClosed vm l h = (a : ℕ) → IsVisited vm l a → (o : Object) × (object_of a h ≡ some o)

pub record Visited (vm : Bounds) (l : List ℕ) (s s' : Marking) : Type 0 where
  pub same_objects : (a : ℕ) → object_of a s'.heap ≡ object_of a s.heap
  pub same_objs : s'.objs ≡ s.objs
  pub balance :
      (a : ℕ) → count a s'.worklist + marked a s.heap ≡ count a s.worklist + marked a s'.heap
  pub grows : (a : ℕ) → marked a s.heap ≤ marked a s'.heap
  pub news : (a : ℕ) → (marked a s'.heap ≡ marked a s.heap) ⊎ IsVisited vm l a
  pub seen : (a : ℕ) → IsVisited vm l a → marked a s'.heap ≡ 1
  pub measure : unmarked s'.heap + length s'.worklist ≡ unmarked s.heap + length s.worklist

-- The flag of an object under another name for its address.
same : (a b : ℕ) (h : Heap) → a ≡ b → marked a h ≡ marked b h
same a b h e = ap (λ x. marked x h) e

module _ (vm : Bounds) where
  nothing :
      (l : List ℕ) (s : Marking)
      → ((a : ℕ) → IsVisited vm l a → marked a s.heap ≡ 1)
      → Visited vm l s s
  nothing l s seen = record {
    same_objects = λ a. refl;
    same_objs = refl;
    balance = λ a. refl;
    grows = λ a. omega arith;
    news = λ a. inl refl;
    seen = seen;
    measure = refl;
  }

  pushed :
      (a : ℕ) (s : Marking) (c : Cell)
      → find a s.heap ≡ some c
      → c.reachable ≡ false
      → is_followed vm a ≡ true
      → Visited vm (a ∷ []) s (record s { heap = mark a s.heap; worklist = a ∷ s.worklist })
  pushed a s c at new ok = record {
    same_objects = λ b. object_of-mark a b s.heap;
    same_objs = refl;
    balance = λ b.
        ground (arith, marked-mark_eq a b s.heap c at, marked-found a s.heap c at, same a b s.heap);
    grows = λ b. ground (arith, marked-mark_eq a b s.heap c at, marked-le b s.heap);
    news = λ b. ground (arith, marked-mark_eq a b s.heap c at);
    seen = λ b v. ground (arith, marked-mark_eq a b s.heap c at);
    measure = omega (arith, unmarked-mark a s.heap c at new);
  }

  joined :
      (a : ℕ) (l : List ℕ) {s t u : Marking}
      → Visited vm (a ∷ []) s t
      → Visited vm l t u
      → Visited vm (a ∷ l) s u
  joined a l {s} {t} {u} v w = record {
    same_objects = λ b. w.same_objects b ∙ v.same_objects b;
    same_objs = w.same_objs ∙ v.same_objs;
    balance = λ b. omega (arith, v.balance b, w.balance b);
    grows = λ b. omega (arith, v.grows b, w.grows b);
    news = λ b. ground (arith, v.news b, w.news b);
    seen = λ b x. elim (Bool-cases (a == b)) [
      | inl p ↦
          ground (arith, v.seen b, v.grows b, w.grows b, marked-le b u.heap, marked-le b t.heap)
      | inr p ↦ ground (arith, w.seen b)
    ];
    measure = w.measure ∙ v.measure;
  }

  only : (a b : ℕ) → IsVisited vm (a ∷ []) b → a ≡ b
  only a b v = ground arith

  self : (a : ℕ) → is_followed vm a ≡ true → IsVisited vm (a ∷ []) a
  self a p = (ground arith, p)

  pub head : (a b : ℕ) (l : List ℕ) → IsVisited vm (a ∷ []) b → IsVisited vm (a ∷ l) b
  head a b l v = (ground arith, v.1)

  pub tail : (a b : ℕ) (l : List ℕ) → IsVisited vm l b → IsVisited vm (a ∷ l) b
  tail a b l v = (ground arith, v.1)

  visit_found :
      (a : ℕ) (s : Marking) (c : Cell)
      → find a s.heap ≡ some c
      → is_followed vm a ≡ true
      → (s' : Marking) × (visit vm a s ≡ some s') × Visited vm (a ∷ []) s s'
  unfolding visit
  visit_found a s c at p = elim (Bool-cases c.reachable) [
    | inl q ↦
        let old : marked a s.heap ≡ 1 = rw (at, q) refl in
        (
          s,
          rw (p, at, push, q) refl,
          nothing (a ∷ []) s (λ b v. sym (same a b s.heap (only a b v)) ∙ old),
        )
    | inr q ↦ (
      record s { heap = mark a s.heap; worklist = a ∷ s.worklist },
      rw (p, at, push, q) refl,
      pushed a s c at q p,
    )
  ]

  pub visit_lem :
      (a : ℕ) (s : Marking)
      → IsClosed vm (a ∷ []) s.heap
      → (s' : Marking) × (visit vm a s ≡ some s') × Visited vm (a ∷ []) s s'
  unfolding visit
  visit_lem a s closed = elim (Bool-cases (is_followed vm a)) [
    | inr p ↦ (
      s,
      rw p refl,
      nothing (a ∷ []) s (λ b v. cc (p, v.1, ap (λ x. is_followed vm x) (only a b v))),
    )
    | inl p ↦
        let (o, e) = closed a (self a p) in
        let (c, at) = found a s.heap o e in visit_found a s c at p
  ]

  pub visit_all_lem :
      (l : List ℕ) (s : Marking)
      → IsClosed vm l s.heap
      → (s' : Marking) × (visit_all vm l s ≡ some s') × Visited vm l s s'
  unfolding visit_all
  visit_all_lem [] s closed = (s, refl, nothing [] s (λ b v. cc))
  visit_all_lem (a ∷ l) s closed =
      let (t, e, v) = visit_lem a s (λ b x. closed b (head a b l x)) in
      let kept : IsClosed vm l t.heap =
        λ b x. let (o, at) = closed b (tail a b l x) in (o, v.same_objects b ∙ at) in
      let (u, f, w) = visit_all_lem l t kept in (u, rw (e, ◌>>=◌, f) refl, joined a l v w)
