-- ===== src/Gc/Live.antt =====
-- vm/gc.c: what keeps an object alive, and the invariant of the loop over the worklist.
use b_jvm.Common.{
  ℕ, ◌+◌, ◌<◌, ◌≡◌, sym, ◌∙◌, Bool, true, false, List, [], ◌∷◌, some, ◌==◌, if◌then◌else◌, arith,
  Bool-cases, inl, inr, ap, subst,
}
use mathlib.Core.Option.{some_inj}
use b_jvm.Gc.{Object, Heap, Entry, Marking, Bounds, strong, noted}
use b_jvm.Gc.Mark.{object_of, marked, count, marked-le}
use b_jvm.Gc.Visit.{IsVisited, IsClosed, Visited}

-- An object is alive when a root leads to it, or a strong reference of an object that is alive.
pub data Live (vm : Bounds) (roots : List ℕ) (h : Heap) : ℕ → Type 0 where
  root : {a : ℕ} → IsVisited vm roots a → Live vm roots h a
  field :
      {a b : ℕ}
      → Live vm roots h b
      → (o : Object) → object_of b h ≡ some o
      → IsVisited vm (strong o) a
      → Live vm roots h a

-- How often an object stands in `objs`.
abbrev pub times : ℕ → List Entry → ℕ
times a [] = 0
times a (Entry.object b ∷ l) = (if b == a then 1 else 0) + times a l
times a (Entry.monitor m ∷ l) = times a l

-- A monitor stands in `objs`.
abbrev pub has_monitor : ℕ → List Entry → Bool
has_monitor m [] = false
has_monitor m (Entry.object b ∷ l) = has_monitor m l
has_monitor m (Entry.monitor k ∷ l) = if k == m then true else has_monitor m l

pub times-noted :
    (a b : ℕ) (o : Object) (l : List Entry)
    → times b (noted a o l) ≡ (if a == b then 1 else 0) + times b l
times-noted a b o l = elim (Bool-cases (o.monitor == 0)) [ inl p ↦ rw p | inr p ↦ rw p ]

pub has_monitor-noted :
    (a : ℕ) (o : Object) (l : List Entry)
    → (o.monitor == 0) ≡ false
    → has_monitor o.monitor (noted a o l) ≡ true
has_monitor-noted a o l p = rw p (ground arith)

pub has_monitor-noted_old :
    (a m : ℕ) (o : Object) (l : List Entry)
    → has_monitor m l ≡ true
    → has_monitor m (noted a o l) ≡ true
has_monitor-noted_old a m o l p = ground arith

-- Every object that is alive, by the references of `h`.
abbrev pub IsHeap : Bounds → Heap → Type 0
IsHeap vm h = (a : ℕ) (o : Object) → object_of a h ≡ some o → IsClosed vm (strong o) h

-- The array holds, for one object after another, what is noted for it.
pub data IsNoted (h : Heap) : List Entry → Type 0 where
  nothing : {l : List Entry} → l ≡ [] → IsNoted h l
  more :
      {l r : List Entry}
      → (a : ℕ) (o : Object) → object_of a h ≡ some o
      → IsNoted h l
      → r ≡ noted a o l
      → IsNoted h r

pub record IsMarking (vm : Bounds) (roots : List ℕ) (h : Heap) (s : Marking) : Type 0 where
  pub same : (a : ℕ) → object_of a s.heap ≡ object_of a h
  pub once : (a : ℕ) → count a s.worklist + times a s.objs ≡ marked a s.heap
  pub sound : (a : ℕ) → marked a s.heap ≡ 1 → Live vm roots h a
  pub started : (a : ℕ) → IsVisited vm roots a → marked a s.heap ≡ 1
  pub followed :
      (b : ℕ) (o : Object)
      → 0 < times b s.objs
      → object_of b h ≡ some o
      → (a : ℕ) → IsVisited vm (strong o) a
      → marked a s.heap ≡ 1
  pub kept :
      (b : ℕ) (o : Object)
      → 0 < times b s.objs
      → object_of b h ≡ some o
      → (o.monitor == 0) ≡ false
      → has_monitor o.monitor s.objs ≡ true
  pub listed : IsNoted h s.objs

module _ (vm : Bounds) (roots : List ℕ) (h : Heap) where
  times-round :
      (a b : ℕ) (o : Object) (l : List Entry) (u : Marking)
      → u.objs ≡ noted a o l
      → times b u.objs ≡ (if a == b then 1 else 0) + times b l
  times-round a b o l u e = ap (times b) e ∙ times-noted a b o l

  same_object :
      (a b : ℕ) {o p : Object}
      → object_of a h ≡ some o
      → object_of b h ≡ some p
      → (a == b) ≡ true
      → p ≡ o
  same_object a b at here e =
      let i : b ≡ a = ground arith in some_inj.0 (sym here ∙ (ap (λ x. object_of x h) i ∙ at))

  -- One round, for an object that is noted and whose references are visited.
  pub IsMarking-round :
      (a : ℕ) (o : Object) (g : Heap) (w : List ℕ) (l : List Entry) {u : Marking}
      → IsMarking vm roots h (record { heap = g; worklist = a ∷ w; objs = l })
      → object_of a h ≡ some o
      → marked a g ≡ 1
      → Visited vm (strong o) (record { heap = g; worklist = w; objs = noted a o l }) u
      → IsMarking vm roots h u
  IsMarking-round a o g w l {u = u} inv at alive v =
      let up : (b : ℕ) → marked b g ≡ 1 → marked b u.heap ≡ 1 =
        λ b m. omega (arith, v.grows b, marked-le b u.heap) in
      record {
        same = λ b. v.same_objects b ∙ inv.same b;
        once = λ b. ground (arith, v.balance b, inv.once b, times-round a b o l u v.same_objs);
        sound = λ b m. elim (v.news b) [
          | inl e ↦ inv.sound b (sym e ∙ m)
          | inr x ↦ Live.field (inv.sound a alive) o at x
        ];
        started = λ b r. up b (inv.started b r);
        followed = λ b p more here c r. elim (Bool-cases (a == b)) [
          | inl e ↦ v.seen c (subst (λ q. IsVisited vm (strong q) c) (same_object a b at here e) r)
          | inr e ↦
              up c (inv.followed b p (ground (arith, times-round a b o l u v.same_objs)) here c r)
        ];
        kept = λ b p more here big.
            subst (λ q. has_monitor p.monitor q ≡ true) (sym v.same_objs)
              (elim (Bool-cases (a == b)) [
                | inl e ↦
                    let i = same_object a b at here e in
                    subst (λ q. has_monitor q.monitor (noted a o l) ≡ true) (sym i)
                      (has_monitor-noted a o l (subst (λ q. (q.monitor == 0) ≡ false) i big))
                | inr e ↦
                    has_monitor-noted_old a p.monitor o l
                      (inv.kept b p (ground (arith, times-round a b o l u v.same_objs)) here big)
              ]);
        listed = IsNoted.more a o at inv.listed v.same_objs;
      }
