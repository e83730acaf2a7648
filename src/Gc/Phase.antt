-- ===== src/Gc/Phase.antt =====
-- vm/gc.c: the loop over the worklist, and the mark phase from the roots on.
use b_jvm.Common.{
  ℕ, zero, suc, ◌+◌, ◌≤◌, ◌<◌, ◌≡◌, refl, sym, ap, subst, ◌≢◌, ◌∙◌, true, List, [], ◌∷◌, some,
  ◌>>=◌, length, arith, inl, inr, ◌⊎◌,
}
use mathlib.Core.Option.{some_inj}
use native.Mathlib.Decide.{dec_lt}
use b_jvm.Gc.{
  Object, Cell, Heap, Entry, Marking, find, mark, Bounds, strong, noted, visit_all, mark_reachable,
  mark_loop, mark_phase,
}
use b_jvm.Gc.Mark.{
  object_of, object_in, marked, unmarked, count, marked_found, mark_lem, marked-le, unmarked-le,
}
use b_jvm.Gc.Visit.{IsClosed, Visited, visit_all_lem}
use b_jvm.Gc.Live.{Live, times, has_monitor, IsHeap, IsMarking, IsMarking-round, IsNoted}

mark_reachable_lem :
    (vm : Bounds) (a : ℕ) (g : Heap) (w : List ℕ) (l : List Entry) (c : Cell) (s : Marking)
    → marked a g ≡ 1
    → find a g ≡ some c
    → visit_all vm (strong c.object) (record { heap = g; worklist = w; objs = noted a c.object l })
      ≡ some s
    → mark_reachable vm a (record { heap = mark a g; worklist = w; objs = l }) ≡ some s
unfolding mark_reachable
mark_reachable_lem vm a g w l c s alive at e = rw (mark_lem a g alive, at, ◌>>=◌) e

module _ (vm : Bounds) (roots : List ℕ) (h : Heap) (heap_ok : IsHeap vm h) where
  round :
      (a : ℕ) (g : Heap) (w : List ℕ) (l : List Entry)
      → IsMarking vm roots h (record { heap = g; worklist = a ∷ w; objs = l })
      → (s : Marking) × (mark_reachable vm a (record { heap = mark a g; worklist = w; objs = l })
          ≡ some s)
        × IsMarking vm roots h s
        × (unmarked s.heap + length s.worklist ≡ unmarked g + length w)
  round a g w l inv =
      let alive : marked a g ≡ 1 = ground (arith, inv.once a, marked-le a g) in
      let (c, at) = marked_found a g alive in
      let here : object_of a h ≡ some c.object = sym (inv.same a) ∙ ap object_in at in
      let closed : IsClosed vm (strong c.object) g =
        λ b x. let (o, e) = heap_ok a c.object here b x in (o, inv.same b ∙ e) in
      let (s, e, v) =
        visit_all_lem vm (strong c.object)
          (record { heap = g; worklist = w; objs = noted a c.object l }) closed in
      (
        s,
        mark_reachable_lem vm a g w l c s alive at e,
        IsMarking-round vm roots h a c.object g w l inv here alive v,
        v.measure,
      )

  mark_loop_ends :
      (n : ℕ) (g : Heap) (w : List ℕ) (l : List Entry)
      → IsMarking vm roots h (record { heap = g; worklist = w; objs = l })
      → unmarked g + length w ≤ n
      → (s : Marking) × (mark_loop vm n (record { heap = g; worklist = w; objs = l }) ≡ some s)
        × IsMarking vm roots h s
        × (s.worklist ≡ [])
  unfolding mark_loop
  mark_loop_ends zero g [] l inv m = (_, refl, inv, refl)
  mark_loop_ends zero g (a ∷ w) l inv m = absurd (omega arith)
  mark_loop_ends (suc n) g [] l inv m = (_, refl, inv, refl)
  mark_loop_ends (suc n) g (a ∷ w) l inv m =
      let (t, e, inv', k) = round a g w l inv in
      let (s, f, last, done) = mark_loop_ends n t.heap t.worklist t.objs inv' (omega arith) in
      (s, rw (e, ◌>>=◌) f, last, done)

  not_started :
      (b : ℕ) {s : Marking}
      → 0 < times b s.objs
      → Visited vm roots (record { heap = h; worklist = []; objs = [] }) s
      → ⊥
  not_started b more v = omega (arith, ap (times b) v.same_objs)

  started :
      ((a : ℕ) → marked a h ≡ 0)
      → {s : Marking} → Visited vm roots (record { heap = h; worklist = []; objs = [] }) s
      → IsMarking vm roots h s
  started clear {s} v = record {
    same = v.same_objects;
    once = λ b. ground (arith, v.balance b, clear b, ap (times b) v.same_objs);
    sound = λ b m. elim (v.news b) [ inl e ↦ cc (clear b, e, m) | inr x ↦ Live.root x ];
    started = v.seen;
    followed = λ b p more here a x. absurd (not_started b more v);
    kept = λ b p more here big. absurd (not_started b more v);
    listed = IsNoted.nothing v.same_objs;
  }

  all_marked :
      {s : Marking} {a : ℕ}
      → IsMarking vm roots h s
      → s.worklist ≡ []
      → Live vm roots h a
      → times a s.objs ≡ 1
  all_marked {s = s} {a = a} inv done (Live.root x) =
      omega (arith, inv.once a, inv.started a x, ap (count a) done)
  all_marked {s = s} {a = a} inv done (Live.field {b = b} live o at x) =
      let reached : times b s.objs ≡ 1 = all_marked inv done live in
      omega (arith, inv.once a, inv.followed b o (omega arith) at a x, ap (count a) done)

  module _ (roots_ok : IsClosed vm roots h) (clear : (a : ℕ) → marked a h ≡ 0) where
    result :
        (s : Marking) × (mark_phase vm roots h ≡ some s)
        × IsMarking vm roots h s
        × (s.worklist ≡ [])
    unfolding mark_phase
    result =
        let (t, e, v) =
          visit_all_lem vm roots (record { heap = h; worklist = []; objs = [] }) roots_ok in
        let (s, f, last, done) =
          mark_loop_ends (length h) t.heap t.worklist t.objs (started clear v)
            (omega (arith, v.measure, unmarked-le h)) in
        (s, rw (e, ◌>>=◌) f, last, done)

    result_of :
        {s : Marking} → mark_phase vm roots h ≡ some s → IsMarking vm roots h s × (s.worklist ≡ [])
    result_of {s = s} e =
        let (t, f, inv, done) = result in
        subst (λ x. IsMarking vm roots h x × (x.worklist ≡ [])) (some_inj.0 (sym f ∙ e)) (inv, done)

    -- Where no object is marked at the start and every reference that is followed leads to an
    -- object, the mark phase meets no dangling reference and empties its worklist within one
    -- round for each object of the heap.
    pub mark_phase_ends : (s : Marking) × (mark_phase vm roots h ≡ some s) × (s.worklist ≡ [])
    mark_phase_ends = let (s, e, inv, done) = result in (s, e, done)

    -- Where no object is marked at the start and every reference that is followed leads to an
    -- object, an object that the mark phase leaves marked is alive and is noted exactly once, and
    -- every other is not alive, not marked and not noted. Alive is what a root leads to, or a
    -- strong reference of an object that is alive.
    pub mark_phase-Live :
        (s : Marking)
        → mark_phase vm roots h ≡ some s
        → (a : ℕ)
        → ((times a s.objs ≡ 1) × (marked a s.heap ≡ 1) × Live vm roots h a)
          ⊎ ((times a s.objs ≡ 0) × (marked a s.heap ≡ 0) × ¬ Live vm roots h a)
    mark_phase-Live s e a =
        let (inv, done) = result_of e in
        let all : times a s.objs ≡ marked a s.heap = omega (arith, inv.once a, ap (count a) done) in
        elim (dec_lt 0 (marked a s.heap)) [
          | yes p ↦
              let one : marked a s.heap ≡ 1 = omega (arith, marked-le a s.heap) in
              inl (all ∙ one, one, inv.sound a one)
          | no p ↦
              let nil : marked a s.heap ≡ 0 = omega arith in
              inr (all ∙ nil, nil, λ live. absurd (omega (arith, all_marked {a = a} inv done live)))
        ]

    pub mark_phase-has_monitor :
        (s : Marking)
        → mark_phase vm roots h ≡ some s
        → (a : ℕ) (o : Object) → Live vm roots h a
        → object_of a h ≡ some o
        → o.monitor ≢ 0
        → has_monitor o.monitor s.objs ≡ true
    mark_phase-has_monitor s e a o live at big =
        let (inv, done) = result_of e in
        inv.kept a o (omega (arith, all_marked inv done live)) at (ground arith)

    pub mark_phase-IsNoted : (s : Marking) → mark_phase vm roots h ≡ some s → IsNoted h s.objs
    mark_phase-IsNoted s e = (result_of e).0.listed

    pub object_of-mark_phase :
        (s : Marking)
        → mark_phase vm roots h ≡ some s
        → (a : ℕ) → object_of a s.heap ≡ object_of a h
    object_of-mark_phase s e = (result_of e).0.same
