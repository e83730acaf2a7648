-- ===== src/Gc/Kept.antt =====
-- vm/gc.c: the sorted array holds the objects that are alive, and their monitors.
use b_jvm.Common.{
  ℕ, ◌+◌, ◌-◌, ◌%◌, ◌≤◌, ◌<◌, ◌≡◌, ◌≢◌, sym, ap, subst, ◌∙◌, true, List, [], ◌∷◌, some, ◌==◌,
  if◌then◌else◌, arith, inl, inr, ◌⊎◌, map, get_elem?, length,
}
use mathlib.Core.Option.{some_inj}
use b_jvm.Gc.{Object, Heap, Entry, Marking, Bounds, mark_phase}
use b_jvm.Gc.Mark.{object_of, marked, count, found}
use b_jvm.Gc.Visit.{IsClosed}
use b_jvm.Gc.Live.{Live, times, has_monitor, IsHeap, IsNoted}
use b_jvm.Gc.Phase.{
  mark_phase-Live, mark_phase-has_monitor, mark_phase-IsNoted, object_of-mark_phase,
}
use b_jvm.Gc.Search.{key}
use b_jvm.Gc.Scan.{◌!◌}
use b_jvm.Gc.Counts.{IsSorted, count-get_or}
use b_jvm.Gc.Slide.{IsSpaced, destinations}
use b_jvm.Gc.Relocate.{entry_of, Roots, all_roots}
use b_jvm.Gc.Noted.{IsApart, Stands, monitors, count-key, count-key-le, noted-Stands}
use b_jvm.Gc.Arrange.{IsLaidOut, IsSpaced-same, sorted-IsSpaced}
use b_jvm.Gc.Moved.{IsFound}
use b_jvm.Gc.Found.{object_index, entry_at}

-- A heap to collect: every reference that is followed leads to an object, no object is marked, and the
-- objects and their monitors stand apart.
pub record IsCollectable (k : ℕ) (vm : Bounds) (roots : Roots) (h : Heap) : Type 0 where
  pub closed : IsHeap vm h
  pub rooted : IsClosed vm (all_roots roots) h
  pub clear : (a : ℕ) → marked a h ≡ 0
  pub apart : IsApart h
  pub laid : IsLaidOut k vm.start h
  pub aligned : vm.start % 8 ≡ 0
  -- referent, queue, next and discovered
  pub reference_fields :
      (a : ℕ) (o : Object)
      → object_of a h ≡ some o
      → o.is_reference ≡ true
      → (r : ℕ) × (l : List ℕ) × (o.fields ≡ r ∷ l) × (r % 2 ≡ 0) × (3 ≤ length l)

has_monitor-monitors : (m : ℕ) (l : List Entry) → has_monitor m l ≡ true → 0 < monitors m l
has_monitor-monitors m [] e = cc
has_monitor-monitors m (Entry.object b ∷ l) e = has_monitor-monitors m l e
has_monitor-monitors m (Entry.monitor j ∷ l) e = ground (arith, has_monitor-monitors m l)

module _ (k : ℕ) (vm : Bounds) (roots : Roots) (h : Heap) (ok : IsCollectable k vm roots h) where
  pub Live-object :
      {a : ℕ} → Live vm (all_roots roots) h a → (o : Object) × (object_of a h ≡ some o) × (a ≢ 0)
  Live-object {a} (Live.root x) =
      let (o, at) = ok.rooted a x in let visited = x.1 in (o, at, λ z. absurd (ground (arith)))
  Live-object {a} (Live.field {b = b} live o at x) =
      let (p, here) = ok.closed b o at a x in
      let visited = x.1 in (p, here, λ z. absurd (ground (arith)))

-- A mark phase that has ended, the array in order, and the new locations.
pub record Run (k : ℕ) (vm : Bounds) (roots : Roots) (h : Heap) : Type 0 where
  pub ok : IsCollectable k vm roots h
  pub m : Marking
  pub e : mark_phase vm (all_roots roots) h ≡ some m
  pub objs : List ℕ
  pub sorted : IsSorted objs
  pub same : (x : ℕ) → count x objs ≡ count x (map key m.objs)
  pub new_location : List ℕ
  pub located : new_location ≡ destinations k m.heap vm.start (map entry_of objs)

module _ {k : ℕ} {vm : Bounds} {roots : Roots} {h : Heap} (r : Run k vm roots h) where
  open r use {ok, m, e, objs, sorted, same, new_location, located}

  alive_or_not :
      (a : ℕ)
      → ((times a m.objs ≡ 1) × (marked a m.heap ≡ 1) × Live vm (all_roots roots) h a)
        ⊎ ((times a m.objs ≡ 0) × (marked a m.heap ≡ 0) × ¬ Live vm (all_roots roots) h a)
  alive_or_not = mark_phase-Live vm (all_roots roots) h ok.closed ok.rooted ok.clear m e

  listed : IsNoted h m.objs
  listed = mark_phase-IsNoted vm (all_roots roots) h ok.closed ok.rooted ok.clear m e

  counted :
      (x : ℕ) → count x objs ≡ (if x % 2 == 0 then times x m.objs else monitors (x - 1) m.objs)
  counted x = same x ∙ count-key h ok.apart x m.objs listed

  pub once : (x : ℕ) → count x objs ≤ 1
  once x =
      let noted_once : (a : ℕ) → times a m.objs ≤ 1 =
        λ a. elim (alive_or_not a) [ inl (t, x, y) ↦ omega arith | inr (t, x, y) ↦ omega arith ] in
      omega (arith, same x, count-key-le h ok.apart m.objs listed noted_once x)

  pub stands : (x : ℕ) → 0 < count x objs → Stands h (entry_of x)
  stands x more = noted-Stands h ok.apart x m.objs listed (omega (arith, same x))

  pub counted-Live : (a : ℕ) → a % 2 ≡ 0 → 0 < count a objs → Live vm (all_roots roots) h a
  counted-Live a even more = elim (alive_or_not a) [
    | inl (t, x, live) ↦ live
    | inr (t, x, dead) ↦ absurd (ground (arith, counted a))
  ]

  pub Live-counted : {a : ℕ} → Live vm (all_roots roots) h a → 0 < count a objs
  Live-counted {a} live =
      let (o, at, ne) = Live-object k vm roots h ok live in
      let even = (ok.apart.even a o at).0 in
      elim (alive_or_not a) [
        | inl (t, x, y) ↦ ground (arith, counted a)
        | inr (t, x, dead) ↦ absurd (dead live)
      ]

  pub dead_missing : (a : ℕ) → a % 2 ≡ 0 → ¬ Live vm (all_roots roots) h a → count a objs ≡ 0
  dead_missing a even dead = elim (alive_or_not a) [
    | inl (t, x, live) ↦ absurd (dead live)
    | inr (t, x, y) ↦ ground (arith, counted a)
  ]

  pub monitor_counted :
      {a : ℕ} (o : Object)
      → Live vm (all_roots roots) h a
      → object_of a h ≡ some o
      → o.monitor ≢ 0
      → 0 < count (o.monitor + 1) objs
  monitor_counted {a} o live at big =
      let even = (ok.apart.even a o at).1 in
      let there =
        mark_phase-has_monitor vm (all_roots roots) h ok.closed ok.rooted ok.clear m e a o live at
          big in
      let back : o.monitor + 1 - 1 ≡ o.monitor = omega arith in
      ground (
        arith,
        counted (o.monitor + 1),
        has_monitor-monitors o.monitor m.objs there,
        ap (λ n. monitors n m.objs) back,
      )

  pub same_objects : (a : ℕ) → object_of a m.heap ≡ object_of a h
  same_objects = object_of-mark_phase vm (all_roots roots) h ok.closed ok.rooted ok.clear m e

  pub array-IsSpaced : IsSpaced k m.heap vm.start (map entry_of objs)
  array-IsSpaced = IsSpaced-same k m.heap h vm.start (map entry_of objs) same_objects (
      sorted-IsSpaced k vm.start h vm.start objs ok.laid sorted once stands
        (λ x more. (ok.laid.each (entry_of x) (stands x more)).0))

  -- An object of the array is alive.
  pub array-Live :
      (i a : ℕ)
      → get_elem? (map entry_of objs) i ≡ some (Entry.object a)
      → Live vm (all_roots roots) h a × ((o : Object) × (object_of a h ≡ some o))
  array-Live i a at =
      let (lt, here) = object_index objs i a at in
      let more : 0 < count a objs = subst (λ x. 0 < count x objs) here (count-get_or objs i lt) in
      let is_object : entry_of (objs ! i) ≡ Entry.object a =
        some_inj.0 (sym (entry_at objs i lt) ∙ at) in
      let (o, there) = subst (Stands h) is_object (stands (objs ! i) (count-get_or objs i lt)) in
      (counted-Live a (ok.apart.even a o there).0 more, (o, there))

  pub array-IsFound :
      (g : Heap) → ((a : ℕ) → object_of a g ≡ object_of a m.heap) → IsFound g (map entry_of objs)
  array-IsFound g kept i a at =
      let (live, (o, there)) = array-Live i a at in found a g o (kept a ∙ (same_objects a ∙ there))
