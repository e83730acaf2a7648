-- ===== src/Gc/Placed.antt =====
-- vm/gc.c: where an object that is alive stands after the collection.
use b_jvm.Common.{
  ℕ, ◌+◌, ◌%◌, ◌≡◌, ◌≢◌, refl, sym, ap, ◌∙◌, true, false, some, ◌==◌, ltb, arith, Bool-cases, inl,
  inr, map, get_elem?, get_or,
}
use b_jvm.Gc.{Object, Heap, Entry, Bounds}
use b_jvm.Gc.Mark.{object_of}
use b_jvm.Gc.Live.{Live}
use b_jvm.Gc.Search.{relocate_object}
use b_jvm.Gc.Slide.{destinations}
use b_jvm.Gc.Relocate.{entry_of, Roots, all_roots, new_address, relocate_monitor}
use b_jvm.Gc.Moved.{destination-lt, index-lt}
use b_jvm.Gc.Fields.{HasNewMonitor}
use b_jvm.Gc.Found.{
  entry_at, object_entry, object_index, hit_at, monitor_entry, found_at, relocate_object_found,
  relocate_object_missing, relocate_monitor_found,
}
use b_jvm.Gc.Kept.{
  Run, Live-object, once, Live-counted, dead_missing, monitor_counted, array-IsSpaced, array-Live,
}

module _ {k : ℕ} {vm : Bounds} {roots : Roots} {h : Heap} (r : Run k vm roots h) where
  open r use {ok, m, e, objs, sorted, same, new_location, located}

  pub placed :
      {a : ℕ}
      → Live vm (all_roots roots) h a
      → (i : ℕ) × (get_elem? (map entry_of objs) i ≡ some (Entry.object a))
        × (relocate_object objs new_location a ≡ (get_or new_location i 0, true))
  placed {a} live =
      let (o, at, ne) = Live-object k vm roots h ok live in
      let even = (ok.apart.even a o at).0 in
      let (i, lt, here, hit) = found_at objs new_location sorted (once r) a (Live-counted r live) in
      (
        i,
        entry_at objs i lt ∙ ap some (ap entry_of here ∙ object_entry a even),
        relocate_object_found objs new_location sorted (once r) a i ne hit,
      )

  pub array_placed :
      (i a : ℕ)
      → get_elem? (map entry_of objs) i ≡ some (Entry.object a)
      → new_address objs new_location a ≡ get_or new_location i 0
  array_placed i a at =
      let (lt, here) = object_index objs i a at in
      let (live, there) = array-Live r i a at in
      let (o, object, ne) = Live-object k vm roots h ok live in
      let all_once = once r in
      ap (λ q. q.0)
        (relocate_object_found objs new_location sorted all_once a i ne
          (hit_at objs new_location sorted all_once a i lt here))

  pub dead :
      (x : ℕ)
      → x ≢ 0
      → x % 2 ≡ 0
      → ¬ Live vm (all_roots roots) h x
      → relocate_object objs new_location x ≡ (x, false)
  dead x ne even not_alive =
      relocate_object_missing objs new_location sorted (once r) x ne
        (dead_missing r x even not_alive)

  pub monitor_placed :
      {a : ℕ} (o : Object)
      → Live vm (all_roots roots) h a
      → object_of a h ≡ some o
      → o.monitor ≢ 0
      → (i : ℕ) × (get_elem? (map entry_of objs) i ≡ some (Entry.monitor o.monitor))
        × (relocate_monitor objs new_location o.monitor ≡ some (get_or new_location i 0))
  monitor_placed {a} o live at big =
      let even = (ok.apart.even a o at).1 in
      let (i, lt, here, hit) =
        found_at objs new_location sorted (once r) (o.monitor + 1)
          (monitor_counted r o live at big) in
      (
        i,
        entry_at objs i lt ∙ ap some (ap entry_of here ∙ monitor_entry o.monitor even),
        relocate_monitor_found objs new_location sorted (once r) o.monitor i big hit,
      )

  pub has_new_monitor :
      {a : ℕ} (o : Object)
      → Live vm (all_roots roots) h a
      → object_of a h ≡ some o
      → HasNewMonitor objs new_location o
  has_new_monitor o live at = elim (Bool-cases (o.monitor == 0)) [
    | inl p ↦ (0, rw p refl)
    | inr p ↦
        let (i, there, f) = monitor_placed o live at (ground arith) in (get_or new_location i 0, f)
  ]

  -- Distinct objects go to distinct locations.
  pub new_address_injective :
      {a b : ℕ}
      → Live vm (all_roots roots) h a
      → Live vm (all_roots roots) h b
      → new_address objs new_location a ≡ new_address objs new_location b
      → a ≡ b
  new_address_injective {a} {b} live_a live_b meet =
      let (i, at_i, to_i) = placed live_a in
      let (j, at_j, to_j) = placed live_b in
      let l = map entry_of objs in
      let spaced = array-IsSpaced r in
      let ds = destinations k m.heap vm.start l in
      let level : get_or ds i 0 ≡ get_or ds j 0 =
        ap (λ t. get_or t i 0) (sym located)
        ∙ (ap (λ p. p.0) (sym to_i)
            ∙ (meet ∙ (ap (λ p. p.0) to_j ∙ ap (λ t. get_or t j 0) located))) in
      let equal : i ≡ j = elim (Bool-cases (ltb i j)) [
        | inl p ↦ absurd (
            omega (
              arith,
              destination-lt k m.heap vm.start vm.start l i j spaced (ground arith)
                  (index-lt l j (Entry.object b) at_j),
            ))
        | inr p ↦ elim (Bool-cases (ltb j i)) [
          | inl q ↦ absurd (
              omega (
                arith,
                destination-lt k m.heap vm.start vm.start l j i spaced (ground arith)
                    (index-lt l i (Entry.object a) at_i),
              ))
          | inr q ↦ ground arith
        ]
      ] in
      let entries : some (Entry.object a) ≡ some (Entry.object b) =
        sym at_i ∙ (ap (λ n. get_elem? l n) equal ∙ at_j) in
      cc
