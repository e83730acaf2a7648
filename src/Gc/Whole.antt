-- ===== src/Gc/Whole.antt =====
-- vm/gc.c: `major_gc` from the roots to the new heap.
use b_jvm.Common.{
  ℕ, ◌+◌, ◌-◌, ◌%◌, ◌∷◌, ◌≤◌, ◌<◌, ◌≡◌, refl, sym, ap, subst, ◌∙◌, true, List, some, ◌>>=◌, arith,
  inl, inr, ◌⊎◌, map, get_elem?, get_or, length,
}
use b_jvm.Layout.{align_up}
use b_jvm.Gc.{Object, Cell, Heap, Entry, Marking, Bounds, mark_phase}
use b_jvm.Gc.Mark.{object_of, object_in}
use b_jvm.Gc.Phase.{mark_phase_ends}
use b_jvm.Gc.Search.{key, relocate_object}
use b_jvm.Gc.Sort.{quicksort_pointers}
use b_jvm.Gc.Quick.{quicksort_pointers_ends}
use b_jvm.Gc.Compact.{Memory, Compaction, location, compact}
use b_jvm.Gc.Slide.{extent, IsMoved, destinations, compact-IsMoved, compact-destinations}
use b_jvm.Gc.Collect.{moved_at}
use b_jvm.Gc.Arrange.{object_of-compact, extent_same}
use b_jvm.Gc.Relocate.{
  entry_of, Roots, Collected, all_roots, new_address, relocate_monitor, relocate_instance_fields,
  relocate_roots, moved_objects, start_of_copy, finish_gc, major_gc,
}
use b_jvm.Gc.Moved.{IsCopied, destination-ge, index-lt, moved_objects-IsCopied}
use b_jvm.Gc.Fields.{
  IsRelocated, AllCells-moved_objects, HasNewMonitor, relocate_instance_fields_lem,
}
use b_jvm.Gc.Found.{relocate_object_null}
use b_jvm.Gc.Kept.{Run, IsCollectable, array-Live, array-IsFound, array-IsSpaced, same_objects}
use b_jvm.Gc.Placed.{placed, dead, monitor_placed, has_new_monitor, new_address_injective}
use b_jvm.Gc.Chain.{Rising, moved_objects-Rising}
use b_jvm.Gc.Pending.{pending_list}
use b_jvm.Gc.Graph.{Alive, IsCollected, or_null, fields_held, fields_cleared}
use b_jvm.Gc.Major.{kept_plain, kept_reference, only-Alive}

module _ {k : ℕ} {vm : Bounds} {roots : Roots} {h : Heap} (r : Run k vm roots h)
    (memory memory' : Memory)
    (moved : IsMoved k r.m.heap memory memory' vm.start (map entry_of r.objs)) where
  open r use {ok, m, e, objs, sorted, same, new_location, located}

  -- What the copying loop has moved for the entry at an index.
  entry_moved :
      (i d : ℕ) (f : Entry)
      → get_elem? (map entry_of objs) i ≡ some f
      → d ≡ get_or new_location i 0
      → (vm.start ≤ d)
        × (d ≤ location f)
        × ((j : ℕ) → j < extent k h f → memory' (d + j) ≡ memory (location f + j))
  entry_moved i d f at there =
      let l = map entry_of objs in
      let place : d ≡ get_or (destinations k m.heap vm.start l) i 0 =
        there ∙ ap (λ t. get_or t i 0) located in
      let (down, copied) = moved_at k m.heap memory memory' vm.start l i f moved at in
      let size : extent k m.heap f ≡ extent k h f = extent_same k m.heap h f (same_objects r) in
      (
        omega (
          arith,
          destination-ge k m.heap vm.start vm.start l i (array-IsSpaced r) (index-lt l i f at),
        ),
        omega arith,
        λ j lt. ap (λ a. memory' (a + j)) place ∙ copied j (omega arith),
      )

  IsCollected-of_passes :
      (g : Heap) (cells out : List Cell)
      → ((a : ℕ) → object_of a g ≡ object_of a h)
      → IsCopied g (map entry_of objs) new_location cells
      → IsRelocated objs new_location cells out
      → (p last used : ℕ) → Rising p cells
      → moved_objects g (map entry_of objs) new_location ≡ some cells
      → relocate_instance_fields objs new_location cells
          (new_address objs new_location roots.pending)
        ≡ some (out, last)
      → IsCollected k vm roots h memory
          (new_address objs new_location)
          (λ n. or_null (relocate_monitor objs new_location n))
          (record {
            roots = record (relocate_roots objs new_location roots) { pending = last };
            heap = out;
            memory = memory';
            heap_used = used;
          })
  IsCollected-of_passes g cells out kept copied relocated low_end last used rising there passed =
      record {
        pending = pending_list r g cells low_end kept copied rising there out last passed;
        null = (ap (λ q. q.0) (relocate_object_null objs new_location), refl);
        rooted = (refl, refl);
        down = λ a live.
            let (i, at, to) = placed r live in
            let (low, high, bytes) =
              entry_moved i (new_address objs new_location a) (Entry.object a) at
                (ap (λ q. q.0) to) in
            (low, high);
        distinct = λ a b x y meet. new_address_injective r x y meet;
        contents = λ a j live lt.
            let (i, at, to) = placed r live in
            let (low, high, bytes) =
              entry_moved i (new_address objs new_location a) (Entry.object a) at
                (ap (λ q. q.0) to) in
            bytes j lt;
        monitor_contents = λ a j o live at big lt.
            let (i, there, to) = monitor_placed r o live at big in
            let (low, high, bytes) =
              entry_moved i (or_null (relocate_monitor objs new_location o.monitor))
                (Entry.monitor o.monitor) there (ap or_null to) in
            bytes j lt;
        kept =
            λ a o live at plain. kept_plain r g cells out kept copied relocated a o live at plain;
        held = λ a x o l live at reference fields alive.
            let (p, there) =
              kept_reference r g cells out kept copied relocated a x o l live at reference fields in
            let (d, to) = relocates x alive in
            there
            ∙ ap
                (λ (v : List ℕ). some (record o {
                  fields = v;
                  monitor = or_null (relocate_monitor objs new_location o.monitor);
                }))
                (fields_held objs new_location l (new_address objs new_location a) p x d to);
        cleared = λ a x o l live at reference fields some_object not_alive.
            let (p, there) =
              kept_reference r g cells out kept copied relocated a x o l live at reference fields in
            (
              p,
              there
                  ∙ ap
                      (λ (v : List ℕ). some (record o {
                        fields = v;
                        monitor = or_null (relocate_monitor objs new_location o.monitor);
                      }))
                      (fields_cleared objs new_location l (new_address objs new_location a) p x (
                        dead r x some_object (referent_even a x o l at reference fields)
                          not_alive)),
            );
        only = λ d o at. only-Alive r g cells out kept copied relocated d o at;
      }
    where
      referent_even :
          (a x : ℕ) (o : Object) (l : List ℕ)
          → object_of a h ≡ some o
          → o.is_reference ≡ true
          → o.fields ≡ x ∷ l
          → x % 2 ≡ 0
      referent_even a x o l at reference fields =
          let (y, rest, has, even, long) = ok.reference_fields a o at reference in
          let same : y ≡ x = cc in subst (λ z. z % 2 ≡ 0) same even

      relocates :
          (x : ℕ)
          → (x ≡ 0) ⊎ Alive vm roots h x
          → (d : ℕ) × (relocate_object objs new_location x ≡ (d, true))
      relocates x (inl z) =
          (0, ap (relocate_object objs new_location) z ∙ relocate_object_null objs new_location)
      relocates x (inr live) = let (i, at, to) = placed r live in (get_or new_location i 0, to)

-- The steps of `major_gc`, put together.
finish_gc-of :
    (start : ℕ) (objs : List ℕ) (roots : Roots) (s : Compaction) (cells out : List Cell) (last : ℕ)
    → moved_objects s.heap (map entry_of objs) s.new_location ≡ some cells
    → relocate_instance_fields objs s.new_location cells
        (new_address objs s.new_location roots.pending)
      ≡ some (out, last)
    → finish_gc start objs roots s
      ≡ some (record {
        roots = record (relocate_roots objs s.new_location roots) { pending = last };
        heap = out;
        memory = s.memory;
        heap_used = align_up (s.write_ptr - start) 8;
      })
unfolding finish_gc
finish_gc-of start objs roots s cells out last there passed = rw (there, passed, ◌>>=◌) refl

major_gc-of :
    (k : ℕ) (vm : Bounds) (roots : Roots) (h : Heap) (memory : Memory) (m : Marking) (objs : List ℕ)
    → mark_phase vm (all_roots roots) h ≡ some m
    → quicksort_pointers (length (map key m.objs)) (map key m.objs) ≡ some objs
    → major_gc k vm roots h memory
      ≡ finish_gc vm.start objs roots
          (compact k (map entry_of objs) (start_of_copy vm.start memory m.heap))
unfolding major_gc
major_gc-of k vm roots h memory m objs marked ordered = rw (marked, ordered, ◌>>=◌) refl

-- In a heap where no object is marked, every reference that is followed leads to an object, the
-- objects and their monitors, no two of them shared, stand apart, aligned and not empty behind
-- its start, and each java.lang.ref.Reference has its four fields, the referent at an even
-- address, a collection succeeds. It gives each object that is alive an address of its own, not
-- above the old one and within the heap, where its bytes are moved, as those of its monitor are,
-- and where it has its fields and its monitor with their new addresses; the roots other than the
-- pending list have theirs. Of a Reference this holds where the referent is null or alive; any
-- other referent is cleared, and the References with such a referent and a null discovered field
-- are those that the new pending list has in front of the old one, linked by that field. No other
-- object is left.
pub major_gc-IsCollected :
    (k : ℕ) (vm : Bounds) (roots : Roots) (h : Heap) (memory : Memory)
    → IsCollectable k vm roots h
    → (g : Collected) × (major_gc k vm roots h memory ≡ some g)
      × (to : ℕ → ℕ) × (monitor_to : ℕ → ℕ) × IsCollected k vm roots h memory to monitor_to g
major_gc-IsCollected k vm roots h memory ok =
    let (m, e, done) = mark_phase_ends vm (all_roots roots) h ok.closed ok.rooted ok.clear in
    let (objs, f, sorted, same) = quicksort_pointers_ends (map key m.objs) in
    let l = map entry_of objs in
    let s = compact k l (start_of_copy vm.start memory m.heap) in
    let located : s.new_location ≡ destinations k m.heap vm.start l =
      compact-destinations k l (start_of_copy vm.start memory m.heap) ok.aligned in
    let run : Run k vm roots h = record {
      ok = ok;
      m = m;
      e = e;
      objs = objs;
      sorted = sorted;
      same = same;
      new_location = s.new_location;
      located = located;
    } in
    let spaced = array-IsSpaced run in
    let moved : IsMoved k m.heap memory s.memory vm.start l =
      compact-IsMoved k l (start_of_copy vm.start memory m.heap) vm.start ok.aligned (omega arith)
        spaced in
    let there : (a : ℕ) → object_of a s.heap ≡ object_of a m.heap =
      object_of-compact k l (start_of_copy vm.start memory m.heap) in
    let kept : (a : ℕ) → object_of a s.heap ≡ object_of a h = λ a. there a ∙ same_objects run a in
    let all_found = array-IsFound run s.heap there in
    let (cells, c, copied) =
      moved_objects-IsCopied k m.heap s.heap vm.start vm.start l spaced all_found in
    let placed_cells : moved_objects s.heap l s.new_location ≡ some cells =
      ap (moved_objects s.heap l) located ∙ c in
    let monitors =
      AllCells-moved_objects (HasNewMonitor objs s.new_location) s.heap l s.new_location cells
        all_found
        (λ i a x at here.
          has_new_monitor run x.object (array-Live run i a at).0 (sym (kept a) ∙ ap object_in here))
        placed_cells in
    let (out, last, r, relocated) =
      relocate_instance_fields_lem objs s.new_location cells
        (new_address objs s.new_location roots.pending) monitors in
    (
      _,
      major_gc-of k vm roots h memory m objs e f
          ∙ finish_gc-of vm.start objs roots s cells out last placed_cells r,
      new_address objs s.new_location,
      λ n. or_null (relocate_monitor objs s.new_location n),
      IsCollected-of_passes run memory s.memory moved s.heap cells out kept
          (subst (λ ds. IsCopied s.heap l ds cells) (sym located) copied) relocated vm.start last
          (align_up (s.write_ptr - vm.start) 8)
          (moved_objects-Rising k m.heap s.heap vm.start vm.start l cells spaced c) placed_cells r,
    )
