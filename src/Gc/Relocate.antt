-- ===== src/Gc/Relocate.antt =====
-- vm/gc.c: `relocate_instance_fields` and `major_gc`. After the copying loop the heap is the list of
-- the objects at their new locations.
use b_jvm.Common.{
  ℕ, ◌+◌, ◌-◌, ◌%◌, Bool, true, false, List, [], ◌∷◌, ◌++◌, Option, none, some, ◌>>=◌, length,
  get_or, set, map, ◌==◌, if◌then◌else◌,
}
use b_jvm.Layout.{align_up}
use b_jvm.Gc.{Cell, Heap, Entry, find, Bounds, mark_phase}
use b_jvm.Gc.Compact.{Memory, Compaction, compact}
use b_jvm.Gc.Search.{key, binary_search_for_pointer, relocate_object}
use b_jvm.Gc.Sort.{quicksort_pointers}

-- `objs` is in order by now, and each new location stands at the index of its object.
module _ (objs : List ℕ) (new_location : List ℕ) where
  abbrev pub new_address : ℕ → ℕ
  new_address a = (relocate_object objs new_location a).0

  abbrev pub location_at : Option ℕ → Option ℕ
  location_at none = none
  location_at (some i) = some (get_or new_location i 0)

  -- `none` is the abort where the monitor is not found.
  abbrev pub relocate_monitor : ℕ → Option ℕ
  relocate_monitor m =
      if m == 0 then some 0 else location_at (binary_search_for_pointer (m + 1) objs)

  -- The fields behind the referent are `queue`, `next` and `discovered`. Where the referent is no longer
  -- reachable, the reference goes to the front of the pending list, unless it is in such a list.
  abbrev pub relocate_referent : ℕ → ℕ → List ℕ → ℕ × Bool → List ℕ × ℕ
  relocate_referent a pending rest (r, true) = (r ∷ rest, pending)
  relocate_referent a pending rest (r, false) =
      if get_or rest 2 0 == 0 then (0 ∷ set rest 2 pending, a) else (0 ∷ rest, pending)

  -- The new fields of the object at `a`, and the new head of the pending list. A reference has at least
  -- its referent.
  abbrev pub relocate_fields : ℕ → ℕ → Bool → List ℕ → List ℕ × ℕ
  relocate_fields a pending false fields = (map new_address fields, pending)
  relocate_fields a pending true [] = ([], pending)
  relocate_fields a pending true (r ∷ fields) =
      relocate_referent a pending (map new_address fields) (relocate_object objs new_location r)

  abbrev pub relocated_cell : ℕ → ℕ → Cell → Cell
  relocated_cell monitor pending c = record c {
    object = record c.object {
      fields = (relocate_fields c.address pending c.object.is_reference c.object.fields).0;
      monitor = monitor;
    };
  }

  abbrev pub next_pending : ℕ → Cell → ℕ
  next_pending pending c =
      (relocate_fields c.address pending c.object.is_reference c.object.fields).1

  unfoldable pub relocate_instance_fields : List Cell → ℕ → Option (List Cell × ℕ)
  relocate_instance_fields [] pending = some ([], pending)
  relocate_instance_fields (c ∷ cells) pending = relocate_monitor c.object.monitor >>= λ monitor.
      relocate_instance_fields cells (next_pending pending c) >>= λ p.
      some (relocated_cell monitor pending c ∷ p.0, p.1)

-- An address in the array says by its lowest bit what stands there.
abbrev pub entry_of : ℕ → Entry
entry_of a = if a % 2 == 1 then Entry.monitor (a - 1) else Entry.object a

-- What the copying loop has made of the objects in `objs`.
unfoldable pub moved_objects : Heap → List Entry → List ℕ → Option (List Cell)
moved_objects h [] ds = some []
moved_objects h (e ∷ l) [] = none
moved_objects h (Entry.monitor m ∷ l) (d ∷ ds) = moved_objects h l ds
moved_objects h (Entry.object a ∷ l) (d ∷ ds) =
    find a h >>= λ c. moved_objects h l ds >>= λ cells. some (record c { address = d } ∷ cells)

-- The values of the roots before and behind that of `reference_pending_list`.
pub record Roots : Type 0 where
  pub before : List ℕ
  pub pending : ℕ
  pub behind : List ℕ

abbrev pub all_roots : Roots → List ℕ
all_roots r = r.before ++ r.pending ∷ r.behind

pub record Collected : Type 0 where
  pub roots : Roots
  pub heap : Heap
  -- the bytes as the copying loop leaves them, with the old references
  pub memory : Memory
  pub heap_used : ℕ

abbrev pub start_of_copy : ℕ → Memory → Heap → Compaction
start_of_copy start memory h = record {
  write_ptr = start;
  memory = memory;
  heap = h;
  new_location = [];
}

abbrev pub relocate_roots : List ℕ → List ℕ → Roots → Roots
relocate_roots objs new_location r = record {
  before = map (new_address objs new_location) r.before;
  pending = new_address objs new_location r.pending;
  behind = map (new_address objs new_location) r.behind;
}

-- The passes over the roots and the objects behind the copying loop.
unfoldable pub finish_gc : ℕ → List ℕ → Roots → Compaction → Option Collected
unfolding moved_objects relocate_instance_fields
finish_gc start objs roots s =
    let r = relocate_roots objs s.new_location roots in
    moved_objects s.heap (map entry_of objs) s.new_location >>= λ cells.
    relocate_instance_fields objs s.new_location cells r.pending >>= λ p. some (record {
      roots = record r { pending = p.1 };
      heap = p.0;
      memory = s.memory;
      heap_used = align_up (s.write_ptr - start) 8;
    })

-- `NEW_HEAP_EACH_GC` is 0: the objects are copied within the heap.
unfoldable pub major_gc : ℕ → Bounds → Roots → Heap → Memory → Option Collected
unfolding mark_phase quicksort_pointers compact finish_gc
major_gc monitor_size vm roots h memory = mark_phase vm (all_roots roots) h >>= λ m.
    quicksort_pointers (length (map key m.objs)) (map key m.objs) >>= λ objs.
    finish_gc vm.start objs roots
      (compact monitor_size (map entry_of objs) (start_of_copy vm.start memory m.heap))
