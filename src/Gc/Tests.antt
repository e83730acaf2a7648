-- ===== src/Gc/Tests.antt =====
-- vm/gc.c on a small heap: runs of the code, and the theorems at them.
use b_jvm.Common.{
  ℕ, ◌%◌, ◌≤◌, ◌<◌, ◌≡◌, refl, true, false, List, [], ◌∷◌, some, map, get_or, arith, ◌⊎◌,
}
use b_jvm.Gc.{Object, Heap, Entry, Marking, Bounds, in_heap, mark_phase}
use b_jvm.Gc.Mark.{marked, count}
use b_jvm.Gc.Visit.{IsClosed}
use b_jvm.Gc.Checks.{check_refs-IsClosed, check_cells-IsHeap}
use b_jvm.Gc.Live.{Live, times, has_monitor, IsHeap}
use b_jvm.Gc.Phase.{mark_phase_ends, mark_phase-Live, mark_phase-has_monitor}
use b_jvm.Gc.Compact.{Compaction, compact}
use b_jvm.Gc.Search.{key, relocate_object, binary_search_for_pointer}
use b_jvm.Gc.Sort.{quicksort_pointers}
use b_jvm.Gc.Quick.{Sorts, quicksort_pointers_ends, binary_search_for_pointer-quicksort_pointers}
use b_jvm.Gc.Collect.{compact-mark_phase}

abbrev vm : Bounds
vm = record { start = 64; capacity = 64 }

abbrev plain : List ℕ → ℕ → Object
plain fields monitor = record {
  is_reference = false;
  fields = fields;
  monitor = monitor;
  size = 16;
}

-- The object at 80 is not alive; the one at 96 is reached by a field, and has a monitor at 112.
abbrev heap : Heap
heap =
    record { address = 64; object = plain (96 ∷ 0 ∷ []) 0; reachable = false }
    ∷ record { address = 80; object = plain (64 ∷ []) 0; reachable = false }
    ∷ record { address = 96; object = plain (64 ∷ 8 ∷ []) 112; reachable = false }
    ∷ []

heap-IsHeap : IsHeap vm heap
unfolding in_heap
heap-IsHeap a o at = check_cells-IsHeap vm heap heap a o refl at

roots-IsClosed : IsClosed vm (64 ∷ []) heap
unfolding in_heap
roots-IsClosed = check_refs-IsClosed vm heap (64 ∷ []) refl

heap_clear : (a : ℕ) → marked a heap ≡ 0
heap_clear a = ground arith

mark_phase_ends_example :
    (s : Marking) × (mark_phase vm (64 ∷ []) heap ≡ some s) × (s.worklist ≡ [])
mark_phase_ends_example = mark_phase_ends vm (64 ∷ []) heap heap-IsHeap roots-IsClosed heap_clear

abbrev all_marked : Marking
all_marked = record {
  heap =
      record { address = 64; object = plain (96 ∷ 0 ∷ []) 0; reachable = true }
      ∷ record { address = 80; object = plain (64 ∷ []) 0; reachable = false }
      ∷ record { address = 96; object = plain (64 ∷ 8 ∷ []) 112; reachable = true }
      ∷ [];
  worklist = [];
  objs = Entry.monitor 112 ∷ Entry.object 96 ∷ Entry.object 64 ∷ [];
}

marks_all : mark_phase vm (64 ∷ []) heap ≡ some all_marked
unfolding mark_phase in_heap
marks_all = refl

mark_phase-Live_example :
    ((times 96 all_marked.objs ≡ 1) × (marked 96 all_marked.heap ≡ 1) × Live vm (64 ∷ []) heap 96)
    ⊎ ((times 96 all_marked.objs ≡ 0)
        × (marked 96 all_marked.heap ≡ 0)
        × ¬ Live vm (64 ∷ []) heap 96)
mark_phase-Live_example =
    mark_phase-Live vm (64 ∷ []) heap heap-IsHeap roots-IsClosed heap_clear all_marked marks_all 96

alive : Live vm (64 ∷ []) heap 96
unfolding in_heap
alive = Live.field {b = 64} (Live.root (refl, refl)) (plain (96 ∷ 0 ∷ []) 0) refl (refl, refl)

mark_phase-has_monitor_example : has_monitor 112 all_marked.objs ≡ true
mark_phase-has_monitor_example =
    mark_phase-has_monitor vm (64 ∷ []) heap heap-IsHeap roots-IsClosed heap_clear all_marked
      marks_all 96 (plain (64 ∷ 8 ∷ []) 112) alive refl (omega arith)

abbrev sorted : List Entry
sorted = Entry.object 64 ∷ Entry.object 96 ∷ Entry.monitor 112 ∷ []

abbrev before : Compaction
before = record { write_ptr = 64; memory = λ p. p % 256; heap = all_marked.heap; new_location = [] }

-- It moves down by the 16 bytes of the object that is not alive.
moves_down :
    relocate_object (map key sorted) (compact 24 sorted before).new_location 96 ≡ (80, true)
unfolding relocate_object compact
moves_down = refl

compact-mark_phase_example : marked 96 (compact 24 sorted before).heap ≡ 0
compact-mark_phase_example =
    compact-mark_phase 24 vm (64 ∷ []) heap heap-IsHeap roots-IsClosed heap_clear all_marked
      marks_all sorted (λ a. ground arith) before refl 96

abbrev noted_order : List ℕ
noted_order = 96 ∷ 113 ∷ 64 ∷ 200 ∷ 8 ∷ []

sorts : quicksort_pointers 5 noted_order ≡ some (8 ∷ 64 ∷ 96 ∷ 113 ∷ 200 ∷ [])
unfolding quicksort_pointers
sorts = refl

quicksort_pointers_ends_example : Sorts 5 noted_order
quicksort_pointers_ends_example = quicksort_pointers_ends noted_order

noted_once : (x : ℕ) → count x noted_order ≤ 1
noted_once x = ground arith

binary_search_for_pointer-quicksort_pointers_example :
    (ys : List ℕ) × (quicksort_pointers 5 noted_order ≡ some ys)
    × ((x : ℕ)
        → 0 < count x noted_order
        → (i : ℕ) × (binary_search_for_pointer x ys ≡ some i) × (get_or ys i 0 ≡ x))
    × ((x i : ℕ) → binary_search_for_pointer x ys ≡ some i → 0 < count x noted_order)
binary_search_for_pointer-quicksort_pointers_example =
    binary_search_for_pointer-quicksort_pointers noted_order noted_once
