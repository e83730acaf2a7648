-- ===== src/Gc/WholeTests.antt =====
-- vm/gc.c: a whole collection of a small heap.
use b_jvm.Common.{
  ℕ, ◌+◌, ◌%◌, ◌≤◌, ◌<◌, ◌≡◌, sym, ap, length, Bool-cases, inl, inr, ◌==◌, refl, true, false, List,
  [], ◌∷◌, Option, none, some, arith,
}
use b_jvm.Gc.{Object, Heap, Entry, Bounds, in_heap}
use b_jvm.Gc.Mark.{object_of, marked}
use b_jvm.Gc.Visit.{IsClosed}
use b_jvm.Gc.Live.{IsHeap}
use b_jvm.Gc.Compact.{Memory, location, size_of}
use b_jvm.Gc.Slide.{extent}
use b_jvm.Gc.Search.{key, relocate_object, binary_search_for_pointer}
use b_jvm.Gc.Checks.{check_refs-IsClosed, check_cells-IsHeap}
use b_jvm.Gc.Noted.{IsApart, Stands}
use b_jvm.Gc.Arrange.{IsLaidOut}
use b_jvm.Gc.Relocate.{Roots, Collected, all_roots, major_gc}
use b_jvm.Gc.Kept.{IsCollectable}
use b_jvm.Gc.Graph.{IsCollected}
use b_jvm.Gc.Whole.{major_gc-IsCollected}

abbrev vm : Bounds
vm = record { start = 64; capacity = 256 }

abbrev plain : List ℕ → Object
plain fields = record { is_reference = false; fields = fields; monitor = 0; size = 16 }

-- A reference with a monitor, whose referent, the object at 80, nothing else keeps alive.
abbrev weak : Object
weak = record { is_reference = true; fields = 80 ∷ 0 ∷ 0 ∷ 0 ∷ []; monitor = 144; size = 48 }

abbrev heap : Heap
heap =
    record { address = 64; object = plain (96 ∷ 0 ∷ []); reachable = false }
    ∷ record { address = 80; object = plain (64 ∷ []); reachable = false }
    ∷ record { address = 96; object = weak; reachable = false }
    ∷ []

abbrev roots : Roots
roots = record { before = 64 ∷ []; pending = 0; behind = 96 ∷ [] }

abbrev memory : Memory
memory a = a % 256

abbrev outcome : Option Collected → Option (Heap × Roots × ℕ)
outcome none = none
outcome (some g) = some (g.heap, g.roots, g.heap_used)

-- The reference moves down by the 16 bytes of the dead object, and is pending.
collects :
    outcome (major_gc 24 vm roots heap memory)
    ≡ some (
      record { address = 64; object = plain (80 ∷ 0 ∷ []); reachable = false }
          ∷ record {
            address = 80;
            object = record weak { fields = 0 ∷ 0 ∷ 0 ∷ 0 ∷ []; monitor = 128 };
            reachable = false;
          }
          ∷ [],
      record { before = 64 ∷ []; pending = 80; behind = 80 ∷ [] },
      88,
    )
unfolding major_gc in_heap relocate_object binary_search_for_pointer
collects = refl

heap-IsHeap : IsHeap vm heap
unfolding in_heap
heap-IsHeap a o at = check_cells-IsHeap vm heap heap a o refl at

roots-IsClosed : IsClosed vm (all_roots roots) heap
unfolding in_heap
roots-IsClosed = check_refs-IsClosed vm heap (all_roots roots) refl

heap_clear : (a : ℕ) → marked a heap ≡ 0
heap_clear a = ground arith

heap-IsApart : IsApart heap
heap-IsApart = record {
  even = λ a o at. ground arith;
  own = λ a b o p at here same big. ground arith;
}

heap-IsLaidOut : IsLaidOut 24 64 heap
heap-IsLaidOut = record { each = each; spaced = spaced }
  where
    each :
        (e : Entry)
        → Stands heap e
        → (64 ≤ location e) × (location e % 8 ≡ 0) × (0 < size_of 24 heap e)
    each (Entry.object a) (o, at) = ground arith
    each (Entry.monitor m) (b, o, at, e, ne) = ground arith

    spaced :
        (e f : Entry)
        → Stands heap e
        → Stands heap f
        → key e < key f
        → location e + extent 24 heap e ≤ location f
    spaced (Entry.object a) (Entry.object b) (o, at) (p, here) lt = ground arith
    spaced (Entry.object a) (Entry.monitor m) (o, at) (b, p, here, e, ne) lt = ground arith
    spaced (Entry.monitor m) (Entry.object a) (b, p, here, e, ne) (o, at) lt = ground arith
    spaced (Entry.monitor m) (Entry.monitor n) (b, p, here, e, ne) (c, q, there, f, nf) lt =
        ground arith

heap-reference_fields :
    (a : ℕ) (o : Object)
    → object_of a heap ≡ some o
    → o.is_reference ≡ true
    → (r : ℕ) × (l : List ℕ) × (o.fields ≡ r ∷ l) × (r % 2 ≡ 0) × (3 ≤ length l)
heap-reference_fields a o at is = elim (Bool-cases (a == 96)) [
  | inl p ↦
      let same : weak ≡ o = ground arith in
      (80, 0 ∷ 0 ∷ 0 ∷ [], ap (λ x. x.fields) (sym same), refl, omega arith)
  | inr p ↦ absurd (ground arith)
]

heap-IsCollectable : IsCollectable 24 vm roots heap
heap-IsCollectable = record {
  closed = heap-IsHeap;
  rooted = roots-IsClosed;
  clear = heap_clear;
  apart = heap-IsApart;
  laid = heap-IsLaidOut;
  aligned = refl;
  reference_fields = heap-reference_fields;
}

major_gc-IsCollected_example :
    (g : Collected) × (major_gc 24 vm roots heap memory ≡ some g)
    × (to : ℕ → ℕ) × (monitor_to : ℕ → ℕ) × IsCollected 24 vm roots heap memory to monitor_to g
major_gc-IsCollected_example = major_gc-IsCollected 24 vm roots heap memory heap-IsCollectable
