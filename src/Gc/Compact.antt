-- ===== src/Gc/Compact.antt =====
-- vm/gc.c: the copying loop of `major_gc`, which slides the objects and the monitors to the start of
-- the heap. The memory is a function from addresses to bytes; the flag IS_REACHABLE is not part of it,
-- but of the cells of the heap, also where `get_mark_word` finds it in the monitor. A monitor is
-- allocated behind its object and copying keeps the order, so that the loop clears the flag before it
-- moves the word that holds it, in either case.
use b_jvm.Common.{
  ℕ, ◌+◌, ◌-◌, false, ◌&&◌, List, [], ◌∷◌, ◌++◌, Option, none, some, ltb, leb, ◌==◌, if◌then◌else◌,
}
use b_jvm.Layout.{align_up}
use b_jvm.Gc.{Cell, Heap, Entry, find}

abbrev pub Memory : Type 0
Memory = ℕ → ℕ

pub record Compaction : Type 0 where
  pub write_ptr : ℕ
  pub memory : Memory
  pub heap : Heap
  -- in the order of the sorted `objs`
  pub new_location : List ℕ

-- The pointer without the lowest bit.
abbrev pub location : Entry → ℕ
location (Entry.object a) = a
location (Entry.monitor m) = m

abbrev pub size_in : Option Cell → ℕ
size_in none = 0
size_in (some c) = c.object.size

-- `monitor_size` is sizeof(monitor_data).
abbrev pub size_of : ℕ → Heap → Entry → ℕ
size_of monitor_size h (Entry.object a) = size_in (find a h)
size_of monitor_size h (Entry.monitor m) = monitor_size

abbrev pub unmark : ℕ → Heap → Heap
unmark a [] = []
unmark a (c ∷ h) = if c.address == a then record c { reachable = false } ∷ h else c ∷ unmark a h

-- The flag of an object is cleared; a monitor has none of its own.
abbrev pub cleared : Entry → Heap → Heap
cleared (Entry.object a) h = unmark a h
cleared (Entry.monitor m) h = h

unfoldable pub memmove : ℕ → ℕ → ℕ → Memory → Memory
memmove to from n m p = if leb to p && ltb p (to + n) then m (from + (p - to)) else m p

unfoldable pub place : ℕ → Entry → Compaction → Compaction
unfolding memmove
place monitor_size e s =
    let to = align_up s.write_ptr 8 in
    let sz = align_up (size_of monitor_size s.heap e) 8 in
    record {
      write_ptr = to + sz;
      memory = memmove to (location e) sz s.memory;
      heap = cleared e s.heap;
      new_location = s.new_location ++ (to ∷ []);
    }

unfoldable pub compact : ℕ → List Entry → Compaction → Compaction
unfolding place
compact monitor_size [] s = s
compact monitor_size (e ∷ l) s = compact monitor_size l (place monitor_size e s)
