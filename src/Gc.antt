-- ===== src/Gc.antt =====
-- vm/gc.c: the mark-and-compact collector. An address is a number, 0 for null. The heap is the list
-- of its objects; of an object, the references are kept (the instance fields in the order of
-- `instance_references`, or the elements of an array of references), its monitor, and its size. The
-- vectors of the collector are lists with the last element first. `none` is a read through a pointer
-- to where no object is.
mod Mark
mod Visit
mod Live
mod Phase
mod Compact
mod Slide
mod Search
mod Sort
mod Scan
mod Rounds
mod Parts
mod Counts
mod Quick
mod Collect
mod Relocate
mod Noted
mod Arrange
mod Moved
mod Fields
mod Found
mod Chain
mod Kept
mod Placed
mod Graph
mod Pending
mod Major
mod Whole
mod Checks
mod Tests
mod WholeTests
use b_jvm.Common.{
  ℕ, zero, suc, ◌+◌, ◌-◌, Bool, true, false, ◌&&◌, ◌||◌, not, List, [], ◌∷◌, Option, none, some,
  ◌>>=◌, ltb, leb, ◌==◌, if◌then◌else◌, length, drop,
}

pub record Object : Type 0 where
  -- an instance of java.lang.ref.Reference, whose first field is the referent
  pub is_reference : Bool
  pub fields : List ℕ
  -- 0 where the header is a mark word
  pub monitor : ℕ
  pub size : ℕ

pub record Cell : Type 0 where
  pub address : ℕ
  pub object : Object
  -- the flag IS_REACHABLE of the mark word, which lies in the header or, if there is one, in the
  -- monitor
  pub reachable : Bool

abbrev Heap : Type 0
Heap = List Cell

-- What stands in `objs`: an object, or a monitor, whose address has the lowest bit set there.
data Entry : Type 0 where
  object : ℕ → Entry
  monitor : ℕ → Entry

record Marking : Type 0 where
  heap : Heap
  worklist : List ℕ
  objs : List Entry

abbrev find : ℕ → Heap → Option Cell
find a [] = none
find a (c ∷ h) = if c.address == a then some c else find a h

abbrev mark : ℕ → Heap → Heap
mark a [] = []
mark a (c ∷ h) = if c.address == a then record c { reachable = true } ∷ h else c ∷ mark a h

-- The bounds of the heap: where it starts, and its capacity.
record Bounds : Type 0 where
  start : ℕ
  capacity : ℕ

unfoldable in_heap : Bounds → ℕ → Bool
in_heap vm a = leb vm.start a && ltb a (vm.start + vm.capacity)

-- The test before a reference is followed.
abbrev is_followed : Bounds → ℕ → Bool
is_followed vm a = not (a == 0) && in_heap vm a

abbrev push : ℕ → Marking → Option Cell → Option Marking
push a s none = none
push a s (some c) =
    if c.reachable
    then some s
    else some (record s { heap = mark a s.heap; worklist = a ∷ s.worklist })

-- A root or a field: an object that is not marked yet is marked and put on the worklist.
unfoldable visit : Bounds → ℕ → Marking → Option Marking
visit vm a s = if is_followed vm a then push a s (find a s.heap) else some s

unfoldable visit_all : Bounds → List ℕ → Marking → Option Marking
unfolding visit
visit_all vm [] s = some s
visit_all vm (a ∷ l) s = visit vm a s >>= λ s'. visit_all vm l s'

-- The references that keep an object alive: not the referent.
abbrev strong : Object → List ℕ
strong o = if o.is_reference then drop 1 o.fields else o.fields

abbrev noted : ℕ → Object → List Entry → List Entry
noted a o objs =
    if o.monitor == 0
    then Entry.object a ∷ objs
    else Entry.monitor o.monitor ∷ Entry.object a ∷ objs

unfoldable mark_reachable : Bounds → ℕ → Marking → Option Marking
unfolding visit_all
mark_reachable vm a s = do
  c ← find a s.heap
  visit_all vm (strong c.object) (record s { objs = noted a c.object s.objs })

-- The loop over the worklist, in at most `n` rounds; `none` also where they are not enough.
unfoldable mark_loop : Bounds → ℕ → Marking → Option Marking
unfolding mark_reachable
mark_loop vm zero s = elim s.worklist [ [] ↦ some s | a ∷ w ↦ none ]
mark_loop vm (suc n) s = elim s.worklist [
  | [] ↦ some s
  | a ∷ w ↦ mark_reachable vm a (record s { heap = mark a s.heap; worklist = w }) >>= λ s'.
      mark_loop vm n s'
]

-- The mark phase of `major_gc`, from the roots on.
unfoldable mark_phase : Bounds → List ℕ → Heap → Option Marking
unfolding visit_all mark_loop
mark_phase vm roots h = visit_all vm roots (record { heap = h; worklist = []; objs = [] }) >>= λ s.
    mark_loop vm (length h) s
