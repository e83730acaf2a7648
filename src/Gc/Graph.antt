-- ===== src/Gc/Graph.antt =====
-- vm/gc.c: what `major_gc` leaves of the heap.
use b_jvm.Common.{
  ℕ, ◌+◌, ◌≤◌, ◌<◌, ◌≡◌, ◌≢◌, refl, sym, ap, true, false, List, ◌∷◌, Option, none, some, ◌==◌,
  if◌then◌else◌, Bool-cases, inl, inr, ◌⊎◌, map, get_or, set,
}
use b_jvm.Layout.{align_up}
use b_jvm.Gc.{Object, Heap, Entry, Bounds}
use b_jvm.Gc.Mark.{object_of, count}
use b_jvm.Gc.Chain.{IsChain}
use b_jvm.Gc.Live.{Live}
use b_jvm.Gc.Search.{relocate_object}
use b_jvm.Gc.Compact.{Memory}
use b_jvm.Gc.Slide.{extent}
use b_jvm.Gc.Relocate.{Roots, Collected, all_roots, new_address, relocate_fields}

abbrev pub or_null : Option ℕ → ℕ
or_null none = 0
or_null (some a) = a

abbrev pub Alive : Bounds → Roots → Heap → ℕ → Type 0
Alive vm roots h a = Live vm (all_roots roots) h a

-- A reference whose referent is neither null nor alive, and whose `discovered` is null.
abbrev pub Joins : Bounds → Roots → Heap → (ℕ → ℕ) → Object → Type 0
Joins vm roots h to o =
    (r : ℕ) × (l : List ℕ) × (o.is_reference ≡ true)
    × (o.fields ≡ r ∷ l)
    × (r ≢ 0)
    × (¬ Alive vm roots h r)
    × (get_or (map to l) 2 0 ≡ 0)

module _ (k : ℕ) (vm : Bounds) (roots : Roots) (h : Heap) (memory : Memory) where
  -- The graph of the objects that are alive, with `to` for the new address of an object, and
  -- `monitor_to` for that of a monitor.
  pub record IsCollected (to monitor_to : ℕ → ℕ) (g : Collected) : Type 0 where
    pub null : (to 0 ≡ 0) × (monitor_to 0 ≡ 0)
    pub rooted : (g.roots.before ≡ map to roots.before) × (g.roots.behind ≡ map to roots.behind)
    pub down : (a : ℕ) → Alive vm roots h a → (vm.start ≤ to a) × (to a ≤ a)
    pub distinct : (a b : ℕ) → Alive vm roots h a → Alive vm roots h b → to a ≡ to b → a ≡ b
    pub contents :
        (a j : ℕ)
        → Alive vm roots h a
        → j < extent k h (Entry.object a)
        → g.memory (to a + j) ≡ memory (a + j)
    pub monitor_contents :
        (a j : ℕ) (o : Object)
        → Alive vm roots h a
        → object_of a h ≡ some o
        → o.monitor ≢ 0
        → j < align_up k 8
        → g.memory (monitor_to o.monitor + j) ≡ memory (o.monitor + j)
    pub kept :
        (a : ℕ) (o : Object)
        → Alive vm roots h a
        → object_of a h ≡ some o
        → o.is_reference ≡ false
        → object_of (to a) g.heap
          ≡ some (record o { fields = map to o.fields; monitor = monitor_to o.monitor })
    -- a reference whose referent is null or alive
    pub held :
        (a r : ℕ) (o : Object) (l : List ℕ)
        → Alive vm roots h a
        → object_of a h ≡ some o
        → o.is_reference ≡ true
        → o.fields ≡ r ∷ l
        → (r ≡ 0) ⊎ Alive vm roots h r
        → object_of (to a) g.heap
          ≡ some (record o { fields = to r ∷ map to l; monitor = monitor_to o.monitor })
    -- any other: the referent is cleared, and a null `discovered` is set; `pending` says to what
    pub cleared :
        (a r : ℕ) (o : Object) (l : List ℕ)
        → Alive vm roots h a
        → object_of a h ≡ some o
        → o.is_reference ≡ true
        → o.fields ≡ r ∷ l
        → r ≢ 0
        → ¬ Alive vm roots h r
        → (p : ℕ) × (object_of (to a) g.heap
            ≡ some (record o {
              fields = 0 ∷ (if get_or (map to l) 2 0 == 0 then set (map to l) 2 p else map to l);
              monitor = monitor_to o.monitor;
            }))
    -- what stands in front of the old pending list
    pub pending :
        (l : List ℕ) × IsChain g.heap g.roots.pending l (to roots.pending)
        × ((d : ℕ)
            → 0 < count d l
            → (a : ℕ) × (o : Object) × Alive vm roots h a
              × (object_of a h ≡ some o)
              × (d ≡ to a)
              × Joins vm roots h to o)
        × ((a : ℕ) (o : Object)
            → Alive vm roots h a
            → object_of a h ≡ some o
            → Joins vm roots h to o
            → 0 < count (to a) l)
    pub only :
        (d : ℕ) (o : Object)
        → object_of d g.heap ≡ some o
        → (a : ℕ) × Alive vm roots h a × (d ≡ to a)

pub fields_held :
    (objs new_location l : List ℕ) (a p r d : ℕ)
    → relocate_object objs new_location r ≡ (d, true)
    → (relocate_fields objs new_location a p true (r ∷ l)).0
      ≡ new_address objs new_location r ∷ map (new_address objs new_location) l
fields_held objs new_location l a p r d e =
    rw e (ap (λ x. x ∷ map (new_address objs new_location) l) (sym (ap (λ q. q.0) e)))

pub fields_cleared :
    (objs new_location l : List ℕ) (a p r : ℕ)
    → relocate_object objs new_location r ≡ (r, false)
    → (relocate_fields objs new_location a p true (r ∷ l)).0
      ≡ 0
        ∷ (if get_or (map (new_address objs new_location) l) 2 0 == 0
            then set (map (new_address objs new_location) l) 2 p
            else map (new_address objs new_location) l)
fields_cleared objs new_location l a p r e =
    rw e (elim (Bool-cases (get_or (map (new_address objs new_location) l) 2 0 == 0)) [
      | inl q ↦ rw q refl
      | inr q ↦ rw q refl
    ])
