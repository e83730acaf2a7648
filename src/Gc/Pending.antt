-- ===== src/Gc/Pending.antt =====
-- vm/gc.c: which references are pending after a collection.
use b_jvm.Common.{
  ℕ, ◌%◌, ◌<◌, ◌≡◌, refl, sym, ap, subst, ◌∙◌, Bool, true, false, List, [], ◌∷◌, some, ◌==◌, arith,
  map, get_or, length,
}
use mathlib.Core.Option.{some_inj}
use b_jvm.Gc.{Object, Cell, Heap, Bounds, find}
use b_jvm.Gc.Mark.{object_of, object_in, count, found}
use b_jvm.Gc.Search.{relocate_object}
use b_jvm.Gc.Relocate.{entry_of, Roots, new_address, relocate_instance_fields, moved_objects}
use b_jvm.Gc.Moved.{IsCopied}
use b_jvm.Gc.Fields.{AllCells, AllCells-moved_objects}
use b_jvm.Gc.Found.{relocate_object_null}
use b_jvm.Gc.Chain.{
  IsChain, Rising, Rising-StandsIn, joins_with, IsSized, joined, relocate_instance_fields-Rising,
  joined-IsChain, joined-joins, joins-joined,
}
use b_jvm.Gc.Kept.{Run, array-Live, array-IsFound, same_objects}
use b_jvm.Gc.Placed.{placed, array_placed, dead}
use b_jvm.Gc.Graph.{Alive, Joins}

module _ {k : ℕ} {vm : Bounds} {roots : Roots} {h : Heap} (r : Run k vm roots h) where
  open r use {ok, objs, new_location}

  -- What the pass tests of a reference.
  Joins-of_test :
      (reference : Bool) (fields : List ℕ) (o : Object)
      → o.is_reference ≡ reference
      → o.fields ≡ fields
      → joins_with objs new_location reference fields ≡ true
      → Joins vm roots h (new_address objs new_location) o
  Joins-of_test false fields o is has e = cc
  Joins-of_test true [] o is has e = cc
  Joins-of_test true (x ∷ l) o is has e =
      let missing : (relocate_object objs new_location x).1 ≡ false = ground arith in
      let is_null : get_or (map (new_address objs new_location) l) 2 0 ≡ 0 = ground arith in
      (
        x,
        l,
        is,
        has,
        λ z.
            let null : relocate_object objs new_location x ≡ (0, true) =
              ap (relocate_object objs new_location) z ∙ relocate_object_null objs new_location in
            absurd (ground (arith, ap (λ q. q.1) null)),
        λ live. let (i, at, to) = placed r live in absurd (ground (arith, ap (λ q. q.1) to)),
        is_null,
      )

  test-of_Joins :
      (a : ℕ) (o : Object)
      → object_of a h ≡ some o
      → Joins vm roots h (new_address objs new_location) o
      → joins_with objs new_location o.is_reference o.fields ≡ true
  test-of_Joins a o at (x, l, is, has, ne, gone, null) =
      let (y, rest, has', even, long) = ok.reference_fields a o at is in
      let same : y ≡ x = cc in
      let missing = dead r x ne (subst (λ z. z % 2 ≡ 0) same even) gone in
      let found_false : (relocate_object objs new_location x).1 ≡ false = ap (λ q. q.1) missing in
      let third : (get_or (map (new_address objs new_location) l) 2 0 == 0) ≡ true = ground arith in
      rw (is, has, found_false, third) refl

  module _ (g : Heap) (cells : List Cell) (p : ℕ) (kept : (a : ℕ) → object_of a g ≡ object_of a h)
      (copied : IsCopied g (map entry_of objs) new_location cells) (rising : Rising p cells)
      (there : moved_objects g (map entry_of objs) new_location ≡ some cells) where
    sized : AllCells (IsSized objs new_location) cells
    sized =
        AllCells-moved_objects (IsSized objs new_location) g (map entry_of objs) new_location cells
          (array-IsFound r g (λ a. kept a ∙ sym (same_objects r a)))
          (λ i a c at here is.
            let (x, l, has, even, long) =
              ok.reference_fields a c.object (sym (kept a) ∙ ap object_in here) is in
            omega (arith, ap length has))
          there

    pub pending_list :
        (out : List Cell) (last : ℕ)
        → relocate_instance_fields objs new_location cells
            (new_address objs new_location roots.pending)
          ≡ some (out, last)
        → (l : List ℕ) × IsChain out last l (new_address objs new_location roots.pending)
          × ((d : ℕ)
              → 0 < count d l
              → (a : ℕ) × (o : Object) × Alive vm roots h a
                × (object_of a h ≡ some o)
                × (d ≡ new_address objs new_location a)
                × Joins vm roots h (new_address objs new_location) o)
          × ((a : ℕ) (o : Object)
              → Alive vm roots h a
              → object_of a h ≡ some o
              → Joins vm roots h (new_address objs new_location) o
              → 0 < count (new_address objs new_location a) l)
    pending_list out last passed = (
      joined objs new_location cells [],
      joined-IsChain objs new_location out (new_address objs new_location roots.pending) cells
          (new_address objs new_location roots.pending) out last [] sized passed
          (Rising-StandsIn p out (
            relocate_instance_fields-Rising objs new_location p cells
              (new_address objs new_location roots.pending) out last rising passed))
          refl,
      λ d more.
          let (c, here, joins_c) = joined-joins objs new_location p d cells rising more in
          let (i, a, at, e) = copied.only d c here in
          let (live, (o, object)) = array-Live r i a at in
          let (b, cell) = found a g o (kept a ∙ object) in
          let stands = copied.kept i a b at cell in
          let same : c.object ≡ o = some_inj.0 (
            ap object_in (sym here ∙ (ap (λ x. find x cells) e ∙ stands))
            ∙ (sym (ap object_in cell) ∙ (kept a ∙ object))) in
          (
            a,
            o,
            live,
            object,
            e ∙ sym (array_placed r i a at),
            Joins-of_test o.is_reference o.fields o refl refl (
                subst (λ x. joins_with objs new_location x.is_reference x.fields ≡ true) same
                  joins_c),
          ),
      λ a o live object join.
          let (i, at, to) = placed r live in
          let (b, cell) = found a g o (kept a ∙ object) in
          let same : b.object ≡ o = some_inj.0 (sym (ap object_in cell) ∙ (kept a ∙ object)) in
          subst (λ x. 0 < count x (joined objs new_location cells [])) (sym (ap (λ q. q.0) to))
            (joins-joined objs new_location (get_or new_location i 0)
              (record b { address = get_or new_location i 0 }) cells (copied.kept i a b at cell)
              (subst (λ x. joins_with objs new_location x.is_reference x.fields ≡ true) (sym same)
                (test-of_Joins a o object join))),
    )
