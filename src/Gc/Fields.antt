-- ===== src/Gc/Fields.antt =====
-- vm/gc.c: the pass over the objects at their new locations.
use b_jvm.Common.{
  ℕ, suc, ◌≡◌, refl, subst, List, [], ◌∷◌, Option, none, some, ◌>>=◌, ◌==◌, Bool-cases, inl, inr,
  get_elem?,
}
use mathlib.Core.Option.{some_inj}
use b_jvm.Gc.{Object, Cell, Heap, Entry, find}
use b_jvm.Gc.Moved.{IsFound}
use b_jvm.Gc.Relocate.{
  relocate_monitor, relocated_cell, next_pending, relocate_instance_fields, moved_objects,
}

abbrev pub AllCells : (Object → Type 0) → List Cell → Type 0
AllCells P [] = Unit {0}
AllCells P (c ∷ cells) = P c.object × AllCells P cells

pub AllCells-moved_objects :
    (P : Object → Type 0) (g : Heap) (l : List Entry) (ds : List ℕ) (cells : List Cell)
    → IsFound g l
    → ((i a : ℕ) (c : Cell)
        → get_elem? l i ≡ some (Entry.object a)
        → find a g ≡ some c
        → P c.object)
    → moved_objects g l ds ≡ some cells
    → AllCells P cells
unfolding moved_objects
AllCells-moved_objects P g [] ds cells found holds e = subst (AllCells P) (some_inj.0 e) tt
AllCells-moved_objects P g (Entry.object b ∷ l) [] cells found holds e = cc
AllCells-moved_objects P g (Entry.monitor m ∷ l) [] cells found holds e = cc
AllCells-moved_objects P g (Entry.monitor m ∷ l) (d ∷ ds) cells found holds e =
    AllCells-moved_objects P g l ds cells (λ i. found (suc i)) (λ i. holds (suc i)) e
AllCells-moved_objects P g (Entry.object b ∷ l) (d ∷ ds) cells found holds e =
    let (c, there) = found 0 b refl in
    tail c (holds 0 b c refl there) (moved_objects g l ds)
      (λ rest. AllCells-moved_objects P g l ds rest (λ i. found (suc i)) (λ i. holds (suc i)))
      (rw there at e)
  where
    tail :
        (c : Cell)
        → P c.object
        → (m : Option (List Cell)) → ((rest : List Cell) → m ≡ some rest → AllCells P rest)
        → (m >>= λ rest. some (record c { address = d } ∷ rest)) ≡ some cells
        → AllCells P cells
    tail c holds_here none all e = cc
    tail c holds_here (some rest) all e =
        subst (AllCells P) (some_inj.0 e) (holds_here, all rest refl)

module _ (objs : List ℕ) (new_location : List ℕ) where
  abbrev pub HasNewMonitor : Object → Type 0
  HasNewMonitor o = (m : ℕ) × (relocate_monitor objs new_location o.monitor ≡ some m)

  -- Where every monitor is found, the pass ends, and each object stands where it stood, relocated.
  pub record IsRelocated (cells out : List Cell) : Type 0 where
    pub kept :
        (d : ℕ) (c : Cell)
        → find d cells ≡ some c
        → (m : ℕ) × (p : ℕ) × (relocate_monitor objs new_location c.object.monitor ≡ some m)
          × (find d out ≡ some (relocated_cell objs new_location m p c))
    pub only : (d : ℕ) (c : Cell) → find d out ≡ some c → (b : Cell) × (find d cells ≡ some b)

  cons-IsRelocated :
      (m p : ℕ) (c : Cell) (cells out : List Cell)
      → relocate_monitor objs new_location c.object.monitor ≡ some m
      → IsRelocated cells out
      → IsRelocated (c ∷ cells) (relocated_cell objs new_location m p c ∷ out)
  cons-IsRelocated m p c cells out e rest = record {
    kept = λ d b here. elim (Bool-cases (c.address == d)) [
      | inl q ↦
          let same : c ≡ b = some_inj.0 (rw q at here) in
          subst
            (λ x.
              (n : ℕ) × (r : ℕ) × (relocate_monitor objs new_location x.object.monitor ≡ some n)
              × (find d (relocated_cell objs new_location m p c ∷ out)
                  ≡ some (relocated_cell objs new_location n r x)))
            same (m, p, e, rw q refl)
      | inr q ↦ let (n, r, f, there) = rest.kept d b (rw q at here) in (n, r, f, rw q there)
    ];
    only = λ d b here. elim (Bool-cases (c.address == d)) [
      | inl q ↦ (c, rw q refl)
      | inr q ↦ let (x, there) = rest.only d b (rw q at here) in (x, rw q there)
    ];
  }

  pub relocate_instance_fields_lem :
      (cells : List Cell) (pending : ℕ)
      → AllCells HasNewMonitor cells
      → (out : List Cell) × (last : ℕ) × (relocate_instance_fields objs new_location cells pending
          ≡ some (out, last))
        × IsRelocated cells out
  unfolding relocate_instance_fields
  relocate_instance_fields_lem [] pending all =
      ([], pending, refl, record { kept = λ d c here. cc; only = λ d c here. cc })
  relocate_instance_fields_lem (c ∷ cells) pending ((m, e), all) =
      let (out, last, f, rest) =
        relocate_instance_fields_lem cells (next_pending objs new_location pending c) all in
      (
        relocated_cell objs new_location m pending c ∷ out,
        last,
        rw (e, f) refl,
        cons-IsRelocated m pending c cells out e rest,
      )
