-- ===== src/Gc/Major.antt =====
-- vm/gc.c: `major_gc` keeps the graph of the objects that are alive, and nothing else.
use b_jvm.Common.{
  ℕ, ◌≡◌, refl, sym, ap, subst, ◌∙◌, Bool, true, false, List, ◌∷◌, some, map, get_or,
}
use mathlib.Core.Option.{some_inj}
use b_jvm.Gc.{Object, Cell, Heap, Bounds}
use b_jvm.Gc.Mark.{object_of, object_in, found}
use b_jvm.Gc.Relocate.{entry_of, Roots, new_address, relocate_monitor, relocate_fields}
use b_jvm.Gc.Moved.{IsCopied}
use b_jvm.Gc.Fields.{IsRelocated}
use b_jvm.Gc.Kept.{Run, array-Live}
use b_jvm.Gc.Placed.{placed, array_placed}
use b_jvm.Gc.Graph.{Alive, or_null}

module _ {k : ℕ} {vm : Bounds} {roots : Roots} {h : Heap} (r : Run k vm roots h) where
  open r use {ok, m, e, objs, sorted, same, new_location, located}

  -- Where the objects of the array are, relocated, an object that is alive is at its new address.
  live_cell :
      (g : Heap) (cells out : List Cell)
      → ((a : ℕ) → object_of a g ≡ object_of a h)
      → IsCopied g (map entry_of objs) new_location cells
      → IsRelocated objs new_location cells out
      → (a : ℕ) (o : Object) → Alive vm roots h a
      → object_of a h ≡ some o
      → (p : ℕ) × (n : ℕ) × (relocate_monitor objs new_location o.monitor ≡ some n)
        × (object_of (new_address objs new_location a) out
            ≡ some (record o {
              fields =
                  (relocate_fields objs new_location
                    (new_address objs new_location a)
                    p
                    o.is_reference
                    o.fields).0;
              monitor = n;
            }))
  live_cell g cells out kept copied relocated a o live at =
      let (i, there, to) = placed r live in
      let (c, here) = found a g o (kept a ∙ at) in
      let object : c.object ≡ o = some_inj.0 (sym (ap object_in here) ∙ (kept a ∙ at)) in
      let (n, p, f, final) =
        relocated.kept (get_or new_location i 0) (record c { address = get_or new_location i 0 })
          (copied.kept i a c there here) in
      let address : get_or new_location i 0 ≡ new_address objs new_location a =
        ap (λ q. q.0) (sym to) in
      subst
        (λ x.
          (p : ℕ) × (n : ℕ) × (relocate_monitor objs new_location x.monitor ≡ some n)
          × (object_of (new_address objs new_location a) out
              ≡ some (record x {
                fields =
                    (relocate_fields objs new_location (new_address objs new_location a) p
                      x.is_reference x.fields).0;
                monitor = n;
              })))
        object
        (subst
          (λ d.
            (p : ℕ) × (n : ℕ) × (relocate_monitor objs new_location c.object.monitor ≡ some n)
            × (object_of d out
                ≡ some (record c.object {
                  fields =
                      (relocate_fields objs new_location d p c.object.is_reference
                        c.object.fields).0;
                  monitor = n;
                })))
          address (p, n, f, ap object_in final))

  null_monitor : relocate_monitor objs new_location 0 ≡ some 0
  null_monitor = refl

  -- What the record of the result says of an object, from what the passes have done to it.
  module _ (g : Heap) (cells out : List Cell) (kept : (a : ℕ) → object_of a g ≡ object_of a h)
      (copied : IsCopied g (map entry_of objs) new_location cells)
      (relocated : IsRelocated objs new_location cells out) where
    abbrev pub to : ℕ → ℕ
    to = new_address objs new_location

    abbrev pub monitor_to : ℕ → ℕ
    monitor_to n = or_null (relocate_monitor objs new_location n)

    pub kept_plain :
        (a : ℕ) (o : Object)
        → Alive vm roots h a
        → object_of a h ≡ some o
        → o.is_reference ≡ false
        → object_of (to a) out
          ≡ some (record o { fields = map to o.fields; monitor = monitor_to o.monitor })
    kept_plain a o live at plain =
        let (p, n, f, here) = live_cell g cells out kept copied relocated a o live at in
        subst
          (λ (b : Bool).
            object_of (to a) out
            ≡ some (record o {
              fields = (relocate_fields objs new_location (to a) p b o.fields).0;
              monitor = monitor_to o.monitor;
            }))
          plain
          (subst
            (λ j.
              object_of (to a) out
              ≡ some (record o {
                fields = (relocate_fields objs new_location (to a) p o.is_reference o.fields).0;
                monitor = j;
              }))
            (sym (ap or_null f)) here)

    pub kept_reference :
        (a x : ℕ) (o : Object) (l : List ℕ)
        → Alive vm roots h a
        → object_of a h ≡ some o
        → o.is_reference ≡ true
        → o.fields ≡ x ∷ l
        → (p : ℕ) × (object_of (to a) out
            ≡ some (record o {
              fields = (relocate_fields objs new_location (to a) p true (x ∷ l)).0;
              monitor = monitor_to o.monitor;
            }))
    kept_reference a x o l live at reference fields =
        let (p, n, f, here) = live_cell g cells out kept copied relocated a o live at in
        (
          p,
          here
              ∙ (ap
                    (λ (j : ℕ). some (record o {
                      fields =
                          (relocate_fields objs new_location (to a) p o.is_reference o.fields).0;
                      monitor = j;
                    }))
                    (sym (ap or_null f))
                  ∙ (ap
                        (λ (b : Bool). some (record o {
                          fields = (relocate_fields objs new_location (to a) p b o.fields).0;
                          monitor = monitor_to o.monitor;
                        }))
                        reference
                      ∙ ap
                          (λ (v : List ℕ). some (record o {
                            fields = (relocate_fields objs new_location (to a) p true v).0;
                            monitor = monitor_to o.monitor;
                          }))
                          fields)),
        )

    pub only-Alive :
        (d : ℕ) (o : Object) → object_of d out ≡ some o → (a : ℕ) × Alive vm roots h a × (d ≡ to a)
    only-Alive d o at =
        let (c, here) = found d out o at in
        let (b, there) = relocated.only d c here in
        let (i, a, entry, e') = copied.only d b there in
        (a, (array-Live r i a entry).0, e' ∙ sym (array_placed r i a entry))
