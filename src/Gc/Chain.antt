-- ===== src/Gc/Chain.antt =====
-- vm/gc.c: the references that the pass over the objects puts on the pending list.
use b_jvm.Common.{
  ℕ, suc, ◌+◌, ◌≤◌, ◌<◌, ◌≡◌, refl, sym, ap, subst, ◌∙◌, Bool, true, false, ◌&&◌, not, List, [],
  ◌∷◌, Option, none, some, ◌>>=◌, ◌==◌, if◌then◌else◌, arith, Bool-cases, inl, inr, map, get_or,
  set, length, All,
}
use mathlib.Core.Option.{some_inj}
use b_jvm.Gc.{Object, Cell, Heap, Entry, find}
use b_jvm.Gc.Mark.{object_of, count}
use b_jvm.Gc.Search.{relocate_object}
use b_jvm.Gc.Slide.{extent, IsSpaced, destinations}
use b_jvm.Gc.Fields.{AllCells}
use b_jvm.Gc.Relocate.{
  new_address, relocate_monitor, relocate_referent, relocate_fields, relocated_cell, next_pending,
  relocate_instance_fields, moved_objects,
}

-- From `first` on, the fields `discovered` lead through the references of the list to `last`.
abbrev pub IsChain : Heap → ℕ → List ℕ → ℕ → Type 0
IsChain g first [] last = first ≡ last
IsChain g first (a ∷ l) last =
    (first ≡ a) × (o : Object) × (object_of a g ≡ some o) × IsChain g (get_or o.fields 3 0) l last

-- The cells stand at ascending addresses, the first not below `p`.
abbrev pub Rising : ℕ → List Cell → Type 0
Rising p [] = Unit {0}
Rising p (c ∷ cells) = (p ≤ c.address) × Rising (suc c.address) cells

Rising-le : (p q : ℕ) (cells : List Cell) → q ≤ p → Rising p cells → Rising q cells
Rising-le p q [] le x = tt
Rising-le p q (c ∷ cells) le (a, b) = (omega arith, b)

pub moved_objects-Rising :
    (k : ℕ) (h g : Heap) (p q : ℕ) (l : List Entry) (cells : List Cell)
    → IsSpaced k h q l
    → moved_objects g l (destinations k h p l) ≡ some cells
    → Rising p cells
unfolding moved_objects
moved_objects-Rising k h g p q [] cells spaced e = subst (Rising p) (some_inj.0 e) tt
moved_objects-Rising k h g p q (Entry.monitor m ∷ l) cells (a, b, z, spaced) e =
    let sz = extent k h (Entry.monitor m) in
    Rising-le (p + sz) p cells (omega arith)
      (moved_objects-Rising k h g (p + sz) (m + sz) l cells spaced e)
moved_objects-Rising k h g p q (Entry.object b ∷ l) cells (low, even, big, spaced) e =
    let sz = extent k h (Entry.object b) in
    here (find b g) (moved_objects g l (destinations k h (p + sz) l))
      (λ rest f.
        Rising-le (p + sz) (suc p) rest (omega arith)
          (moved_objects-Rising k h g (p + sz) (b + sz) l rest spaced f))
      e
  where
    here :
        (f : Option Cell) (m : Option (List Cell))
        → ((rest : List Cell) → m ≡ some rest → Rising (suc p) rest)
        → (f >>= λ c. m >>= λ rest. some (record c { address = p } ∷ rest)) ≡ some cells
        → Rising p cells
    here none m rising e = cc
    here (some c) none rising e = cc
    here (some c) (some rest) rising e =
        subst (Rising p) (some_inj.0 e) (omega arith, rising rest refl)

-- What a cell above the others says of them.
find_above : (p d : ℕ) (c : Cell) (cells : List Cell) → Rising p cells → d < p → find d cells ≡ none
find_above p d c [] x lt = refl
find_above p d c (b ∷ cells) (a, x) lt =
    let other : (b.address == d) ≡ false = ground arith in
    rw other (find_above (suc b.address) d c cells x (omega arith))

find_next :
    (d : ℕ) (c b : Cell) (cells : List Cell)
    → (c.address == d) ≡ false
    → find d cells ≡ some b
    → find d (c ∷ cells) ≡ some b
find_next d c b cells other at = rw other at

abbrev pub StandsIn : Heap → Cell → Type 0
StandsIn g c = object_of c.address g ≡ some c.object

StandsIn-cons :
    (p : ℕ) (c : Cell) (g cells : List Cell)
    → Rising p cells
    → c.address < p
    → All (StandsIn g) cells
    → All (StandsIn (c ∷ g)) cells
StandsIn-cons p c g [] x lt all = tt
StandsIn-cons p c g (b ∷ cells) (a, x) lt (here, all) =
    let other : (c.address == b.address) ≡ false = ground arith in
    (rw other here, StandsIn-cons (suc b.address) c g cells x (omega arith) all)

pub Rising-StandsIn : (p : ℕ) (cells : List Cell) → Rising p cells → All (StandsIn cells) cells
Rising-StandsIn p [] x = tt
Rising-StandsIn p (c ∷ cells) (a, x) =
    let self : (c.address == c.address) ≡ true = ground arith in
    (
      rw self refl,
      StandsIn-cons (suc c.address) c cells cells x (omega arith)
          (Rising-StandsIn (suc c.address) cells x),
    )

module _ (objs new_location : List ℕ) where
  abbrev pub joins_with : Bool → List ℕ → Bool
  joins_with false fields = false
  joins_with true [] = false
  joins_with true (r ∷ l) =
      not (relocate_object objs new_location r).1
      && (get_or (map (new_address objs new_location) l) 2 0 == 0)

  -- The cell is a reference that the pass puts on the pending list.
  abbrev pub joins : Cell → Bool
  joins c = joins_with c.object.is_reference c.object.fields

  abbrev pub IsSized : Object → Type 0
  IsSized o = o.is_reference ≡ true → 4 ≤ length o.fields

  -- The references that join, the last one first.
  abbrev pub joined : List Cell → List ℕ → List ℕ
  joined [] l = l
  joined (c ∷ cells) l = joined cells (if joins c then c.address ∷ l else l)

  length-map : (l : List ℕ) → length (map (new_address objs new_location) l) ≡ length l
  length-map [] = refl
  length-map (x ∷ l) = ap suc (length-map l)

  get_or-set_third : (l : List ℕ) (p : ℕ) → 3 ≤ length l → get_or (set l 2 p) 2 0 ≡ p
  get_or-set_third [] p h = absurd (omega arith)
  get_or-set_third (a ∷ []) p h = absurd (omega arith)
  get_or-set_third (a ∷ b ∷ []) p h = absurd (omega arith)
  get_or-set_third (a ∷ b ∷ c ∷ l) p h = refl

  -- A cell that joins has the old head of the list as its `discovered`, and is the new head.
  joins-next :
      (a pending : ℕ) (reference : Bool) (fields : List ℕ)
      → (reference ≡ true → 4 ≤ length fields)
      → joins_with reference fields ≡ true
      → (get_or (relocate_fields objs new_location a pending reference fields).0 3 0 ≡ pending)
        × ((relocate_fields objs new_location a pending reference fields).1 ≡ a)
  joins-next a pending false fields sized e = cc
  joins-next a pending true [] sized e = cc
  joins-next a pending true (r ∷ l) sized e =
      referent (relocate_object objs new_location r) (map (new_address objs new_location) l)
        (omega (arith, sized refl, length-map l)) e
    where
      referent :
          (t : ℕ × Bool) (rest : List ℕ)
          → 3 ≤ length rest
          → (not t.1 && (get_or rest 2 0 == 0)) ≡ true
          → (get_or (relocate_referent objs new_location a pending rest t).0 3 0 ≡ pending)
            × ((relocate_referent objs new_location a pending rest t).1 ≡ a)
      referent (x, true) rest long e = cc
      referent (x, false) rest long e = rw e (get_or-set_third rest pending long, refl)

  stays-next :
      (a pending : ℕ) (reference : Bool) (fields : List ℕ)
      → joins_with reference fields ≡ false
      → (relocate_fields objs new_location a pending reference fields).1 ≡ pending
  stays-next a pending false fields e = refl
  stays-next a pending true [] e = refl
  stays-next a pending true (r ∷ l) e =
      referent (relocate_object objs new_location r) (map (new_address objs new_location) l) e
    where
      referent :
          (t : ℕ × Bool) (rest : List ℕ)
          → (not t.1 && (get_or rest 2 0 == 0)) ≡ false
          → (relocate_referent objs new_location a pending rest t).1 ≡ pending
      referent (x, true) rest e = refl
      referent (x, false) rest e = rw e refl

  uncons :
      (c : Cell) (cells : List Cell) (pending : ℕ) (out : List Cell) (last : ℕ)
      → relocate_instance_fields objs new_location (c ∷ cells) pending ≡ some (out, last)
      → (m : ℕ) × (rest : List Cell) × (relocate_instance_fields objs new_location cells
            (next_pending objs new_location pending c)
          ≡ some (rest, last))
        × (relocated_cell objs new_location m pending c ∷ rest ≡ out)
  unfolding relocate_instance_fields
  uncons c cells pending out last e =
      go (relocate_monitor objs new_location c.object.monitor)
        (relocate_instance_fields objs new_location cells
          (next_pending objs new_location pending c))
        refl e
    where
      front : ℕ → List Cell × ℕ → Option (List Cell × ℕ)
      front m p = some (relocated_cell objs new_location m pending c ∷ p.0, p.1)

      go :
          (f : Option ℕ) (t : Option (List Cell × ℕ))
          → relocate_instance_fields objs new_location cells
              (next_pending objs new_location pending c)
            ≡ t
          → (f >>= λ m. t >>= λ p. front m p) ≡ some (out, last)
          → (m : ℕ) × (rest : List Cell) × (relocate_instance_fields objs new_location cells
                (next_pending objs new_location pending c)
              ≡ some (rest, last))
            × (relocated_cell objs new_location m pending c ∷ rest ≡ out)
      go none t at f = cc
      go (some m) none at f = cc
      go (some m) (some (rest, x)) at f =
          let ends : x ≡ last = ap (λ q. q.1) (some_inj.0 f) in
          (m, rest, at ∙ ap (λ y. some (rest, y)) ends, ap (λ q. q.0) (some_inj.0 f))

  pub relocate_instance_fields-Rising :
      (p : ℕ) (cells : List Cell) (pending : ℕ) (out : List Cell) (last : ℕ)
      → Rising p cells
      → relocate_instance_fields objs new_location cells pending ≡ some (out, last)
      → Rising p out
  unfolding relocate_instance_fields
  relocate_instance_fields-Rising p [] pending out last x e =
      subst (Rising p) (ap (λ q. q.0) (some_inj.0 e)) tt
  relocate_instance_fields-Rising p (c ∷ cells) pending out last (a, x) e =
      let (m, rest, f, same) = uncons c cells pending out last e in
      subst (Rising p) same (
        a,
        relocate_instance_fields-Rising (suc c.address) cells
            (next_pending objs new_location pending c) rest last x f,
      )

  -- The pass puts the references that join in front of the list that it finds.
  pub joined-IsChain :
      (g : Heap) (end : ℕ) (cells : List Cell) (pending : ℕ) (out : List Cell) (last : ℕ)
      (l : List ℕ)
      → AllCells IsSized cells
      → relocate_instance_fields objs new_location cells pending ≡ some (out, last)
      → All (StandsIn g) out
      → IsChain g pending l end
      → IsChain g last (joined cells l) end
  unfolding relocate_instance_fields
  joined-IsChain g end [] pending out last l sized e stand chain =
      subst (λ x. IsChain g x l end) (ap (λ q. q.1) (some_inj.0 e)) chain
  joined-IsChain g end (c ∷ cells) pending out last l (long, sized) e stand chain =
      let (m, rest, f, same) = uncons c cells pending out last e in
      let (here, others) = subst (All (StandsIn g)) (sym same) stand in
      let next = next_pending objs new_location pending c in
      elim (Bool-cases (joins c)) [
        | inl j ↦
            let (discovered, head) =
              joins-next c.address pending c.object.is_reference c.object.fields long j in
            rw j (
              joined-IsChain g end cells next rest last (c.address ∷ l) sized f others (
                head,
                (relocated_cell objs new_location m pending c).object,
                here,
                subst (λ x. IsChain g x l end) (sym discovered) chain,
              ))
        | inr j ↦ rw j (
            joined-IsChain g end cells next rest last l sized f others (
              subst (λ x. IsChain g x l end)
                (sym (stays-next c.address pending c.object.is_reference c.object.fields j)) chain))
      ]

  abbrev times_joined : ℕ → List Cell → ℕ
  times_joined d [] = 0
  times_joined d (c ∷ cells) = (if (c.address == d) && joins c then 1 else 0) + times_joined d cells

  count-joined :
      (d : ℕ) (cells : List Cell) (l : List ℕ)
      → count d (joined cells l) ≡ times_joined d cells + count d l
  count-joined d [] l = omega arith
  count-joined d (c ∷ cells) l = elim (Bool-cases (joins c)) [
    | inl j ↦ rw j (ground (arith, count-joined d cells (c.address ∷ l)))
    | inr j ↦ rw j (ground (arith, count-joined d cells l))
  ]

  none_below : (p d : ℕ) (cells : List Cell) → Rising p cells → d < p → times_joined d cells ≡ 0
  none_below p d [] x lt = refl
  none_below p d (c ∷ cells) (a, x) lt =
      let other : (c.address == d) ≡ false = ground arith in
      rw other (omega (arith, none_below (suc c.address) d cells x (omega arith)))

  -- In the list stand the addresses of the cells that join, and no other.
  pub joined-joins :
      (p d : ℕ) (cells : List Cell)
      → Rising p cells
      → 0 < count d (joined cells [])
      → (c : Cell) × (find d cells ≡ some c) × (joins c ≡ true)
  joined-joins p d cells x more = go p cells x (omega (arith, count-joined d cells []))
    where
      go :
          (p : ℕ) (cells : List Cell)
          → Rising p cells
          → 0 < times_joined d cells
          → (c : Cell) × (find d cells ≡ some c) × (joins c ≡ true)
      go p [] x more = absurd (omega arith)
      go p (c ∷ cells) (a, x) more = elim (Bool-cases (c.address == d)) [
        | inl q ↦
            let nil = none_below (suc c.address) d cells x (ground arith) in
            elim (Bool-cases (joins c)) [
              | inl j ↦ (c, rw q refl, j)
              | inr j ↦
                  let less : 0 < 0 + times_joined d cells = rw (q, j) at more in
                  absurd (omega arith)
            ]
        | inr q ↦
            let left : 0 < 0 + times_joined d cells = rw q at more in
            let (b, at, j) = go (suc c.address) cells x (omega arith) in
            (b, find_next d c b cells q at, j)
      ]

  pub joins-joined :
      (d : ℕ) (c : Cell) (cells : List Cell)
      → find d cells ≡ some c
      → joins c ≡ true
      → 0 < count d (joined cells [])
  joins-joined d c cells at j = omega (arith, count-joined d cells [], go cells at)
    where
      go : (cells : List Cell) → find d cells ≡ some c → 0 < times_joined d cells
      go [] at = cc
      go (b ∷ cells) at = elim (Bool-cases (b.address == d)) [
        | inl q ↦
            let same : b ≡ c = some_inj.0 (rw q at at) in
            let joins_b : joins b ≡ true = ap joins same ∙ j in rw (q, joins_b) (omega arith)
        | inr q ↦ rw q (omega (arith, go cells (rw q at at)))
      ]
