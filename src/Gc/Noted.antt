-- ===== src/Gc/Noted.antt =====
-- vm/gc.c: no address stands twice in `objs`.
use b_jvm.Common.{
  ℕ, ◌+◌, ◌-◌, ◌%◌, ◌≤◌, ◌<◌, ◌≡◌, ◌≢◌, refl, sym, ap, subst, ◌∙◌, List, [], ◌∷◌, some, ◌==◌,
  if◌then◌else◌, arith, Bool-cases, inl, inr, map, ◌⊎◌,
}
use b_jvm.Gc.{Object, Heap, Entry, noted}
use b_jvm.Gc.Mark.{object_of, count}
use b_jvm.Gc.Live.{times, IsNoted}
use b_jvm.Gc.Search.{key}
use b_jvm.Gc.Relocate.{entry_of}

-- Objects and monitors stand at even addresses, and no two objects share a monitor.
pub record IsApart (h : Heap) : Type 0 where
  pub even : (a : ℕ) (o : Object) → object_of a h ≡ some o → (a % 2 ≡ 0) × (o.monitor % 2 ≡ 0)
  pub own :
      (a b : ℕ) (o p : Object)
      → object_of a h ≡ some o
      → object_of b h ≡ some p
      → o.monitor ≡ p.monitor
      → o.monitor ≢ 0
      → a ≡ b

-- How often a monitor stands in `objs`.
abbrev pub monitors : ℕ → List Entry → ℕ
monitors m [] = 0
monitors m (Entry.object b ∷ l) = monitors m l
monitors m (Entry.monitor k ∷ l) = (if k == m then 1 else 0) + monitors m l

-- What stands at an address of `objs` belongs to an object.
abbrev pub Stands : Heap → Entry → Type 0
Stands h (Entry.object a) = (o : Object) × (object_of a h ≡ some o)
Stands h (Entry.monitor m) =
    (b : ℕ) × (o : Object) × (object_of b h ≡ some o) × (o.monitor ≡ m) × (m ≢ 0)

monitors-noted :
    (a m : ℕ) (o : Object) (l : List Entry)
    → m ≢ 0
    → monitors m (noted a o l) ≡ (if o.monitor == m then 1 else 0) + monitors m l
monitors-noted a m o l ne = elim (Bool-cases (o.monitor == 0)) [
  | inl p ↦ rw p (ground arith)
  | inr p ↦ rw p refl
]

times-of_noted :
    (a b : ℕ) (o : Object) (l : List Entry)
    → times b (noted a o l) ≡ (if a == b then 1 else 0) + times b l
times-of_noted a b o l = elim (Bool-cases (o.monitor == 0)) [ inl p ↦ rw p | inr p ↦ rw p ]

module _ (h : Heap) (apart : IsApart h) where
  -- A monitor stands there at most as often as the object that it belongs to.
  monitors-le :
      (m : ℕ) (l : List Entry)
      → m ≢ 0
      → IsNoted h l
      → (monitors m l ≡ 0)
        ⊎ ((b : ℕ) × (o : Object) × (object_of b h ≡ some o)
            × (o.monitor ≡ m)
            × (monitors m l ≤ times b l))
  monitors-le m l ne (IsNoted.nothing e) = inl (ap (monitors m) e)
  monitors-le m l ne (IsNoted.more {l = l'} a o at rest e) =
      let this : monitors m l ≡ (if o.monitor == m then 1 else 0) + monitors m l' =
        ap (monitors m) e ∙ monitors-noted a m o l' ne in
      let that : (b : ℕ) → times b l ≡ (if a == b then 1 else 0) + times b l' =
        λ b. ap (times b) e ∙ times-of_noted a b o l' in
      elim (Bool-cases (o.monitor == m)) [
        | inl p ↦ elim (monitors-le m l' ne rest) [
          | inl z ↦ inr (a, o, at, ground arith, ground (arith, that a))
          | inr (b, q, here, belongs, le) ↦
              let same : a ≡ b =
                apart.own a b o q at here (ground arith) (λ z. ne (ground arith)) in
              inr (b, q, here, belongs, ground (arith, that b))
        ]
        | inr p ↦ elim (monitors-le m l' ne rest) [
          | inl z ↦ inl (ground arith)
          | inr (b, q, here, belongs, le) ↦ inr (b, q, here, belongs, ground (arith, that b))
        ]
      ]

  -- The keys of objects are even, those of monitors odd.
  pub count-key :
      (x : ℕ) (l : List Entry)
      → IsNoted h l
      → count x (map key l) ≡ (if x % 2 == 0 then times x l else monitors (x - 1) l)
  count-key x l (IsNoted.nothing e) =
      subst (λ l. count x (map key l) ≡ (if x % 2 == 0 then times x l else monitors (x - 1) l))
        (sym e) (ground arith)
  count-key x l (IsNoted.more {l = l'} a o at rest e) =
      let (even_a, even_m) = apart.even a o at in
      let ih = count-key x l' rest in
      subst (λ l. count x (map key l) ≡ (if x % 2 == 0 then times x l else monitors (x - 1) l))
        (sym e)
        (elim (Bool-cases (o.monitor == 0)) [
          | inl p ↦ rw p (ground arith)
          | inr p ↦ rw p (ground arith)
        ])

  no_monitor : (l : List Entry) → IsNoted h l → monitors 0 l ≡ 0
  no_monitor l (IsNoted.nothing e) = ap (monitors 0) e
  no_monitor l (IsNoted.more {l = l'} a o at rest e) =
      ap (monitors 0) e ∙ elim (Bool-cases (o.monitor == 0)) [
        | inl p ↦ rw p (no_monitor l' rest)
        | inr p ↦ rw p (ground (arith, no_monitor l' rest))
      ]

  object_noted :
      (b : ℕ) (l : List Entry)
      → IsNoted h l
      → 0 < times b l
      → (o : Object) × (object_of b h ≡ some o)
  object_noted b l (IsNoted.nothing e) more = absurd (omega (arith, ap (times b) e))
  object_noted b l (IsNoted.more {l = l'} a o at rest e) more =
      let that = ap (times b) e ∙ times-of_noted a b o l' in
      elim (Bool-cases (a == b)) [
        | inl p ↦
            let same : a ≡ b = ground arith in (o, subst (λ c. object_of c h ≡ some o) same at)
        | inr p ↦ object_noted b l' rest (ground arith)
      ]

  -- Where each object is noted once, no address stands twice in the array.
  pub count-key-le :
      (l : List Entry) → IsNoted h l → ((a : ℕ) → times a l ≤ 1) → (x : ℕ) → count x (map key l) ≤ 1
  count-key-le l listed once x =
      let c = count-key x l listed in
      elim (Bool-cases (x % 2 == 0)) [
        | inl p ↦ ground (arith, once x)
        | inr p ↦ elim (Bool-cases (x - 1 == 0)) [
          | inl z ↦
              let zero_address : x - 1 ≡ 0 = ground arith in
              ground (arith, ap (λ m. monitors m l) zero_address, no_monitor l listed)
          | inr z ↦ elim (monitors-le (x - 1) l (ground arith) listed) [
            | inl none ↦ ground arith
            | inr (b, o, here, belongs, le) ↦ ground (arith, once b)
          ]
        ]
      ]

  pub noted-Stands :
      (x : ℕ) (l : List Entry) → IsNoted h l → 0 < count x (map key l) → Stands h (entry_of x)
  noted-Stands x l listed more =
      let c = count-key x l listed in
      elim (Bool-cases (x % 2 == 1)) [
        | inl p ↦ rw p (
            let there : 0 < monitors (x - 1) l = ground arith in
            let ne : x - 1 ≢ 0 =
              λ z. absurd (omega (arith, ap (λ m. monitors m l) z, no_monitor l listed)) in
            elim (monitors-le (x - 1) l ne listed) [
              | inl nil ↦ absurd (omega arith)
              | inr (b, o, here, belongs, le) ↦ (b, o, here, belongs, ne)
            ])
        | inr p ↦ rw p (object_noted x l listed (ground arith))
      ]
