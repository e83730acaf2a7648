-- ===== src/Layout/Reorder.antt =====
-- vm/linkage.c: the buckets of `reorder_fields_for_compactness`.
use mathlib.Core.List.{Perm, perm_middle}
use mathlib.Core.List.Perm
use b_jvm.Common.{
  ℕ, ◌≡◌, refl, sym, Bool, true, false, List, [], ◌∷◌, ◌++◌, append_assoc, ◌==◌, All, arith, ◌⊎◌,
  inl, inr,
}
use b_jvm.Descriptor.{TypeKind}
use b_jvm.Layout.{Field, sizeof_type_kind, bucket, reorder_fields_for_compactness}

abbrev pub is_void : TypeKind → Bool
is_void TypeKind.void = true
is_void _ = false

bucket_hit :
    (size : ℕ) (f : ℕ × Field) (fs : List (ℕ × Field))
    → sizeof_type_kind f.1.kind ≡ size
    → bucket size (f ∷ fs) ≡ f ∷ bucket size fs
unfolding bucket
bucket_hit size f fs h =
    let same : (sizeof_type_kind f.1.kind == size) ≡ true = ground (arith, h) in rw same refl

bucket_miss :
    (size n : ℕ) (f : ℕ × Field) (fs : List (ℕ × Field))
    → sizeof_type_kind f.1.kind ≡ n
    → (n == size) ≡ false
    → bucket size (f ∷ fs) ≡ bucket size fs
unfolding bucket
bucket_miss size n f fs h other = rw (h, other) refl

sizes :
    (k : TypeKind)
    → is_void k ≡ false
    → (sizeof_type_kind k ≡ 8)
      ⊎ ((sizeof_type_kind k ≡ 4) ⊎ ((sizeof_type_kind k ≡ 2) ⊎ (sizeof_type_kind k ≡ 1)))
sizes TypeKind.boolean h = inr (inr (inr refl))
sizes TypeKind.byte h = inr (inr (inr refl))
sizes TypeKind.char h = inr (inr (inl refl))
sizes TypeKind.short h = inr (inr (inl refl))
sizes TypeKind.float h = inr (inl refl)
sizes TypeKind.int h = inr (inl refl)
sizes TypeKind.double h = inl refl
sizes TypeKind.long h = inl refl
sizes TypeKind.reference h = inl refl
sizes TypeKind.void h = cc

middle :
    (a b : List (ℕ × Field)) (f : ℕ × Field) (r : List (ℕ × Field))
    → Perm (a ++ (b ++ f ∷ r)) (f ∷ (a ++ (b ++ r)))
middle a b f r =
    rw (sym (append_assoc a b (f ∷ r)), sym (append_assoc a b r)) (perm_middle (a ++ b) r)

middle_twice :
    (a b c : List (ℕ × Field)) (f : ℕ × Field) (r : List (ℕ × Field))
    → Perm (a ++ (b ++ (c ++ f ∷ r))) (f ∷ (a ++ (b ++ (c ++ r))))
middle_twice a b c f r =
    rw (sym (append_assoc b c (f ∷ r)), sym (append_assoc b c r)) (middle a (b ++ c) f r)

-- Of fields that are not void, the reordering keeps every one exactly once.
pub reorder_fields_for_compactness-Perm :
    (fs : List (ℕ × Field))
    → All (λ (f : ℕ × Field). is_void f.1.kind ≡ false) fs
    → Perm (reorder_fields_for_compactness fs) fs
unfolding reorder_fields_for_compactness
reorder_fields_for_compactness-Perm [] h = Perm.refl []
reorder_fields_for_compactness-Perm (f ∷ fs) h =
    let rest = reorder_fields_for_compactness-Perm fs h.1 in
    elim (sizes f.1.kind h.0) [
      | inl s8 ↦
          rw
            (
              bucket_hit 8 f fs s8,
              bucket_miss 4 8 f fs s8 refl,
              bucket_miss 2 8 f fs s8 refl,
              bucket_miss 1 8 f fs s8 refl,
            )
            (Perm.cons f rest)
      | inr (inl s4) ↦
          rw
            (
              bucket_miss 8 4 f fs s4 refl,
              bucket_hit 4 f fs s4,
              bucket_miss 2 4 f fs s4 refl,
              bucket_miss 1 4 f fs s4 refl,
            )
            (Perm.trans (perm_middle (bucket 8 fs) _) (Perm.cons f rest))
      | inr (inr (inl s2)) ↦
          rw
            (
              bucket_miss 8 2 f fs s2 refl,
              bucket_miss 4 2 f fs s2 refl,
              bucket_hit 2 f fs s2,
              bucket_miss 1 2 f fs s2 refl,
            )
            (Perm.trans (middle (bucket 8 fs) (bucket 4 fs) f _) (Perm.cons f rest))
      | inr (inr (inr s1)) ↦
          rw
            (
              bucket_miss 8 1 f fs s1 refl,
              bucket_miss 4 1 f fs s1 refl,
              bucket_miss 2 1 f fs s1 refl,
              bucket_hit 1 f fs s1,
            )
            (Perm.trans (middle_twice (bucket 8 fs) (bucket 4 fs) (bucket 2 fs) f (bucket 1 fs))
              (Perm.cons f rest))
    ]
