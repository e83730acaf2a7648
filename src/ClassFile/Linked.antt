-- ===== src/ClassFile/Linked.antt =====
-- vm/classfile.c: an entry of the constant pool in the two passes.
use b_jvm.Common.{
  ℕ, ◌≡◌, refl, Bool, true, false, List, [], ◌∷◌, Option, none, some, Bytes, ◌==◌, if◌then◌else◌,
}
use Prim.Native.String.{String}
use b_jvm.ClassFile.{
  CpKind, CpEntry, kind_of, Result, ok, error, ◌>>=◌, reader_next, reader_get_slice, sign_extend,
}
use b_jvm.ClassFile.Gives.{
  Gives, Gives-bind, Gives-map, Gives-any, IsEntry, checked_cp_entry-is_expected,
}
use b_jvm.ClassFile.Pool.{
  Pass, Read, linked_text, linked_entry, text_entry, ref_entry, number_entry, name_and_type_entry,
  utf8_entry, method_handle_entry, indy_entry, entry_of, parse_constant_pool_entry, is_wide,
}

abbrev pub IsRef : List CpEntry → Option ℕ → List CpKind → Type 0
IsRef pool none kinds = ⊥
IsRef pool (some i) kinds = IsEntry pool i kinds

abbrev pub ref_kinds : List CpKind
ref_kinds = CpKind.field_ref ∷ CpKind.method_ref ∷ CpKind.interface_method_ref ∷ []

-- The references of an entry lead to entries of the kinds that they are used as.
abbrev pub LinksTo : List CpEntry → CpEntry → Type 0
LinksTo pool (CpEntry.field_ref c t d) =
    IsRef pool c (CpKind.class ∷ []) × IsRef pool t (CpKind.name_and_type ∷ [])
LinksTo pool (CpEntry.method_ref c t d) =
    IsRef pool c (CpKind.class ∷ []) × IsRef pool t (CpKind.name_and_type ∷ [])
LinksTo pool (CpEntry.interface_method_ref c t d) =
    IsRef pool c (CpKind.class ∷ []) × IsRef pool t (CpKind.name_and_type ∷ [])
LinksTo pool (CpEntry.method_handle k r) = IsRef pool r ref_kinds
LinksTo pool (CpEntry.dynamic_constant i t d) = IsRef pool t (CpKind.name_and_type ∷ [])
LinksTo pool (CpEntry.invoke_dynamic i t d) = IsRef pool t (CpKind.name_and_type ∷ [])
LinksTo pool e = Unit {0}

-- The first pass, `m`, reads an entry of the same kind from the same bytes.
abbrev pub Links : List CpEntry → Read → CpEntry × Bytes → Type 0
Links pool m p =
    LinksTo pool p.0
    × ((e : CpEntry) × (m ≡ ok (e, p.1)) × (kind_of e ≡ kind_of p.0) × (is_wide e ≡ is_wide p.0))

pub Gives-self : {A : Type 0} (m : Result A) → Gives (λ a. m ≡ ok a) m
Gives-self (ok a) = Gives.good refl
Gives-self (error e) = Gives.bad

module _ (pool old : List CpEntry) where
  text_entry-Links :
      (make : Bytes → CpEntry) (index reason : String) (reader : Bytes)
      → ((s : Bytes) → LinksTo pool (make s))
      → ((s : Bytes) → kind_of (make []) ≡ kind_of (make s))
      → ((s : Bytes) → is_wide (make []) ≡ is_wide (make s))
      → Gives
          (Links pool (text_entry Pass.read old make index reason reader))
          (text_entry Pass.link pool make index reason reader)
  unfolding text_entry
  text_entry-Links make index reason reader l k w =
      Gives-bind (Gives-self (reader_next 2 reader index)) λ p e.
        Gives-bind (Gives-any (linked_text Pass.link pool p.0 reason))
          λ t u. Gives.good (l t, (make [], rw e refl, k t, w t))

  linked_entry-IsRef :
      (n : ℕ) (c : CpKind) (cs : List CpKind) (reason : String)
      → Gives (λ o. IsRef pool o (c ∷ cs)) (linked_entry Pass.link pool n (c ∷ cs) reason)
  unfolding linked_entry
  linked_entry-IsRef n c cs reason =
      Gives-bind (checked_cp_entry-is_expected pool n c cs reason) λ e h. Gives.good (e, h.0, h.1)

  ref_entry-Links :
      (make : Option ℕ → Option ℕ → CpEntry) (reader : Bytes)
      → ((c t : Option ℕ)
          → IsRef pool c (CpKind.class ∷ [])
          → IsRef pool t (CpKind.name_and_type ∷ [])
          → LinksTo pool (make c t))
      → ((c t : Option ℕ) → kind_of (make none none) ≡ kind_of (make c t))
      → ((c t : Option ℕ) → is_wide (make none none) ≡ is_wide (make c t))
      → Gives
          (Links pool (ref_entry Pass.read old make reader))
          (ref_entry Pass.link pool make reader)
  unfolding ref_entry
  ref_entry-Links make reader l k w =
      Gives-bind (Gives-self (reader_next 2 reader "class index")) λ p e.
        Gives-bind (Gives-self (reader_next 2 p.1 "name and type index")) λ q f.
          Gives-bind (linked_entry-IsRef p.0 CpKind.class [] _) λ c h.
            Gives-bind (linked_entry-IsRef q.0 CpKind.name_and_type [] _)
              λ t i. Gives.good (l c t h i, (make none none, rw (e, ◌>>=◌, f) refl, k c t, w c t))

  number_entry-Links :
      (size : ℕ) (make : ℕ → CpEntry) (reason : String) (reader : Bytes)
      → ((n : ℕ) → LinksTo pool (make n))
      → Gives
          (Links pool (number_entry (reader_next size) make reason reader))
          (number_entry (reader_next size) make reason reader)
  unfolding number_entry
  number_entry-Links size make reason reader l =
      Gives-bind (Gives-self (reader_next size reader reason))
        λ p e. Gives.good (l p.0, (make p.0, rw e refl, refl, refl))

  name_and_type_entry-Links :
      (reader : Bytes)
      → Gives
          (Links pool (name_and_type_entry Pass.read old reader))
          (name_and_type_entry Pass.link pool reader)
  unfolding name_and_type_entry
  name_and_type_entry-Links reader =
      Gives-bind (Gives-self (reader_next 2 reader "name index")) λ p e.
        Gives-bind (Gives-self (reader_next 2 p.1 "descriptor index")) λ q f.
          Gives-bind (Gives-any (linked_text Pass.link pool p.0 _)) λ s u.
            Gives-bind (Gives-any (linked_text Pass.link pool q.0 _)) λ t v.
              Gives.good (tt, (CpEntry.name_and_type [] [], rw (e, ◌>>=◌, f) refl, refl, refl))

  utf8_entry-Links :
      (reader : Bytes)
      → Gives (Links pool (utf8_entry Pass.read reader)) (utf8_entry Pass.link reader)
  unfolding utf8_entry
  utf8_entry-Links reader = Gives-bind (Gives-self (reader_next 2 reader "utf8 length")) λ p e.
      Gives-bind (Gives-self (reader_get_slice p.1 p.0 "utf8 data"))
        λ q f. Gives.good (tt, (CpEntry.utf8 q.0, rw (e, ◌>>=◌, f) refl, refl, refl))

  method_handle_entry-Links :
      (reader : Bytes)
      → Gives
          (Links pool (method_handle_entry Pass.read old reader))
          (method_handle_entry Pass.link pool reader)
  unfolding method_handle_entry
  method_handle_entry-Links reader =
      Gives-bind (Gives-self (reader_next 1 reader "method handle kind")) λ p e.
        Gives-bind (Gives-self (reader_next 2 p.1 "reference index")) λ q f.
          Gives-bind
            (linked_entry-IsRef q.0 CpKind.field_ref
              (CpKind.method_ref ∷ CpKind.interface_method_ref ∷ []) _)
            λ r h.
              Gives.good (h, (CpEntry.method_handle p.0 none, rw (e, ◌>>=◌, f) refl, refl, refl))

  indy_entry-Links :
      (make : ℕ → Option ℕ → CpEntry) (reader : Bytes)
      → ((i : ℕ) (t : Option ℕ)
          → IsRef pool t (CpKind.name_and_type ∷ [])
          → LinksTo pool (make i t))
      → ((i : ℕ) (t : Option ℕ) → kind_of (make i none) ≡ kind_of (make i t))
      → ((i : ℕ) (t : Option ℕ) → is_wide (make i none) ≡ is_wide (make i t))
      → Gives
          (Links pool (indy_entry Pass.read old make reader))
          (indy_entry Pass.link pool make reader)
  unfolding indy_entry
  indy_entry-Links make reader l k w =
      Gives-bind (Gives-self (reader_next 2 reader "bootstrap method attr index")) λ p e.
        Gives-bind (Gives-self (reader_next 2 p.1 "name and type index")) λ q f.
          Gives-bind (linked_entry-IsRef q.0 CpKind.name_and_type [] _)
            λ t i. Gives.good (l p.0 t i, (make p.0 none, rw (e, ◌>>=◌, f) refl, k p.0 t, w p.0 t))

  test :
      (b : Bool) {m n m' n' : Read}
      → Gives (Links pool m) n
      → Gives (Links pool m') n'
      → Gives (Links pool (if b then m else m')) (if b then n else n')
  test true p q = p
  test false p q = q

  entry_of-Links :
      (tag : ℕ) (reader : Bytes)
      → Gives (Links pool (entry_of Pass.read old tag reader)) (entry_of Pass.link pool tag reader)
  unfolding entry_of
  entry_of-Links tag reader = test (tag == 1) (utf8_entry-Links reader) (
      test (tag == 3)
        (number_entry-Links 4 (λ n. CpEntry.integer (sign_extend 32 n)) "integer value" reader
          (λ n. tt))
        (test (tag == 4) (number_entry-Links 4 CpEntry.float "double value" reader (λ n. tt)) (
          test (tag == 5) (number_entry-Links 8 CpEntry.long "long value" reader (λ n. tt)) (
            test (tag == 6) (number_entry-Links 8 CpEntry.double "double value" reader (λ n. tt)) (
              test (tag == 7)
                (text_entry-Links CpEntry.class_info "class index" "class info name" reader
                  (λ s. tt) (λ s. refl) (λ s. refl))
                (test (tag == 8)
                  (text_entry-Links CpEntry.string "string index" "string value" reader (λ s. tt)
                    (λ s. refl) (λ s. refl))
                  (test (tag == 9)
                    (ref_entry-Links (λ c t. CpEntry.field_ref c t none) reader (λ c t h i. (h, i))
                      (λ c t. refl) (λ c t. refl))
                    (test (tag == 10)
                      (ref_entry-Links (λ c t. CpEntry.method_ref c t none) reader
                        (λ c t h i. (h, i)) (λ c t. refl) (λ c t. refl))
                      (test (tag == 11)
                        (ref_entry-Links (λ c t. CpEntry.interface_method_ref c t none) reader
                          (λ c t h i. (h, i)) (λ c t. refl) (λ c t. refl))
                        (test (tag == 12) (name_and_type_entry-Links reader) (
                          test (tag == 15) (method_handle_entry-Links reader) (
                            test (tag == 16)
                              (text_entry-Links (λ s. CpEntry.method_type s none) "descriptor index"
                                "method type descriptor" reader (λ s. tt) (λ s. refl) (λ s. refl))
                              (test (tag == 17)
                                (indy_entry-Links (λ i t. CpEntry.dynamic_constant i t none) reader
                                  (λ i t h. h) (λ i t. refl) (λ i t. refl))
                                (test (tag == 18)
                                  (indy_entry-Links (λ i t. CpEntry.invoke_dynamic i t none) reader
                                    (λ i t h. h) (λ i t. refl) (λ i t. refl))
                                  (test (tag == 19)
                                    (text_entry-Links CpEntry.module_info "class index"
                                      "class info name" reader (λ s. tt) (λ s. refl) (λ s. refl))
                                    (test (tag == 20)
                                      (text_entry-Links CpEntry.package_info "class index"
                                        "class info name" reader (λ s. tt) (λ s. refl) (λ s. refl))
                                      (Gives.bad)))))))))))))))))

  pub parse_constant_pool_entry-Links :
      (reader : Bytes)
      → Gives
          (Links pool (parse_constant_pool_entry Pass.read old reader))
          (parse_constant_pool_entry Pass.link pool reader)
  unfolding parse_constant_pool_entry
  parse_constant_pool_entry-Links reader =
      Gives-bind (Gives-self (reader_next 1 reader "cp kind"))
        λ p e. Gives-map (entry_of-Links p.0 p.1) (λ q h. rw (e, ◌>>=◌) h)
