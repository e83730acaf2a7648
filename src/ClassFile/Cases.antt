-- ===== src/ClassFile/Cases.antt =====
-- vm/classfile.c: what the reader of an instruction has checked, case by case.
use b_jvm.Common.{
  ℕ, ◌*◌, ◌%◌, ◌^◌, ◌≤◌, ◌≡◌, refl, Bool, true, false, List, [], ◌∷◌, some, Bytes, length,
  get_elem?, ◌==◌, ◌⊎◌, if◌then◌else◌, arith, inl, inr,
}
use Prim.Native.String.{String}
use b_jvm.ClassFile.{CpKind, CpEntry, kind_of, is_expected, sign_extend}
use b_jvm.ClassFile.Insn.{InsnKind, is_branch}
use b_jvm.ClassFile.Parse.{
  Parsed, parse_atype, loaded, parse_ldc, parse_ldc2_w, read_local, parse_wide_iinc, parse_widened,
  parse_iinc, read_branch, read_cp, parse_invokeinterface, parse_invokedynamic,
  parse_multianewarray, parse_newarray, read_immediate, ldc_kinds,
}
use b_jvm.ClassFile.Gives.{
  Gives, Gives-bind, Gives-map, Gives-any, reader_next-Takes, checked_cp_entry-is_expected,
}
use b_jvm.ClassFile.Targets.{checked_pc-lt}
use b_jvm.ClassFile.Checked.{IsChecked, IsRead, allowed}
use b_jvm.ClassFile.Table.{same_kinds-is_expected, same_kinds}

module _ (pool : List CpEntry) (max_pc : ℕ) where
  abbrev pub Reads : Bytes → Parsed → Type 0
  Reads reader m = Gives (λ p. IsRead pool max_pc reader p) m

  test :
      (reader : Bytes) (b : Bool) {x y : Parsed}
      → Reads reader x
      → Reads reader y
      → Reads reader (if b then x else y)
  test reader true p q = p
  test reader false p q = q

  -- What is read behind the first bytes is read behind them all.
  pub later :
      (reader r : Bytes) {m : Parsed} → length r ≤ length reader → Reads r m → Reads reader m
  later reader r h g = Gives-map g (λ p k. (omega arith, k.1))

  pub read_local-IsRead :
      (kind : InsnKind) (reason : String) (size : ℕ) (reader : Bytes)
      → is_branch kind ≡ false
      → Reads reader (read_local kind reason size reader)
  unfolding read_local
  read_local-IsRead kind reason size reader h =
      Gives-bind (reader_next-Takes size reader reason)
        λ p k. Gives.good (omega arith, λ b. cc (h, b))

  pub read_branch-IsRead :
      (kind : InsnKind) (reason : String) (size pc : ℕ) (reader : Bytes)
      → Reads reader (read_branch kind reason size pc max_pc reader)
  unfolding read_branch
  read_branch-IsRead kind reason size pc reader =
      Gives-bind (reader_next-Takes size reader reason) λ p k.
        Gives-bind (checked_pc-lt pc (sign_extend (8 * size) p.0 % 2 ^ 32) max_pc)
          λ t lt. Gives.good (omega arith, λ b. lt)

  pub read_cp-IsRead :
      (kind : InsnKind) (reason reading : String) (c : CpKind) (cs : List CpKind) (reader : Bytes)
      → is_branch kind ≡ false
      → same_kinds (c ∷ cs) (allowed kind) ≡ true
      → Reads reader (read_cp pool kind reason (c ∷ cs) reading reader)
  unfolding read_cp
  read_cp-IsRead kind reason reading c cs reader h same =
      Gives-bind (reader_next-Takes 2 reader reason) λ p k.
        Gives-bind (checked_cp_entry-is_expected pool p.0 c cs reading) λ e x. Gives.good (
          omega arith,
          (h, (e, x.0, same_kinds-is_expected (c ∷ cs) (allowed kind) (kind_of e) same x.1)),
        )

  parse_wide_iinc-IsRead : (reader : Bytes) → Reads reader (parse_wide_iinc reader)
  unfolding parse_wide_iinc
  parse_wide_iinc-IsRead reader = Gives-bind (reader_next-Takes 2 reader "wide iinc index") λ p k.
      Gives-bind (reader_next-Takes 2 p.1 "wide iinc const") λ q m. Gives.good (omega arith, refl)

  pub parse_widened-IsRead : (op : ℕ) (reader : Bytes) → Reads reader (parse_widened op reader)
  unfolding parse_widened
  parse_widened-IsRead op reader =
      let local = λ (kind : InsnKind) (reason : String) (h : is_branch kind ≡ false).
        read_local-IsRead kind reason 2 reader h in
      test reader (op == 0x15) (local InsnKind.iload "wide iload index" refl) (
        test reader (op == 0x16) (local InsnKind.lload "wide lload index" refl) (
          test reader (op == 0x17) (local InsnKind.fload "wide fload index" refl) (
            test reader (op == 0x18) (local InsnKind.dload "wide dload index" refl) (
              test reader (op == 0x19) (local InsnKind.aload "wide aload index" refl) (
                test reader (op == 0x36) (local InsnKind.istore "wide istore index" refl) (
                  test reader (op == 0x37) (local InsnKind.lstore "wide lstore index" refl) (
                    test reader (op == 0x38) (local InsnKind.fstore "wide fstore index" refl) (
                      test reader (op == 0x39) (local InsnKind.dstore "wide dstore index" refl) (
                        test reader (op == 0x3a) (local InsnKind.astore "wide astore index" refl) (
                          test reader (op == 0x84) (parse_wide_iinc-IsRead reader) (
                            test reader (op == 0xa9) (local InsnKind.ret "wide ret index" refl)
                              Gives.bad)))))))))))

  pub parse_iinc-IsRead : (reader : Bytes) → Reads reader (parse_iinc reader)
  unfolding parse_iinc
  parse_iinc-IsRead reader =
      Gives-bind (reader_next-Takes 1 reader "iinc index") λ p k.
        Gives-bind (reader_next-Takes 1 p.1 "iinc const") λ q m. Gives.good (omega arith, refl)

  loaded-IsChecked :
      (n : ℕ) (e : CpEntry)
      → get_elem? pool n ≡ some e
      → (is_expected ldc_kinds (kind_of e) ≡ true)
        ⊎ (is_expected (CpKind.double ∷ CpKind.long ∷ []) (kind_of e) ≡ true)
      → IsChecked pool max_pc (loaded n e).0 (loaded n e).1
  loaded-IsChecked n (CpEntry.integer v) at h = refl
  loaded-IsChecked n (CpEntry.float v) at h = refl
  loaded-IsChecked n (CpEntry.long v) at h = refl
  loaded-IsChecked n (CpEntry.double v) at h = refl
  loaded-IsChecked n (CpEntry.string s) at h = (refl, (CpEntry.string s, at, refl))
  loaded-IsChecked n (CpEntry.class_info s) at h = (refl, (CpEntry.class_info s, at, refl))
  loaded-IsChecked n CpEntry.invalid at h = elim h [ inl e ↦ cc | inr e ↦ cc ]
  loaded-IsChecked n (CpEntry.utf8 s) at h = elim h [ inl e ↦ cc | inr e ↦ cc ]
  loaded-IsChecked n (CpEntry.module_info s) at h = elim h [ inl e ↦ cc | inr e ↦ cc ]
  loaded-IsChecked n (CpEntry.package_info s) at h = elim h [ inl e ↦ cc | inr e ↦ cc ]
  loaded-IsChecked n (CpEntry.field_ref c t d) at h = elim h [ inl e ↦ cc | inr e ↦ cc ]
  loaded-IsChecked n (CpEntry.method_ref c t d) at h = elim h [ inl e ↦ cc | inr e ↦ cc ]
  loaded-IsChecked n (CpEntry.interface_method_ref c t d) at h = elim h [ inl e ↦ cc | inr e ↦ cc ]
  loaded-IsChecked n (CpEntry.name_and_type s d) at h = elim h [ inl e ↦ cc | inr e ↦ cc ]
  loaded-IsChecked n (CpEntry.method_handle k r) at h = elim h [ inl e ↦ cc | inr e ↦ cc ]
  loaded-IsChecked n (CpEntry.method_type s d) at h = elim h [ inl e ↦ cc | inr e ↦ cc ]
  loaded-IsChecked n (CpEntry.dynamic_constant i t d) at h = elim h [ inl e ↦ cc | inr e ↦ cc ]
  loaded-IsChecked n (CpEntry.invoke_dynamic i t d) at h = elim h [ inl e ↦ cc | inr e ↦ cc ]

  pub parse_ldc-IsRead : (n : ℕ) (reader : Bytes) → Reads reader (parse_ldc pool n reader)
  unfolding parse_ldc
  parse_ldc-IsRead n reader =
      Gives-bind
        (checked_cp_entry-is_expected pool n CpKind.integer
          (CpKind.float ∷ CpKind.string ∷ CpKind.class ∷ []) "ldc/ldc_w index")
        λ e x. Gives.good (omega arith, loaded-IsChecked n e x.0 (inl x.1))

  pub parse_ldc2_w-IsRead : (n : ℕ) (reader : Bytes) → Reads reader (parse_ldc2_w pool n reader)
  unfolding parse_ldc2_w
  parse_ldc2_w-IsRead n reader =
      Gives-bind
        (checked_cp_entry-is_expected pool n CpKind.double (CpKind.long ∷ []) "ldc2_w index")
        λ e x. Gives.good (omega arith, loaded-IsChecked n e x.0 (inr x.1))

  pub parse_invokeinterface-IsRead :
      (reader : Bytes) → Reads reader (parse_invokeinterface pool reader)
  unfolding parse_invokeinterface
  parse_invokeinterface-IsRead reader =
      Gives-bind
        (read_cp-IsRead InsnKind.invokeinterface "invokeinterface index"
          "invokeinterface method ref" CpKind.interface_method_ref [] reader refl refl)
        λ p k. Gives-bind (reader_next-Takes 1 p.2 "invokeinterface count") λ q m.
          Gives-bind (reader_next-Takes 1 q.1 "invokeinterface zero")
            λ r n. Gives.good (omega arith, k.1)

  pub parse_invokedynamic-IsRead : (reader : Bytes) → Reads reader (parse_invokedynamic pool reader)
  unfolding parse_invokedynamic
  parse_invokedynamic-IsRead reader =
      Gives-bind
        (read_cp-IsRead InsnKind.invokedynamic "invokedynamic index" "indy method ref"
          CpKind.invoke_dynamic [] reader refl refl)
        λ p k.
          Gives-bind (reader_next-Takes 2 p.2 "invokedynamic zero")
            λ q m. Gives.good (omega arith, k.1)

  pub parse_multianewarray-IsRead :
      (reader : Bytes) → Reads reader (parse_multianewarray pool reader)
  unfolding parse_multianewarray
  parse_multianewarray-IsRead reader =
      Gives-bind (reader_next-Takes 2 reader "multianewarray index") λ p k.
        Gives-bind (reader_next-Takes 1 p.1 "multianewarray dimensions") λ q m.
          Gives-bind (checked_cp_entry-is_expected pool p.0 CpKind.class [] "multianewarray class")
            λ e x. Gives.good (omega arith, (refl, (e, x.0, x.1)))

  pub parse_newarray-IsRead : (reader : Bytes) → Reads reader (parse_newarray reader)
  unfolding parse_newarray
  parse_newarray-IsRead reader =
      Gives-bind (reader_next-Takes 1 reader "newarray type")
        λ p k. Gives-bind (Gives-any (parse_atype p.0)) λ t m. Gives.good (omega arith, refl)

  pub read_immediate-IsRead :
      (size : ℕ) (reason : String) (reader : Bytes)
      → Reads reader (read_immediate size reason reader)
  unfolding read_immediate
  read_immediate-IsRead size reason reader =
      Gives-bind (reader_next-Takes size reader reason) λ p k. Gives.good (omega arith, refl)
