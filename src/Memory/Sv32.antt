-- ===== src/Memory/Sv32.antt =====
-- core/Memory.cpp: `translateAddress` against the rules of Sv32.
pub mod Fault
use riscv_sym.Base.{
  ℕ, ◌+◌, ◌*◌, ◌%◌, ◌^◌, ◌≡◌, ◌≢◌, ◌==◌, if◌then◌else◌, Bool, true, false, ◌||◌, not, arith, refl,
  ◌∙◌, sym, bit_and, bit_or, u32, ◌>>>◌, ◌⊎◌, inl, inr,
}
use riscv_sym.Base.Bits.{bit}
use riscv_sym.Base.Bits.Laws.{bit_cases}
use riscv_sym.Base.Bits.Field.{bit_and_low}
use riscv_sym.Base.Bits.Table.{ne_zero-bit_and}
use riscv_sym.Csr
use riscv_sym.Csr.Address
use riscv_sym.Cpu.{csr_read}
use riscv_sym.State.{
  M, when, throw, gets, pure, ◌>>=◌, ◌>>◌, Memory, Machine, PrivilegeMode, user, supervisor,
  machine, AccessType, instruction_fetch, load, store, ok, raise, page_fault, Exception,
}
use riscv_sym.Memory.Physical.{read32_physical}
use riscv_sym.Memory.Translate.{
  bad_encoding, not_permitted, wrong_privilege, not_accessed, pte_ppn, leaf1, leaf0, walk,
  translate_address, effective_mode, has,
}

-- The bit that permits an access.
abbrev pub permission : AccessType → ℕ
permission load = 1
permission store = 2
permission instruction_fetch = 3

-- A leaf entry allows an access: its permission is set, a writable page is readable, the page is the
-- mode's, it is marked as accessed, and as dirty for a store.
pub record Allows (pte : ℕ) (type : AccessType) (mode : PrivilegeMode) (sstatus : ℕ) : Type 0 where
  pub permitted : bit pte (permission type) ≡ 1
  pub encoding : bit pte 2 ≡ 1 → bit pte 1 ≡ 1
  pub of_user : mode ≡ user → bit pte 4 ≡ 1
  pub of_supervisor :
      mode ≡ supervisor → bit pte 4 ≡ 1 → (type ≢ instruction_fetch) × (bit sstatus 18 ≡ 1)
  pub accessed : bit pte 6 ≡ 1
  pub dirty : type ≡ store → bit pte 7 ≡ 1

abbrev pub refused : ℕ → AccessType → PrivilegeMode → ℕ → Bool
refused pte type mode sstatus =
    bad_encoding pte
    || (not_permitted pte type || (wrong_privilege pte type mode sstatus || not_accessed pte type))

has-bit : (pte k : ℕ) → has pte (1 * 2 ^ k) ≡ (bit pte k == 1)
has-bit pte k = ne_zero-bit_and pte k

refused-Allows :
    (pte : ℕ) (type : AccessType) (mode : PrivilegeMode) (sstatus : ℕ)
    → refused pte type mode sstatus ≡ false
    → Allows pte type mode sstatus
unfolding bad_encoding not_permitted wrong_privilege not_accessed
refused-Allows pte type mode sstatus h = record {
  permitted = ground (arith, ne_zero-bit_and pte 1, ne_zero-bit_and pte 2, ne_zero-bit_and pte 3);
  encoding = ground (arith, ne_zero-bit_and pte 1, ne_zero-bit_and pte 2, ne_zero-bit_and pte 3);
  of_user = ground (arith, ne_zero-bit_and pte 4);
  of_supervisor =
      ground (arith, ne_zero-bit_and pte 4, ne_zero-bit_and sstatus 18, bit_cases sstatus 18);
  accessed = ground (arith, ne_zero-bit_and pte 6);
  dirty = ground (arith, ne_zero-bit_and pte 7);
}

-- What a read of `sstatus` gives.
abbrev pub seen : Machine → ℕ
seen m = bit_and (m.csrs Address.mstatus) Address.sstatus_mask

module _ (vaddr : ℕ) (type : AccessType) (mode : PrivilegeMode) where
  pub leaf1-cases :
      (pte : ℕ) (m : Machine)
      → leaf1 vaddr type mode pte m ≡ (
          if not (bit_and (pte_ppn pte) 0x3ff == 0) || refused pte type mode (seen m)
          then raise (page_fault vaddr type) m
          else ok (bit_or (pte_ppn pte) (bit_and (vaddr >>> 12) 0x3ff)) m)
  unfolding leaf1 Csr.read
  leaf1-cases pte m = ground arith

  -- What `leaf0` does with its entry.
  abbrev check0 : ℕ → M ℕ
  check0 pte0 = do
    when (bit_and pte0 1 == 0) (throw (page_fault vaddr type))
    when (bad_encoding pte0) (throw (page_fault vaddr type))
    when (not_permitted pte0 type) (throw (page_fault vaddr type))
    sstatus ← gets (λ m. csr_read m Address.sstatus)
    when (wrong_privilege pte0 type mode sstatus) (throw (page_fault vaddr type))
    when (not_accessed pte0 type) (throw (page_fault vaddr type))
    pure (pte_ppn pte0)

  check0-cases :
      (pte0 : ℕ) (m : Machine)
      → check0 pte0 m ≡ (
          if (bit_and pte0 1 == 0) || refused pte0 type mode (seen m)
          then raise (page_fault vaddr type) m
          else ok (pte_ppn pte0) m)
  unfolding Csr.read
  check0-cases pte0 m = ground arith

  -- The entry that the second level is read from, behind the entry of the first.
  abbrev pub entry0 : ℕ → Memory → ℕ × Memory
  entry0 pte1 mem =
      read32_physical (u32 (u32 (pte_ppn pte1 * 4096) + bit_and (vaddr >>> 12) 0x3ff * 4)) mem

  abbrev pub entry1 : Memory → ℕ × Memory
  entry1 mem =
      read32_physical
        (u32 (u32 (bit_and mem.current_satp 0x3f_ffff * 4096) + bit_and (vaddr >>> 22) 0x3ff * 4))
        mem

  pub leaf0-cases :
      (pte1 : ℕ) (m : Machine)
      → leaf0 vaddr type mode pte1 m ≡ (
          let r = entry0 pte1 m.mem in
          if (bit_and r.0 1 == 0) || refused r.0 type mode (seen m)
          then raise (page_fault vaddr type) (record m { mem = r.1 })
          else ok (pte_ppn r.0) (record m { mem = r.1 }))
  unfolding leaf0
  leaf0-cases pte1 m = check0-cases (entry0 pte1 m.mem).0 (record m { mem = (entry0 pte1 m.mem).1 })

  -- What `walk` does with the entry of the first level.
  abbrev pub check1 : ℕ → M ℕ
  check1 pte1 = do
    when (bit_and pte1 1 == 0) (throw (page_fault vaddr type))
    final_ppn ←
        (if has pte1 2 || has pte1 8
          then leaf1 vaddr type mode pte1
          else leaf0 vaddr type mode pte1)
    pure (u32 (u32 (final_ppn * 4096) + bit_and vaddr 0xfff))

  pub walk-check1 :
      (m : Machine)
      → walk vaddr type mode m ≡ check1 (entry1 m.mem).0 (record m { mem = (entry1 m.mem).1 })
  unfolding walk
  walk-check1 m = refl

  -- The address that a leaf gives: a page of 4 MB from the first level, or one of 4 KB.
  abbrev pub megapage : ℕ → ℕ
  megapage pte1 =
      u32 (u32 (bit_or (pte_ppn pte1) (bit_and (vaddr >>> 12) 0x3ff) * 4096) + bit_and vaddr 0xfff)

  abbrev pub page : ℕ → ℕ
  page pte0 = u32 (u32 (pte_ppn pte0 * 4096) + bit_and vaddr 0xfff)

  -- A walk that ends found a leaf that allows the access: one of the first level, aligned, or one of
  -- the second. `pte1` is the entry of the first level.
  pub record Found (m : Machine) (pte1 : ℕ) (p : ℕ) : Type 0 where
    pub valid : bit_and pte1 1 ≡ 1
    pub leaf :
        (((has pte1 2 || has pte1 8) ≡ true)
          × ((bit_and (pte_ppn pte1) 0x3ff ≡ 0)
              × (Allows pte1 type mode (seen m) × (p ≡ megapage pte1))))
        ⊎ (((has pte1 2 || has pte1 8) ≡ false)
            × (let pte0 = (entry0 pte1 m.mem).0 in
                (bit_and pte0 1 ≡ 1) × (Allows pte0 type mode (seen m) × (p ≡ page pte0))))

  check1-ok :
      (pte1 : ℕ) (m : Machine) (p : ℕ) (m' : Machine)
      → check1 pte1 m ≡ ok p m'
      → (bit_and pte1 1 ≡ 1)
        × ((((has pte1 2 || has pte1 8) ≡ true)
              × ((bit_and (pte_ppn pte1) 0x3ff ≡ 0)
                  × ((refused pte1 type mode (seen m) ≡ false) × (p ≡ megapage pte1))))
            ⊎ (((has pte1 2 || has pte1 8) ≡ false)
                × ((bit_and (entry0 pte1 m.mem).0 1 ≡ 1)
                    × ((refused (entry0 pte1 m.mem).0 type mode (seen m) ≡ false)
                        × (p ≡ page (entry0 pte1 m.mem).0)))))
  check1-ok pte1 m p m' e = ground (
    arith,
    leaf1-cases pte1 m,
    leaf0-cases pte1 m,
    bit_and_low 1 pte1,
    bit_and_low 1 (entry0 pte1 m.mem).0,
  )

  check1-Found :
      (pte1 : ℕ) (m : Machine) (p : ℕ) (m' : Machine) → check1 pte1 m ≡ ok p m' → Found m pte1 p
  check1-Found pte1 m p m' e =
      let (v, leaf) = check1-ok pte1 m p m' e in
      record {
        valid = v;
        leaf = elim leaf [
          | inl (b, (align, (r, q))) ↦ inl (b, (align, (refused-Allows _ type mode _ r, q)))
          | inr (b, (v0, (r, q))) ↦ inr (b, (v0, (refused-Allows _ type mode _ r, q)))
        ];
      }

Found-offset :
    (vaddr : ℕ) (type : AccessType) (mode : PrivilegeMode) (m : Machine) (pte1 p : ℕ)
    → Found vaddr type mode m pte1 p
    → p % 2 ^ 12 ≡ vaddr % 2 ^ 12
Found-offset vaddr type mode m pte1 p f = elim f.leaf [
  | inl (b, (align, (allows, q))) ↦ omega (arith, q, bit_and_low 12 vaddr)
  | inr (b, (v0, (allows, q))) ↦ omega (arith, q, bit_and_low 12 vaddr)
]

-- The three ways of a translation.
pub translate_address-cases :
    (vaddr : ℕ) (type : AccessType) (m : Machine)
    → let mode = effective_mode type m in
      ((translate_address vaddr type m ≡ ok vaddr m)
        × ((mode ≡ machine) ⊎ (bit_and m.mem.current_satp 0x8000_0000 ≡ 0)))
      ⊎ (translate_address vaddr type m ≡ walk vaddr type mode m)
unfolding translate_address
translate_address-cases vaddr type m = ground arith

-- A translation that ends leaves the address alone, in machine mode or without paging, or it found
-- a leaf entry of Sv32 that allows the access (permission, encoding, U with SUM, A and D), aligned
-- if it is of the first level, and keeps the offset in the page.
pub translate_address-ok :
    (vaddr : ℕ) (type : AccessType) (m : Machine) (p : ℕ) (m' : Machine)
    → translate_address vaddr type m ≡ ok p m'
    → let mode = effective_mode type m in
      let r = entry1 vaddr type mode m.mem in
      ((p ≡ vaddr) × ((mode ≡ machine) ⊎ (bit_and m.mem.current_satp 0x8000_0000 ≡ 0)))
      ⊎ (Found vaddr type mode (record m { mem = r.1 }) r.0 p × (p % 2 ^ 12 ≡ vaddr % 2 ^ 12))
translate_address-ok vaddr type m p m' h = elim (translate_address-cases vaddr type m) [
  | inl (e, why) ↦ inl (ground (arith, sym e ∙ h), why)
  | inr e ↦
      let mode = effective_mode type m in
      let r = entry1 vaddr type mode m.mem in
      let m1 : Machine = record m { mem = r.1 } in
      let f =
        check1-Found vaddr type mode r.0 m1 p m' (sym (e ∙ walk-check1 vaddr type mode m) ∙ h) in
      inr (f, Found-offset vaddr type mode m1 r.0 p f)
]
