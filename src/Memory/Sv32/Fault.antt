-- ===== src/Memory/Sv32/Fault.antt =====
-- core/Memory.cpp: when `translateAddress` faults, by the rules of Sv32.
use riscv_sym.Base.{ℕ, ◌≡◌, ◌≢◌, false, arith, ◌∙◌, sym, bit_and, inl, inr}
use riscv_sym.Base.Bits.Table.{ne_zero-bit_and}
use riscv_sym.State.{Machine, PrivilegeMode, machine, AccessType, raise, page_fault, Exception}
use riscv_sym.Memory.Translate.{
  bad_encoding, not_permitted, wrong_privilege, not_accessed, translate_address, effective_mode,
}
use riscv_sym.Memory.Sv32.{
  Allows, refused, seen, leaf1-cases, leaf0-cases, entry0, entry1, check1, walk-check1, Found,
  translate_address-cases,
}

Allows-refused :
    (pte : ℕ) (type : AccessType) (mode : PrivilegeMode) (sstatus : ℕ)
    → Allows pte type mode sstatus
    → refused pte type mode sstatus ≡ false
unfolding bad_encoding not_permitted wrong_privilege not_accessed
Allows-refused pte type mode sstatus a = ground (
  arith,
  a.permitted,
  a.encoding,
  a.of_user,
  a.of_supervisor,
  a.accessed,
  a.dirty,
  ne_zero-bit_and pte 1,
  ne_zero-bit_and pte 2,
  ne_zero-bit_and pte 3,
  ne_zero-bit_and pte 4,
  ne_zero-bit_and sstatus 18,
  ne_zero-bit_and pte 6,
  ne_zero-bit_and pte 7,
)

module _ (vaddr : ℕ) (type : AccessType) (mode : PrivilegeMode) where
  check1-fault :
      (pte1 : ℕ) (m : Machine) (x : Exception) (m' : Machine)
      → check1 vaddr type mode pte1 m ≡ raise x m'
      → x ≡ page_fault vaddr type
  check1-fault pte1 m x m' e =
      ground (arith, leaf1-cases vaddr type mode pte1 m, leaf0-cases vaddr type mode pte1 m)

  -- A leaf that allows the access is not refused.
  Found-raise :
      (pte1 : ℕ) (m : Machine) (p : ℕ) (x : Exception) (m' : Machine)
      → Found vaddr type mode m pte1 p
      → ¬ (check1 vaddr type mode pte1 m ≡ raise x m')
  Found-raise pte1 m p x m' f e = elim f.leaf [
    | inl (b, (align, (allows, q))) ↦ ground (
      arith,
      leaf1-cases vaddr type mode pte1 m,
      Allows-refused pte1 type mode (seen m) allows,
      f.valid,
    )
    | inr (b, (v0, (allows, q))) ↦ ground (
      arith,
      leaf0-cases vaddr type mode pte1 m,
      Allows-refused (entry0 vaddr type mode pte1 m.mem).0 type mode (seen m) allows,
      f.valid,
    )
  ]

-- Neither machine mode nor a machine without paging faults.
translate_address-paged :
    (vaddr : ℕ) (type : AccessType) (m : Machine) (x : Exception) (m' : Machine)
    → translate_address vaddr type m ≡ raise x m'
    → (effective_mode type m ≢ machine) × (bit_and m.mem.current_satp 0x8000_0000 ≢ 0)
unfolding translate_address
translate_address-paged vaddr type m x m' h = (λ e. ground arith, λ e. ground arith)

-- A translation that faults does so outside machine mode, with paging on and with no leaf entry of
-- Sv32 that allows the access, aligned if it is of the first level; it raises the page fault of
-- its address and access.
pub translate_address-raise :
    (vaddr : ℕ) (type : AccessType) (m : Machine) (x : Exception) (m' : Machine)
    → translate_address vaddr type m ≡ raise x m'
    → let mode = effective_mode type m in
      let r = entry1 vaddr type mode m.mem in
      (x ≡ page_fault vaddr type)
      × (mode ≢ machine)
      × (bit_and m.mem.current_satp 0x8000_0000 ≢ 0)
      × ((p : ℕ) → ¬ Found vaddr type mode (record m { mem = r.1 }) r.0 p)
translate_address-raise vaddr type m x m' h = elim (translate_address-cases vaddr type m) [
  | inl (e, why) ↦ absurd (ground (arith, sym e ∙ h))
  | inr e ↦
      let mode = effective_mode type m in
      let r = entry1 vaddr type mode m.mem in
      let m1 : Machine = record m { mem = r.1 } in
      let faulted = sym (e ∙ walk-check1 vaddr type mode m) ∙ h in
      let (below, paging) = translate_address-paged vaddr type m x m' h in
      (
        check1-fault vaddr type mode r.0 m1 x m' faulted,
        below,
        paging,
        λ p f. Found-raise vaddr type mode r.0 m1 p x m' f faulted,
      )
]
