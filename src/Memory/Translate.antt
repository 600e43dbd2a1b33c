-- ===== src/Memory/Translate.antt =====
-- core/Memory.cpp: `translateAddress`, the Sv32 walk. Every refusal is the same
-- `PageFaultException(vaddr, type)`; the trace log of the refusals is left out.
use riscv_sym.Base.{
  ℕ, ◌+◌, ◌^◌, ◌*◌, bit_and, bit_or, ◌==◌, if◌then◌else◌, Bool, true, false, ◌>>>◌, u32, ne_zero,
  not, ◌&&◌, ◌||◌,
}
use riscv_sym.State.{
  Machine, PrivilegeMode, user, supervisor, machine, to_mode, AccessType, instruction_fetch, load,
  store, Memory, M, ok, page_fault, pure, throw, ◌>>=◌, ◌>>◌, when, gets,
}
use riscv_sym.Csr.Address
use riscv_sym.Cpu.{csr_read}
use riscv_sym.Memory.Physical.{read32_physical}

-- A memory operation as a command.
abbrev pub on_memory : {A : Type 0} → (Memory → A × Memory) → M A
on_memory f m = let (a, mem') = f m.mem in ok a (record m { mem = mem' })

abbrev pub modify_memory : (Memory → Memory) → M (Unit {0})
modify_memory f m = ok tt (record m { mem = f m.mem })

-- `(pte & mask) != 0`.
abbrev pub has : ℕ → ℕ → Bool
has pte mask = ne_zero (bit_and pte mask)

abbrev pub is_fetch : AccessType → Bool
is_fetch instruction_fetch = true
is_fetch _ = false

abbrev pub is_store : AccessType → Bool
is_store store = true
is_store _ = false

abbrev pub is_user : PrivilegeMode → Bool
is_user user = true
is_user _ = false

abbrev pub is_supervisor : PrivilegeMode → Bool
is_supervisor supervisor = true
is_supervisor _ = false

abbrev pub is_machine : PrivilegeMode → Bool
is_machine machine = true
is_machine _ = false

-- The mode that an access is checked for: with MPRV, machine mode loads and stores as MPP.
unfoldable pub effective_mode : AccessType → Machine → PrivilegeMode
effective_mode type m =
    let mode = m.privilege_mode in
    if is_machine mode && not (is_fetch type)
    then (let mstatus = csr_read m Address.mstatus in
        if ne_zero (bit_and mstatus (2 ^ 17)) then to_mode (bit_and (mstatus >>> 11) 3) else mode)
    else mode

-- `(!r && !x) || (w && !r)`.
unfoldable pub bad_encoding : ℕ → Bool
bad_encoding pte = (not (has pte 2) && not (has pte 8)) || (has pte 4 && not (has pte 2))

-- The `switch` on the access type.
unfoldable pub not_permitted : ℕ → AccessType → Bool
not_permitted pte instruction_fetch = not (has pte 8)
not_permitted pte load = not (has pte 2)
not_permitted pte store = not (has pte 4)

-- The U bit: user mode needs it; supervisor mode may load and store behind it with SUM, and never
-- fetch.
unfoldable pub wrong_privilege : ℕ → AccessType → PrivilegeMode → ℕ → Bool
wrong_privilege pte type mode sstatus =
    (is_user mode && not (has pte 0x10))
    || (is_supervisor mode && has pte 0x10 && (is_fetch type || (bit_and sstatus (2 ^ 18) == 0)))

-- The A bit, and the D bit for a store.
unfoldable pub not_accessed : ℕ → AccessType → Bool
not_accessed pte type = not (has pte 0x40) || (is_store type && not (has pte 0x80))

-- `(pte >> 10) & 0x3FFFFF`.
unfoldable pub pte_ppn : ℕ → ℕ
pte_ppn pte = bit_and (pte >>> 10) 0x3f_ffff

module _ (vaddr : ℕ) (type : AccessType) (mode : PrivilegeMode) where
  fault_if : Bool → M (Unit {0})
  fault_if b = when b (throw (page_fault vaddr type))

  -- The first level holds a page of 4 MB.
  unfoldable pub leaf1 : ℕ → M ℕ
  unfolding fault_if
  leaf1 pte1 = do
    fault_if (bad_encoding pte1)
    fault_if (not (bit_and (pte_ppn pte1) 0x3ff == 0))
    fault_if (not_permitted pte1 type)
    sstatus ← gets (λ m. csr_read m Address.sstatus)
    fault_if (wrong_privilege pte1 type mode sstatus)
    fault_if (not_accessed pte1 type)
    pure (bit_or (pte_ppn pte1) (bit_and (vaddr >>> 12) 0x3ff))

  -- The second level, from the table that the first names.
  unfoldable pub leaf0 : ℕ → M ℕ
  unfolding fault_if
  leaf0 pte1 = do
    pte0 ←
        on_memory
          (read32_physical (u32 (u32 (pte_ppn pte1 * 4096) + bit_and (vaddr >>> 12) 0x3ff * 4)))
    fault_if (bit_and pte0 1 == 0)
    fault_if (bad_encoding pte0)
    fault_if (not_permitted pte0 type)
    sstatus ← gets (λ m. csr_read m Address.sstatus)
    fault_if (wrong_privilege pte0 type mode sstatus)
    fault_if (not_accessed pte0 type)
    pure (pte_ppn pte0)

  unfoldable pub walk : M ℕ
  unfolding fault_if
  walk = do
    satp ← gets (λ m. m.mem.current_satp)
    let root_table_addr = u32 (bit_and satp 0x3f_ffff * 4096)
    pte1 ← on_memory (read32_physical (u32 (root_table_addr + bit_and (vaddr >>> 22) 0x3ff * 4)))
    fault_if (bit_and pte1 1 == 0)
    final_ppn ← (if has pte1 2 || has pte1 8 then leaf1 pte1 else leaf0 pte1)
    pure (u32 (u32 (final_ppn * 4096) + bit_and vaddr 0xfff))

unfoldable pub translate_address : ℕ → AccessType → M ℕ
translate_address vaddr type m =
    let mode = effective_mode type m in
    if is_machine mode
    then pure vaddr m
    else if bit_and m.mem.current_satp 0x8000_0000 == 0
    then pure vaddr m
    else walk vaddr type mode m
