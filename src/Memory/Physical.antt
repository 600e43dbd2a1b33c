-- ===== src/Memory/Physical.antt =====
-- core/Memory.cpp: `read32Physical`, which the page walk uses, and `setSATP`, whose log reads the
-- first words of the new root table.
use riscv_sym.Base.{
  ℕ, ◌+◌, bit_and, bit_or, ◌==◌, ltb, leb, if◌then◌else◌, false, none, some, ◌<<<◌, u32, not, ◌&&◌,
}
use riscv_sym.State.{Memory}
use riscv_sym.Memory.Pages.{get_memory_ptr, load_byte}
use riscv_sym.Memory.Mmio.{handle_mmio_read}

-- `b0 | (b1 << 8) | (b2 << 16) | (b3 << 24)`.
unfoldable pub join_bytes : ℕ → ℕ → ℕ → ℕ → ℕ
join_bytes b0 b1 b2 b3 = bit_or (bit_or (bit_or b0 (b1 <<< 8)) (b2 <<< 16)) (b3 <<< 24)

-- The byte at a physical address, 0 where no page is.
unfoldable pub ram_byte : ℕ → Memory → ℕ
unfolding get_memory_ptr load_byte
ram_byte paddr m = elim ((get_memory_ptr paddr false m).0) [
  | some ptr ↦ load_byte ptr 0 m
  | none ↦ 0
]

unfoldable pub ram_read32 : ℕ → Memory → ℕ
unfolding get_memory_ptr load_byte
ram_read32 paddr m =
    if leb (bit_and paddr 0xfff + 4) 4096
    then elim ((get_memory_ptr paddr false m).0) [
      | some ptr ↦
          join_bytes (load_byte ptr 0 m) (load_byte ptr 1 m) (load_byte ptr 2 m) (load_byte ptr 3 m)
      | none ↦ 0
    ]
    else join_bytes (ram_byte paddr m) (ram_byte (u32 (paddr + 1)) m) (ram_byte (u32 (paddr + 2)) m)
        (ram_byte (u32 (paddr + 3)) m)

unfoldable pub read32_physical : ℕ → Memory → ℕ × Memory
read32_physical paddr m =
    let (found, m') = handle_mmio_read paddr m in
    elim found [ some v ↦ (v, m') | none ↦ (ram_read32 paddr m', m') ]

-- The reads of the log are made for the first 64 changes; a device at the root's address sees them.
unfoldable pub log_satp : ℕ → Memory → Memory
log_satp satp m =
    let new_root = u32 (bit_and satp 0x3f_ffff <<< 12) in
    let m1 = (read32_physical new_root m).1 in
    let m2 = (read32_physical (u32 (new_root + 4)) m1).1 in
    let m3 = (read32_physical (u32 (new_root + 8)) m2).1 in
    record m3 { satp_log_count = m3.satp_log_count + 1 }

-- The table of watched roots, which nothing reads, is left out.
unfoldable pub set_satp : ℕ → Memory → Memory
set_satp satp m =
    let m' =
      if not (m.current_satp == satp) && ltb m.satp_log_count 64 then log_satp satp m else m in
    record m' { current_satp = satp }
