-- ===== src/Memory/Access.antt =====
-- core/Memory.cpp: the sized loads and stores, and `reset`. A word or halfword that crosses a page
-- goes byte by byte.
use riscv_sym.Base.{
  ℕ, ◌+◌, ◌*◌, bit_and, bit_or, leb, if◌then◌else◌, Bool, true, false, none, some, ◌>>>◌, ◌<<<◌,
  List, [], ◌∷◌, u8, u16, u32,
}
use riscv_sym.State.{instruction_fetch, load, store, Memory, M, pure, ◌>>=◌, ◌>>◌}
use riscv_sym.Memory.Pages.{Ptr, get_memory_ptr, load_byte, store_byte}
use riscv_sym.Memory.Mmio.{handle_mmio, handle_mmio_read}
use riscv_sym.Memory.Physical.{read32_physical, join_bytes}
use riscv_sym.Memory.Translate.{translate_address, on_memory, modify_memory}

-- Stores `bytes` from `ptr[k]` on.
unfoldable pub store_bytes : Ptr → ℕ → List ℕ → Memory → Memory
store_bytes ptr k [] m = m
store_bytes ptr k (b ∷ bs) m = store_bytes ptr (k + 1) bs (store_byte ptr k b m)

-- The page is made if it is missing.
unfoldable pub ram_write : ℕ → List ℕ → Memory → Memory
unfolding store_bytes
ram_write paddr bytes m =
    let (found, m') = get_memory_ptr paddr true m in
    elim found [ some ptr ↦ store_bytes ptr 0 bytes m' | none ↦ m' ]

-- A store at a physical address: to a device with the whole value, or to RAM.
unfoldable pub physical_write : ℕ → ℕ → List ℕ → Memory → Memory
physical_write paddr value bytes m =
    let (handled, m') = handle_mmio paddr value m in
    if handled then m' else ram_write paddr bytes m'

unfoldable pub write8 : ℕ → ℕ → M (Unit {0})
write8 address value = do
  paddr ← translate_address address store
  modify_memory (physical_write paddr value (value ∷ []))

unfoldable pub read8_physical : ℕ → Memory → ℕ × Memory
read8_physical paddr m =
    let (found, m') = handle_mmio_read paddr m in
    elim found [
      | some v ↦ (u8 v, m')
      | none ↦ (
        elim ((get_memory_ptr paddr false m').0) [ some ptr ↦ load_byte ptr 0 m' | none ↦ 0 ],
        m',
      )
    ]

unfoldable pub read8 : ℕ → M ℕ
read8 address = do paddr ← translate_address address load; on_memory (read8_physical paddr)

-- `(value >> (8 * k)) & 0xFF`.
abbrev pub byte_of : ℕ → ℕ → ℕ
byte_of value k = bit_and (value >>> (8 * k)) 0xff

unfoldable pub write32 : ℕ → ℕ → M (Unit {0})
write32 address value =
    if leb (bit_and address 0xfff + 4) 4096
    then (do
      paddr ← translate_address address store
      modify_memory (
          physical_write paddr value
            (byte_of value 0 ∷ byte_of value 1 ∷ byte_of value 2 ∷ byte_of value 3 ∷ [])))
    else (do
      write8 address (byte_of value 0)
      write8 (u32 (address + 1)) (byte_of value 1)
      write8 (u32 (address + 2)) (byte_of value 2)
      write8 (u32 (address + 3)) (byte_of value 3))

unfoldable pub read32 : ℕ → Bool → M ℕ
read32 address is_instruction =
    if leb (bit_and address 0xfff + 4) 4096
    then (do
      paddr ← translate_address address (if is_instruction then instruction_fetch else load)
      on_memory (read32_physical paddr))
    else (do
      b0 ← read8 address
      b1 ← read8 (u32 (address + 1))
      b2 ← read8 (u32 (address + 2))
      b3 ← read8 (u32 (address + 3))
      pure (join_bytes b0 b1 b2 b3))

unfoldable pub write16 : ℕ → ℕ → M (Unit {0})
write16 address value =
    if leb (bit_and address 0xfff + 2) 4096
    then (do
      paddr ← translate_address address store
      modify_memory (physical_write paddr value (byte_of value 0 ∷ byte_of value 1 ∷ [])))
    else (do write8 address (byte_of value 0); write8 (u32 (address + 1)) (byte_of value 1))

unfoldable pub read16_physical : ℕ → Memory → ℕ × Memory
read16_physical paddr m =
    let (found, m') = handle_mmio_read paddr m in
    elim found [
      | some v ↦ (u16 v, m')
      | none ↦ (
        elim ((get_memory_ptr paddr false m').0) [
          | some ptr ↦ bit_or (load_byte ptr 0 m') (load_byte ptr 1 m' <<< 8)
          | none ↦ 0
        ],
        m',
      )
    ]

unfoldable pub read16 : ℕ → M ℕ
read16 address =
    if leb (bit_and address 0xfff + 2) 4096
    then (do paddr ← translate_address address load; on_memory (read16_physical paddr))
    else (do b0 ← read8 address; b1 ← read8 (u32 (address + 1)); pure (bit_or b0 (b1 <<< 8)))

unfoldable pub reset : Memory → Memory
reset m = record m { pages = λ _. none; current_satp = 0 }
