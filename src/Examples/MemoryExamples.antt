-- ===== src/Examples/MemoryExamples.antt =====
-- Examples for the memory, its devices and the translation.
use riscv_sym.Base.{
  false, ◌≢◌, ℕ, ◌+◌, zero, suc, List, ◌≤◌, ◌%◌, ◌^◌, ◌≡◌, ◌==◌, if◌then◌else◌, ◌⊎◌, arith, refl,
  bit_and, some, none, [], ◌∷◌,
}
use riscv_sym.State.{Machine, Memory, Page, supervisor, machine, ok, raise, page_fault, load, store}
use riscv_sym.Csr
use riscv_sym.Memory.Pages
use riscv_sym.Memory.Mmio
use riscv_sym.Memory.Physical
use riscv_sym.Memory.Physical.{ram_byte}
use riscv_sym.Memory.Translate
use riscv_sym.Memory.Translate.{translate_address, effective_mode}
use riscv_sym.Memory.Access.{ram_write}
use riscv_sym.Memory.Ram.{ram_byte-ram_write}
use riscv_sym.Memory.Word.{IsRam}
use riscv_sym.Memory.Crossing.{WordInRam, Stores, read32-write32_ram}
use riscv_sym.Memory.Block.{clocks, clocks-block}
use riscv_sym.Memory.Sv32.Fault.{translate_address-raise}
use riscv_sym.Memory.Sv32.{Found, entry1, translate_address-ok}
use riscv_sym.Examples.Machines.{start, empty_memory}

ram_byte-ram_write_example :
    ram_byte 0x8000_0001 (ram_write 0x8000_0000 (1 ∷ 2 ∷ 3 ∷ []) empty_memory) ≡ 2
ram_byte-ram_write_example =
    ram_byte-ram_write 0x8000_0001 0x8000_0000 (1 ∷ 2 ∷ 3 ∷ []) empty_memory (omega arith)

above-IsRam : (a : ℕ) → 0x8000_0000 ≤ a → IsRam a
above-IsRam a h = ground arith

across : WordInRam 0x8000_0ffe
across = record { fits = omega arith; ram = λ k lt. above-IsRam (0x8000_0ffe + k) (omega arith) }

-- A word across the end of a page.
read32-write32_ram_example : (mem : Memory) × Stores 0x8000_0ffe 0x1234_5678 start mem
read32-write32_ram_example =
    read32-write32_ram 0x8000_0ffe 0x1234_5678 start (refl, refl) across (omega arith)

clocks-block_example :
    ((clocks 1 empty_memory).spi_read_buffer ≡ 0)
    × ((clocks 2 empty_memory).spi_read_buffer ≡ 0xfe)
    × ((clocks 4 empty_memory).spi_read_buffer ≡ 8)
    × ((clocks 4 empty_memory).disk ≡ 7 ∷ 8 ∷ 9 ∷ [])
    × ((clocks 4 empty_memory).undefined_read ≡ false)
clocks-block_example = clocks-block empty_memory 1 refl refl (omega arith) (omega arith)

-- A root table at 0x80000000, whose entry 0 is a page of 4 MB at 0x80400000.
abbrev root : Page
root k = if k == 0 then 0xcf else if k == 2 then 0x10 else if k == 3 then 0x20 else 0

abbrev paged : Machine
paged = record start {
  privilege_mode = supervisor;
  mem = record empty_memory {
    current_satp = 0x8008_0000;
    pages = λ i. if i == 0x80000 then some root else none;
  };
}

translated : translate_address 0x1234 load paged ≡ ok 0x8040_1234 paged
unfolding translate_address Translate.effective_mode Translate.walk Translate.leaf1
    Translate.bad_encoding Translate.not_permitted Translate.wrong_privilege Translate.not_accessed
    Translate.pte_ppn Physical.read32_physical Physical.ram_read32 Physical.join_bytes
    Mmio.handle_mmio_read Pages.get_memory_ptr Pages.load_byte Csr.read
translated = refl

faulted : translate_address 0x40_0000 store paged ≡ raise (page_fault 0x40_0000 store) paged
unfolding translate_address Translate.effective_mode Translate.walk Physical.read32_physical
    Physical.ram_read32 Physical.join_bytes Mmio.handle_mmio_read Pages.get_memory_ptr
    Pages.load_byte Csr.read
faulted = refl

-- A store behind the only entry of the root table.
translate_address-raise_example :
    let mode = Translate.effective_mode store paged in
    let r = entry1 0x40_0000 store mode paged.mem in
    (page_fault 0x40_0000 store ≡ page_fault 0x40_0000 store)
    × (mode ≢ machine)
    × (bit_and paged.mem.current_satp 0x8000_0000 ≢ 0)
    × ((p : ℕ) → ¬ Found 0x40_0000 store mode (record paged { mem = r.1 }) r.0 p)
translate_address-raise_example =
    translate_address-raise 0x40_0000 store paged (page_fault 0x40_0000 store) paged faulted

abbrev target : ℕ
target = 0x8040_1234

abbrev address : ℕ
address = 0x1234

translate_address-ok_example :
    let mode = effective_mode load paged in
    let r = entry1 address load mode paged.mem in
    ((target ≡ address) × ((mode ≡ machine) ⊎ (bit_and 0x8008_0000 0x8000_0000 ≡ 0)))
    ⊎ (Found address load mode (record paged { mem = r.1 }) r.0 target
        × (target % 2 ^ 12 ≡ address % 2 ^ 12))
translate_address-ok_example = translate_address-ok address load paged target paged translated

repeat : ℕ → ℕ → List ℕ
repeat zero v = []
repeat (suc n) v = v ∷ repeat n v

-- An idle card of two blocks, whose second one is written.
abbrev card : Memory
card = record empty_memory { spi_state = 0; disk = repeat 1024 7 }
