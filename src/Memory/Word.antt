-- ===== src/Memory/Word.antt =====
-- core/Memory.cpp: `write32` and `read32` of the same word.
use riscv_sym.Base.{
  ℕ, ◌+◌, ◌-◌, ◌*◌, ◌/◌, ◌%◌, ◌^◌, ◌≤◌, ◌<◌, ◌≡◌, ◌≢◌, leb, true, false, Option, none, some, ◌⊎◌,
  List, [], ◌∷◌, arith, refl, ap, ◌∙◌, sym, bit_and, bit_or, ◌>>>◌,
}
use riscv_sym.Base.Lists.{get_or}
use riscv_sym.Base.Bits.Field.{bit_and_low, bit_or_sum, bit_or_comm}
use riscv_sym.Csr
use riscv_sym.Csr.Address
use riscv_sym.State.{AccessType, store, load, Memory, Machine, Page, ok, machine}
use riscv_sym.Memory.Pages.{load_byte}
use riscv_sym.Memory.Physical.{ram_byte, ram_read32, join_bytes, read32_physical}
use riscv_sym.Memory.Access.{ram_write, byte_of, write32, read32, physical_write}
use riscv_sym.Memory.Translate.{translate_address, effective_mode}
use riscv_sym.Memory.Mmio.{handle_mmio, handle_mmio_read}
use riscv_sym.Memory.Ram.{
  page_or, ram_byte-page_or, ram_byte-ram_write, get_memory_ptr-none, get_memory_ptr-some,
  page_or-none, page_or-some,
}

abbrev pub bytes_of : ℕ → List ℕ
bytes_of v = byte_of v 0 ∷ byte_of v 1 ∷ byte_of v 2 ∷ byte_of v 3 ∷ []

join_bytes-sum :
    (a b c d : ℕ)
    → a < 2 ^ 8
    → b < 2 ^ 8
    → c < 2 ^ 8
    → join_bytes a b c d ≡ a + b * 2 ^ 8 + c * 2 ^ 16 + d * 2 ^ 24
unfolding join_bytes
join_bytes-sum a b c d ha hb hc = omega (
  arith,
  bit_or_comm a (b * 2 ^ 8),
  bit_or_sum 8 (b * 2 ^ 8) a (omega arith) ha,
  bit_or_comm (bit_or a (b * 2 ^ 8)) (c * 2 ^ 16),
  bit_or_sum 16 (c * 2 ^ 16) (bit_or a (b * 2 ^ 8)) (omega arith),
  bit_or_comm (bit_or (bit_or a (b * 2 ^ 8)) (c * 2 ^ 16)) (d * 2 ^ 24),
  bit_or_sum 24 (d * 2 ^ 24) (bit_or (bit_or a (b * 2 ^ 8)) (c * 2 ^ 16)) (omega arith),
)

-- The bytes of a word, joined, are the word.
pub join_bytes-byte_of :
    (v : ℕ) → v < 2 ^ 32 → join_bytes (byte_of v 0) (byte_of v 1) (byte_of v 2) (byte_of v 3) ≡ v
join_bytes-byte_of v h =
    rw
      (
        bit_and_low 8 (v >>> (8 * 0)),
        bit_and_low 8 (v >>> (8 * 1)),
        bit_and_low 8 (v >>> (8 * 2)),
        bit_and_low 8 (v >>> (8 * 3)),
      )
      (join_bytes-sum _ _ _ _ (omega arith) (omega arith) (omega arith) ∙ omega arith)

in_page : (a : ℕ) → a % 2 ^ 12 + 4 ≤ 2 ^ 12 → leb (bit_and a 0xfff + 4) 4096 ≡ true
in_page a h = ground (arith, bit_and_low 12 a)

abbrev joined : Page → ℕ → ℕ
joined p o = join_bytes (p (o + 0)) (p (o + 1)) (p (o + 2)) (p (o + 3))

ram_read32-page_or :
    (a : ℕ) (m : Memory)
    → a % 2 ^ 12 + 4 ≤ 2 ^ 12
    → ram_read32 a m ≡ joined (page_or m (a / 2 ^ 12)) (bit_and a 0xfff)
unfolding ram_read32
ram_read32-page_or a m h = go (m.pages (a / 2 ^ 12)) refl
  where
    go :
        (o : Option Page)
        → m.pages (a / 2 ^ 12) ≡ o
        → ram_read32 a m ≡ joined (page_or m (a / 2 ^ 12)) (bit_and a 0xfff)
    go none e =
        unfold join_bytes in
        rw (in_page a h, ram_read32, get_memory_ptr-none a false m e, page_or-none m (a / 2 ^ 12) e)
          refl
    go (some p) e =
        unfold load_byte in
        rw
          (
            in_page a h,
            ram_read32,
            get_memory_ptr-some a false m p e,
            load_byte,
            e,
            page_or-some m (a / 2 ^ 12) p e,
          )
          refl

ram_byte-offset :
    (a k : ℕ) (m : Memory)
    → a % 2 ^ 12 + k < 2 ^ 12
    → page_or m (a / 2 ^ 12) (bit_and a 0xfff + k) ≡ ram_byte (a + k) m
ram_byte-offset a k m h =
    let page : (a + k) / 2 ^ 12 ≡ a / 2 ^ 12 = omega arith in
    let offset : bit_and (a + k) 0xfff + 0 ≡ bit_and a 0xfff + k =
      omega (arith, bit_and_low 12 a, bit_and_low 12 (a + k)) in
    sym (ram_byte-page_or (a + k) m ∙ rw (page, offset) refl)

pub minus_self : (a k : ℕ) → a + k - a ≡ k
minus_self a k = omega arith

-- A word stored in RAM within a page is loaded back.
pub ram_read32-ram_write :
    (a v : ℕ) (m : Memory)
    → a % 2 ^ 12 + 4 ≤ 2 ^ 12
    → v < 2 ^ 32
    → ram_read32 a (ram_write a (bytes_of v) m) ≡ v
ram_read32-ram_write a v m h hv =
    let m' : Memory = ram_write a (bytes_of v) m in
    let byte : (k : ℕ)
        → k < 4
        → page_or m' (a / 2 ^ 12) (bit_and a 0xfff + k) ≡ get_or (bytes_of v) k 0 =
      λ k lt.
        ram_byte-offset a k m' (omega arith)
        ∙ ram_byte-ram_write (a + k) a (bytes_of v) m h
        ∙ rw (minus_self a k) (ground arith) in
    ram_read32-page_or a m' h
    ∙ rw (byte 0 (omega arith), byte 1 (omega arith), byte 2 (omega arith), byte 3 (omega arith))
        (join_bytes-byte_of v hv)

-- The devices behind physical addresses.
abbrev pub IsRam : ℕ → Type 0
IsRam a =
    ((a < 0x0200_4000) ⊎ (0x0200_bffc < a))
    × (a ≢ 0x0c20_1004)
    × ((a < 0x1000_0000) ⊎ (0x1000_1004 < a))

pub handle_mmio-IsRam : (a v : ℕ) (m : Memory) → IsRam a → handle_mmio a v m ≡ (false, m)
unfolding handle_mmio
handle_mmio-IsRam a v m h = ground arith

pub handle_mmio_read-IsRam : (a : ℕ) (m : Memory) → IsRam a → handle_mmio_read a m ≡ (none, m)
unfolding handle_mmio_read
handle_mmio_read-IsRam a m h = ground arith

pub translate-machine :
    (a : ℕ) (type : AccessType) (m : Machine)
    → m.privilege_mode ≡ machine
    → bit_and (m.csrs Address.mstatus) (2 ^ 17) ≡ 0
    → translate_address a type m ≡ ok a m
unfolding translate_address effective_mode Csr.read
translate-machine a type m mode mprv = ground (arith, mode, mprv)

pub write32-ram :
    (a v : ℕ) (m : Machine)
    → m.privilege_mode ≡ machine
    → bit_and (m.csrs Address.mstatus) (2 ^ 17) ≡ 0
    → IsRam a
    → a % 2 ^ 12 + 4 ≤ 2 ^ 12
    → write32 a v m ≡ ok tt (record m { mem = ram_write a (bytes_of v) m.mem })
unfolding write32 physical_write
write32-ram a v m mode mprv ram h =
    rw
      (in_page a h, write32, translate-machine a store m mode mprv, handle_mmio-IsRam a v m.mem ram)
      refl

read32_physical-IsRam : (a : ℕ) (m : Memory) → IsRam a → read32_physical a m ≡ (ram_read32 a m, m)
unfolding read32_physical
read32_physical-IsRam a m h =
    rw (handle_mmio_read-IsRam a m h, read32_physical, handle_mmio_read-IsRam a m h) refl

pub read32-ram :
    (a : ℕ) (m : Machine)
    → m.privilege_mode ≡ machine
    → bit_and (m.csrs Address.mstatus) (2 ^ 17) ≡ 0
    → IsRam a
    → a % 2 ^ 12 + 4 ≤ 2 ^ 12
    → read32 a false m ≡ ok (ram_read32 a m.mem) m
unfolding read32
read32-ram a m mode mprv ram h =
    rw (in_page a h, read32, translate-machine a load m mode mprv)
      (ap (λ (x : ℕ × Memory). ok x.0 (record m { mem = x.1 })) (read32_physical-IsRam a m.mem ram))

-- In machine mode with MPRV clear, a word stored within a page where no device is does not fault,
-- changes the memory alone, and is what a load of that address then gives.
pub read32-write32 :
    (a v : ℕ) (m : Machine)
    → m.privilege_mode ≡ machine
    → bit_and (m.csrs Address.mstatus) (2 ^ 17) ≡ 0
    → IsRam a
    → a % 2 ^ 12 + 4 ≤ 2 ^ 12
    → v < 2 ^ 32
    → let m' = record m { mem = ram_write a (bytes_of v) m.mem } in
      (write32 a v m ≡ ok tt m') × (read32 a false m' ≡ ok v m')
read32-write32 a v m mode mprv ram h hv =
    let m' : Machine = record m { mem = ram_write a (bytes_of v) m.mem } in
    (
      write32-ram a v m mode mprv ram h,
      read32-ram a m' mode mprv ram h
          ∙ ap (λ (x : ℕ). ok x m') (ram_read32-ram_write a v m.mem h hv),
    )
