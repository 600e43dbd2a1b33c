-- ===== src/Range/Ram.antt =====
-- core/Memory.cpp: reads and writes at physical addresses keep the memory in range, and give values
-- of the width that they have.
use riscv_sym.Base.{
  ℕ, ◌+◌, ◌*◌, ◌/◌, ◌^◌, ◌<◌, arith, bit_and, bit_or, Option, none, some, List, [], ◌∷◌, Bool, true,
  false, u8, u16, leb, ltb, ◌==◌, if◌then◌else◌, not, ◌&&◌, ◌<<<◌, ◌≡◌, refl,
}
use riscv_sym.Base.Lists.{All}
use riscv_sym.Base.Bits.Laws.{bit_or-lt}
use riscv_sym.State.{Memory, Page, update}
use riscv_sym.Memory.Pages.{Ptr, get_memory_ptr, load_byte, store_byte}
use riscv_sym.Memory.Physical.{
  join_bytes, ram_byte, ram_read32, read32_physical, log_satp, set_satp,
}
use riscv_sym.Memory.Mmio.{handle_mmio, handle_mmio_read}
use riscv_sym.Memory.Access.{
  store_bytes, ram_write, physical_write, read8_physical, read16_physical,
}
use riscv_sym.Range.Defs.{MemoryInRange, either}
use riscv_sym.Range.Members.{clock-InRange}
use riscv_sym.Range.Devices.{Found, device_read-InRange, device_write-InRange}

pub join_bytes-lt :
    (b0 b1 b2 b3 : ℕ)
    → b0 < 2 ^ 8
    → b1 < 2 ^ 8
    → b2 < 2 ^ 8
    → b3 < 2 ^ 8
    → join_bytes b0 b1 b2 b3 < 2 ^ 32
unfolding join_bytes
join_bytes-lt b0 b1 b2 b3 h0 h1 h2 h3 =
    bit_or-lt 32 _ (b3 * 2 ^ 24)
      (bit_or-lt 32 _ (b2 * 2 ^ 16) (bit_or-lt 32 b0 (b1 * 2 ^ 8) (omega arith) (omega arith))
        (omega arith))
      (omega arith)

pub join_halves-lt : (b0 b1 : ℕ) → b0 < 2 ^ 8 → b1 < 2 ^ 8 → bit_or b0 (b1 <<< 8) < 2 ^ 16
join_halves-lt b0 b1 h0 h1 = bit_or-lt 16 b0 (b1 * 2 ^ 8) (omega arith) (omega arith)

module _ (m : Memory) (h : MemoryInRange m) where
  -- The pages anew.
  pages-InRange :
      (pages : ℕ → Option Page)
      → ((ptr : Ptr) (k : ℕ) → load_byte ptr k (record m { pages = pages }) < 2 ^ 8)
      → MemoryInRange (record m { pages = pages })
  pages-InRange pages hp = record {
    ram = hp;
    disk = h.disk;
    mtime = h.mtime;
    mtimecmp = h.mtimecmp;
    satp = h.satp;
    spi_cmd = h.spi_cmd;
    spi_arg = h.spi_arg;
    spi_buffer = h.spi_buffer;
    spi_crc = h.spi_crc;
    card = h.card;
    uart_char = h.uart_char;
    uart_regs = h.uart_regs;
    stdin = h.stdin;
  }

  stored-lt :
      (p : ℕ) (page : Page) (ptr : Ptr) (k : ℕ)
      → ((j : ℕ) → page j < 2 ^ 8)
      → load_byte ptr k (record m { pages = update m.pages p (some page) }) < 2 ^ 8
  unfolding load_byte
  stored-lt p page ptr k hp = ground (arith, h.ram ptr k, hp (ptr.offset + k))

  new_page-InRange :
      (p : ℕ) (page : Page)
      → ((j : ℕ) → page j < 2 ^ 8)
      → MemoryInRange (record m { pages = update m.pages p (some page) })
  new_page-InRange p page hp =
      pages-InRange (update m.pages p (some page)) (λ ptr k. stored-lt p page ptr k hp)

  page-lt : (p : ℕ) (page : Page) → m.pages p ≡ some page → (j : ℕ) → page j < 2 ^ 8
  unfolding load_byte
  page-lt p page e j = ground (arith, h.ram (record { page = p; offset = 0 }) j)

  pub found_ptr-InRange :
      (address : ℕ) (allocate : Bool) → MemoryInRange (get_memory_ptr address allocate m).1
  unfolding get_memory_ptr
  found_ptr-InRange address allocate = go (m.pages (address / 2 ^ 12)) allocate
    where
      ptr : Ptr
      ptr = record { page = address / 2 ^ 12; offset = bit_and address 0xfff }

      go :
          (found : Option Page) (allocate : Bool)
          → let r : Option Ptr × Memory = elim found [
            | some p ↦ (some ptr, m)
            | none ↦
                if allocate
                then (
                  some ptr,
                  record m { pages = update m.pages (address / 2 ^ 12) (some (λ _. 0)) },
                )
                else (none, m)
          ] in
            MemoryInRange r.1
      go (some p) allocate = h
      go none true = new_page-InRange (address / 2 ^ 12) (λ _. 0) (λ j. omega arith)
      go none false = h

  pub store_byte-InRange : (ptr : Ptr) (k v : ℕ) → v < 2 ^ 8 → MemoryInRange (store_byte ptr k v m)
  unfolding store_byte
  store_byte-InRange ptr k v hv = go (m.pages ptr.page) refl
    where
      go :
          (found : Option Page)
          → m.pages ptr.page ≡ found
          → let r : Memory = elim found [
            | some p ↦ record m {
              pages = update m.pages ptr.page (some (update p (ptr.offset + k) v));
            }
            | none ↦ m
          ] in
            MemoryInRange r
      go none e = h
      go (some p) e =
          new_page-InRange ptr.page (update p (ptr.offset + k) v)
            (λ j. ground (arith, page-lt ptr.page p e j))

-- Bytes to be stored.
abbrev pub AllBytes : List ℕ → Type 0
AllBytes bs = All (λ b. b < 2 ^ 8) bs

store_bytes-InRange :
    (ptr : Ptr) (k : ℕ) (bs : List ℕ) (m : Memory)
    → AllBytes bs
    → MemoryInRange m
    → MemoryInRange (store_bytes ptr k bs m)
unfolding store_bytes
store_bytes-InRange ptr k [] m hb h = h
store_bytes-InRange ptr k (b ∷ bs) m (hb, hbs) h =
    store_bytes-InRange ptr (k + 1) bs (store_byte ptr k b m) hbs
      (store_byte-InRange m h ptr k b hb)

module _ (m : Memory) (h : MemoryInRange m) (paddr : ℕ) where
  ram_write-InRange : (bs : List ℕ) → AllBytes bs → MemoryInRange (ram_write paddr bs m)
  unfolding ram_write
  ram_write-InRange bs hb =
      go (get_memory_ptr paddr true m).0 (get_memory_ptr paddr true m).1
        (found_ptr-InRange m h paddr true)
    where
      go :
          (found : Option Ptr) (m : Memory)
          → MemoryInRange m
          → let r : Memory = elim found [ some ptr ↦ store_bytes ptr 0 bs m | none ↦ m ] in
            MemoryInRange r
      go (some ptr) m h = store_bytes-InRange ptr 0 bs m hb h
      go none m h = h

-- A read through a pointer, 0 where no page is.
found-lt :
    (o : Option Ptr) (f : Ptr → ℕ) (b : ℕ)
    → 0 < b
    → ((ptr : Ptr) → f ptr < b)
    → (let v : ℕ = elim o [ some ptr ↦ f ptr | none ↦ 0 ] in v) < b
found-lt (some ptr) f b h0 hf = hf ptr
found-lt none f b h0 hf = h0

module _ (m : Memory) (h : MemoryInRange m) where
  ram_byte-lt : (paddr : ℕ) → ram_byte paddr m < 2 ^ 8
  unfolding ram_byte
  ram_byte-lt paddr = found-lt _ _ (2 ^ 8) (omega arith) (λ ptr. h.ram ptr 0)

  ram_read32-lt : (paddr : ℕ) → ram_read32 paddr m < 2 ^ 32
  unfolding ram_read32
  ram_read32-lt paddr =
      either (λ v. v < 2 ^ 32) (leb (bit_and paddr 0xfff + 4) 4096) _ _
        (found-lt _ _ (2 ^ 32) (omega arith)
          (λ ptr. join_bytes-lt _ _ _ _ (h.ram ptr 0) (h.ram ptr 1) (h.ram ptr 2) (h.ram ptr 3)))
        (join_bytes-lt _ _ _ _ (ram_byte-lt _) (ram_byte-lt _) (ram_byte-lt _) (ram_byte-lt _))

module _ (m : Memory) (h : MemoryInRange m) (paddr : ℕ) where
  pub physical_write-InRange :
      (value : ℕ) (bs : List ℕ)
      → value < 2 ^ 32
      → AllBytes bs
      → MemoryInRange (physical_write paddr value bs m)
  unfolding physical_write
  physical_write-InRange value bs hv hb =
      let device = device_write-InRange m h paddr value hv in
      either MemoryInRange (handle_mmio paddr value m).0 _ _ device
        (ram_write-InRange (handle_mmio paddr value m).1 device paddr bs hb)

  -- A read that gives a number below `b`.
  abbrev pub Below : ℕ → ℕ × Memory → Type 0
  Below b r = (r.0 < b) × MemoryInRange r.1

  -- A device or the RAM; `cut` is the cast of what a device gives.
  physical_read-Below :
      (b : ℕ) (cut : ℕ → ℕ) (ram : Memory → ℕ)
      → ((v : ℕ) → v < 2 ^ 32 → cut v < b)
      → ((m : Memory) → MemoryInRange m → ram m < b)
      → (r : Option ℕ × Memory) → Found r
      → Below b (elim (r.0) [ some v ↦ (cut v, r.1) | none ↦ (ram r.1, r.1) ])
  physical_read-Below b cut ram hc hr (some v, m) (hv, h) = (hc v hv, h)
  physical_read-Below b cut ram hc hr (none, m) h = (hr m h, h)

  pub read32_physical-Below : Below (2 ^ 32) (read32_physical paddr m)
  unfolding read32_physical
  read32_physical-Below =
      physical_read-Below (2 ^ 32) (λ v. v) (ram_read32 paddr) (λ v hv. hv)
        (λ m h. ram_read32-lt m h paddr) (handle_mmio_read paddr m) (device_read-InRange m h paddr)

  pub read8_physical-Below : Below (2 ^ 8) (read8_physical paddr m)
  unfolding read8_physical
  read8_physical-Below =
      physical_read-Below (2 ^ 8) u8
        (λ m. elim ((get_memory_ptr paddr false m).0) [ some ptr ↦ load_byte ptr 0 m | none ↦ 0 ])
        (λ v hv. omega arith) (λ m h. found-lt _ _ (2 ^ 8) (omega arith) (λ ptr. h.ram ptr 0))
        (handle_mmio_read paddr m) (device_read-InRange m h paddr)

  pub read16_physical-Below : Below (2 ^ 16) (read16_physical paddr m)
  unfolding read16_physical
  read16_physical-Below =
      physical_read-Below (2 ^ 16) u16
        (λ m. elim ((get_memory_ptr paddr false m).0) [
          | some ptr ↦ bit_or (load_byte ptr 0 m) (load_byte ptr 1 m <<< 8)
          | none ↦ 0
        ])
        (λ v hv. omega arith)
        (λ m h.
          found-lt _ _ (2 ^ 16) (omega arith)
            (λ ptr. join_halves-lt _ _ (h.ram ptr 0) (h.ram ptr 1)))
        (handle_mmio_read paddr m) (device_read-InRange m h paddr)

log_satp-InRange : (satp : ℕ) (m : Memory) → MemoryInRange m → MemoryInRange (log_satp satp m)
unfolding log_satp
log_satp-InRange satp m h =
    let h1 = (read32_physical-Below m h _).1 in
    let h2 = (read32_physical-Below _ h1 _).1 in
    let h3 = (read32_physical-Below _ h2 _).1 in
    clock-InRange _ h3 _ _ _ _ h3.mtime h3.mtimecmp h3.satp

pub set_satp-InRange :
    (satp : ℕ) (m : Memory) → satp < 2 ^ 32 → MemoryInRange m → MemoryInRange (set_satp satp m)
unfolding set_satp
set_satp-InRange satp m hs h =
    let b = not (m.current_satp == satp) && ltb m.satp_log_count 64 in
    let h' = either MemoryInRange b (log_satp satp m) m (log_satp-InRange satp m h) h in
    clock-InRange _ h' _ _ satp _ h'.mtime h'.mtimecmp hs
