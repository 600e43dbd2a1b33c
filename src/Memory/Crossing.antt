-- ===== src/Memory/Crossing.antt =====
-- core/Memory.cpp: `write32` and `read32` of the same word, within a page and across two.
use riscv_sym.Base.{
  ℕ, ◌+◌, ◌%◌, ◌^◌, ◌≤◌, ◌<◌, ◌≡◌, ◌∙◌, ◌⊎◌, inl, inr, arith, refl, ap, bit_and, leb, false,
  Bool-cases, [], ◌∷◌, u32,
}
use riscv_sym.Base.Lists.{get_or}
use riscv_sym.Base.Bits.Field.{bit_and_low}
use riscv_sym.State.{Machine, Memory, ok}
use riscv_sym.Memory.Physical.{ram_byte, join_bytes}
use riscv_sym.Memory.Access.{ram_write, byte_of, read32, write32}
use riscv_sym.Memory.Ram.{ram_byte-ram_write}
use riscv_sym.Memory.Word.{IsRam, bytes_of, join_bytes-byte_of, minus_self, read32-write32}
use riscv_sym.Memory.Bytes.{InMachineMode, read8-ram, write8-ram}
use riscv_sym.Memory.Image.{image, ram_byte-image}

-- The four bytes of a word that is not cut by the end of the addresses, without a device.
pub record WordInRam (a : ℕ) : Type 0 where
  pub fits : a + 3 < 2 ^ 32
  pub ram : (k : ℕ) → k < 4 → IsRam (a + k)

module _ (a v : ℕ) (m : Machine) (mode : InMachineMode m) (h : WordInRam a) (hv : v < 2 ^ 32) where
  -- Behind the four single stores.
  abbrev crossed : Memory
  crossed = image a (bytes_of v) m.mem

  abbrev m' : Machine
  m' = record m { mem = crossed }

  at : (k : ℕ) → k < 4 → u32 (a + k) ≡ a + k
  at k lt = let f = h.fits in omega arith

  ram0 : IsRam a
  ram0 = let e : a + 0 ≡ a = omega arith in rw e at (h.ram 0 (omega arith))

  write32-crossing : leb (bit_and a 0xfff + 4) 4096 ≡ false → write32 a v m ≡ ok tt m'
  unfolding write32
  write32-crossing e =
      let m1 : Machine = record m { mem = ram_write a (byte_of v 0 ∷ []) m.mem } in
      let m2 : Machine = record m { mem = ram_write (a + 1) (byte_of v 1 ∷ []) m1.mem } in
      let m3 : Machine = record m { mem = ram_write (a + 2) (byte_of v 2 ∷ []) m2.mem } in
      let two : a + 1 + 1 ≡ a + 2 = omega arith in
      let three : a + 2 + 1 ≡ a + 3 = omega arith in
      rw
        (
          e,
          write8-ram a (byte_of v 0) m mode ram0,
          at 1 (omega arith),
          write8-ram (a + 1) (byte_of v 1) m1 mode (h.ram 1 (omega arith)),
          at 2 (omega arith),
          write8-ram (a + 2) (byte_of v 2) m2 mode (h.ram 2 (omega arith)),
          at 3 (omega arith),
          write8-ram (a + 3) (byte_of v 3) m3 mode (h.ram 3 (omega arith)),
          two,
          three,
        )
        refl

  byte : (k : ℕ) → k < 4 → ram_byte (a + k) crossed ≡ get_or (bytes_of v) k 0
  byte k lt =
      ram_byte-image (a + k) a (bytes_of v) m.mem
      ∙ ground (arith, ap (λ (t : ℕ). get_or (bytes_of v) t 0) (minus_self a k))

  joined_word :
      join_bytes
        (ram_byte a crossed)
        (ram_byte (a + 1) crossed)
        (ram_byte (a + 2) crossed)
        (ram_byte (a + 3) crossed)
      ≡ v
  joined_word =
      let start : a + 0 ≡ a = omega arith in
      let first : ram_byte a crossed ≡ byte_of v 0 = rw start at (byte 0 (omega arith)) in
      let rest = λ (k : ℕ) (lt : k < 4). byte k lt in
      rw (first, rest 1 (omega arith), rest 2 (omega arith), rest 3 (omega arith))
        (join_bytes-byte_of v hv)

  read32-crossing : leb (bit_and a 0xfff + 4) 4096 ≡ false → read32 a false m' ≡ ok v m'
  unfolding read32
  read32-crossing e =
      rw
        (
          e,
          read8-ram a m' mode ram0,
          at 1 (omega arith),
          read8-ram (a + 1) m' mode (h.ram 1 (omega arith)),
          at 2 (omega arith),
          read8-ram (a + 2) m' mode (h.ram 2 (omega arith)),
          at 3 (omega arith),
          read8-ram (a + 3) m' mode (h.ram 3 (omega arith)),
        )
        (ap (λ (x : ℕ). ok x m') joined_word)

-- The memory behind the store of a word.
pub record Stores (a v : ℕ) (m : Machine) (mem : Memory) : Type 0 where
  pub write : write32 a v m ≡ ok tt (record m { mem = mem })
  pub read : read32 a false (record m { mem = mem }) ≡ ok v (record m { mem = mem })
  pub elsewhere : (x : ℕ) → (x < a) ⊎ (a + 4 ≤ x) → ram_byte x mem ≡ ram_byte x m.mem

-- In machine mode with MPRV clear, a word is stored at any address without a device, also across
-- two pages: the store does not fault and changes the memory alone, a load of that address then
-- gives the word, and every byte elsewhere is as it was.
pub read32-write32_ram :
    (a v : ℕ) (m : Machine)
    → InMachineMode m
    → WordInRam a
    → v < 2 ^ 32
    → (mem : Memory) × Stores a v m mem
read32-write32_ram a v m mode h hv = elim (Bool-cases (leb (bit_and a 0xfff + 4) 4096)) [
  | inl e ↦
      let inside : a % 2 ^ 12 + 4 ≤ 2 ^ 12 = ground (arith, e, bit_and_low 12 a) in
      let both = read32-write32 a v m (mode.0) (mode.1) (ram0 a v m mode h hv) inside hv in
      (
        ram_write a (bytes_of v) m.mem,
        record {
          write = both.0;
          read = both.1;
          elsewhere =
              λ x out. ram_byte-ram_write x a (bytes_of v) m.mem inside ∙ ground (arith, out);
        },
      )
  | inr e ↦ (
    crossed a v m mode h hv,
    record {
      write = write32-crossing a v m mode h hv e;
      read = read32-crossing a v m mode h hv e;
      elsewhere = λ x out. ram_byte-image x a (bytes_of v) m.mem ∙ ground (arith, out);
    },
  )
]
