-- ===== src/Run/Image.antt =====
-- core/RiscvCpu.cpp, `loadBinFileToMemory`: the file's bytes are in RAM afterwards.
use riscv_sym.Base.{
  ℕ, ◌+◌, ◌-◌, ◌^◌, ◌≤◌, ◌<◌, ◌≡◌, leb, ltb, ◌&&◌, if◌then◌else◌, true, some, List, [], ◌∷◌, arith,
  refl, ap, ◌∙◌, bit_and, u32,
}
use riscv_sym.Base.Lists.{length, get_or}
use riscv_sym.State.{Machine, ok, Outcome, pure, and_then, machine}
use riscv_sym.Csr.Address
use riscv_sym.Memory.Physical.{ram_byte}
use riscv_sym.Memory.Access.{ram_write}
use riscv_sym.Memory.Image.{image, ram_byte-image}
use riscv_sym.Memory.Bytes.{write8-ram}
use riscv_sym.Run.File.{write_buffer, load_bin_file_to_memory}

-- Above every device, and below the end of the addresses.
abbrev pub Fits : ℕ → List ℕ → Type 0
Fits a buffer = (0x1000_1004 < a) × (a + length buffer ≤ 2 ^ 32)

write_buffer-image :
    (start i : ℕ) (buffer : List ℕ) (m : Machine)
    → m.privilege_mode ≡ machine
    → bit_and (m.csrs Address.mstatus) (2 ^ 17) ≡ 0
    → Fits (start + i) buffer
    → write_buffer start i buffer m ≡ ok tt (record m { mem = image (start + i) buffer m.mem })
unfolding write_buffer
write_buffer-image start i [] m mode mprv h = refl
write_buffer-image start i (b ∷ buffer) m mode mprv (low, high) =
    let a : ℕ = start + i in
    let at : u32 (start + i) ≡ a = omega arith in
    let next_i : start + (i + 1) ≡ a + 1 = omega arith in
    let m' : Machine = record m { mem = ram_write a (b ∷ []) m.mem } in
    rw (at, write8-ram a b m (mode, mprv) (ground arith))
      (write_buffer-image start (i + 1) buffer m' mode mprv (omega arith, omega arith)
        ∙ ap (λ (x : ℕ). ok tt (record m { mem = image x buffer m'.mem })) next_i)

-- In machine mode with MPRV clear, a file that fits above the devices and below 2 ^ 32 is loaded:
-- each byte of RAM is the byte of the file inside the range, and what it was everywhere else.
pub load_bin_file_to_memory-image :
    (start : ℕ) (buffer : List ℕ) (m : Machine)
    → m.privilege_mode ≡ machine
    → bit_and (m.csrs Address.mstatus) (2 ^ 17) ≡ 0
    → Fits start buffer
    → let m' = record m { mem = image start buffer m.mem } in
      (load_bin_file_to_memory (some buffer) start m ≡ ok true m')
      × ((x : ℕ)
          → ram_byte x m'.mem ≡ (
              if leb start x && ltb x (start + length buffer)
              then get_or buffer (x - start) 0
              else ram_byte x m.mem))
unfolding load_bin_file_to_memory
load_bin_file_to_memory-image start buffer m mode mprv h =
    let e : start + 0 ≡ start = omega arith in
    (
      ap (λ (o : Outcome (Unit {0})). and_then o (λ _. pure true))
            (write_buffer-image start 0 buffer m mode mprv (omega (arith, e), omega (arith, e)))
          ∙ ap (λ (x : ℕ). ok true (record m { mem = image x buffer m.mem })) e,
      λ x. ram_byte-image x start buffer m.mem,
    )
