-- ===== src/Memory/Bytes.antt =====
-- core/Memory.cpp: `read8` and `write8` in RAM, in machine mode.
use riscv_sym.Base.{ℕ, false, ◌^◌, ◌≡◌, ◌∙◌, refl, ap, bit_and, Option, none, some, [], ◌∷◌, u8}
use riscv_sym.State.{Machine, Memory, Outcome, ok, machine, load, store, and_then}
use riscv_sym.Csr.Address
use riscv_sym.Memory.Pages.{get_memory_ptr, load_byte}
use riscv_sym.Memory.Physical.{ram_byte}
use riscv_sym.Memory.Access.{ram_write, read8_physical, physical_write, read8, write8}
use riscv_sym.Memory.Translate.{on_memory}
use riscv_sym.Memory.Word.{IsRam, handle_mmio-IsRam, handle_mmio_read-IsRam, translate-machine}

-- Machine mode, with loads and stores checked for it.
abbrev pub InMachineMode : Machine → Type 0
InMachineMode m = (m.privilege_mode ≡ machine) × (bit_and (m.csrs Address.mstatus) (2 ^ 17) ≡ 0)

read8_physical-IsRam : (a : ℕ) (m : Memory) → IsRam a → read8_physical a m ≡ (ram_byte a m, m)
unfolding read8_physical ram_byte
read8_physical-IsRam a m h =
    ap
      (λ (r : Option ℕ × Memory).
        let v : ℕ × Memory = elim (r.0) [
          | some v ↦ (u8 v, r.1)
          | none ↦ (
            elim ((get_memory_ptr a false r.1).0) [ some ptr ↦ load_byte ptr 0 r.1 | none ↦ 0 ],
            r.1,
          )
        ] in
        v)
      (handle_mmio_read-IsRam a m h)

pub read8-ram :
    (a : ℕ) (m : Machine) → InMachineMode m → IsRam a → read8 a m ≡ ok (ram_byte a m.mem) m
unfolding read8
read8-ram a m (mode, mprv) h =
    ap (λ (o : Outcome ℕ). and_then o (λ p. on_memory (read8_physical p)))
      (translate-machine a load m mode mprv)
    ∙ ap (λ (x : ℕ × Memory). ok x.0 (record m { mem = x.1 })) (read8_physical-IsRam a m.mem h)

pub write8-ram :
    (a b : ℕ) (m : Machine)
    → InMachineMode m
    → IsRam a
    → write8 a b m ≡ ok tt (record m { mem = ram_write a (b ∷ []) m.mem })
unfolding write8 physical_write
write8-ram a b m (mode, mprv) h =
    rw (translate-machine a store m mode mprv, handle_mmio-IsRam a b m.mem h) refl
