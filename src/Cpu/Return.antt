-- ===== src/Cpu/Return.antt =====
-- `returnFromTrap` of core/RiscvCpu.cpp for machine mode: what `mret` does behind `takeTrap`.
use riscv_sym.Base.{
  ℕ, ◌*◌, ◌/◌, ◌%◌, ◌^◌, ◌≡◌, ◌≢◌, refl, arith, bit_and, bit_or, false, not32, min, max, ◌∙◌, ap,
  ◌>>>◌, ◌<<<◌,
}
use riscv_sym.Base.Bits.{bit}
use riscv_sym.Base.Bits.Laws.{bit-bit_and, bit-bit_or}
use riscv_sym.Base.Bits.Field.{bit_and_low}
use riscv_sym.State.{PrivilegeMode, reserved, mode_code, to_mode, Machine}
use riscv_sym.Csr
use riscv_sym.Csr.Address
use riscv_sym.Csr.Laws.{bit-legal_mstatus}
use riscv_sym.Cpu.{take_trap, delegate_to_s, return_from_machine}
use riscv_sym.Cpu.Trap.{take_trap-MachineEntry}

pub to_mode-mode_code : (p : PrivilegeMode) → to_mode (mode_code p) ≡ p
to_mode-mode_code p = ground arith

-- The word that `mret` stores in `mstatus`: MIE takes MPIE, MPIE is set, MPP is user mode.
abbrev mret_word : ℕ → ℕ
mret_word s = bit_or (bit_or (bit_and s (not32 0x1888)) (bit_and (s >>> 7) 1 <<< 3)) (2 ^ 7)

bit-mret_word :
    (s i : ℕ)
    → bit (mret_word s) i
      ≡ max
          (max (min (bit s i) (bit (not32 0x1888) i)) (bit (s / 2 ^ 7 % 2 * 2 ^ 3) i))
          (bit (2 ^ 7) i)
bit-mret_word s i =
    let low : ℕ = bit_and s (not32 0x1888) in
    let mid : ℕ = s / 2 ^ 7 % 2 * 2 ^ 3 in
    rw (bit_and_low 1 (s / 2 ^ 7)) (
      ground (
        arith,
        bit-bit_or (bit_or low mid) (2 ^ 7) i,
        bit-bit_or low mid i,
        bit-bit_and s (not32 0x1888) i,
      ))

-- What `mret` does to the state.
pub record MachineReturn (m m' : Machine) : Type 0 where
  pub mode : m'.privilege_mode ≡ to_mode (m.csrs Address.mstatus / 2 ^ 11 % 4)
  pub pc : m'.pc ≡ m.csrs Address.mepc
  pub next : m'.next_pc ≡ m.csrs Address.mepc
  pub mie : bit (m'.csrs Address.mstatus) 3 ≡ bit (m.csrs Address.mstatus) 7
  pub mpie : bit (m'.csrs Address.mstatus) 7 ≡ 1
  pub mpp : m'.csrs Address.mstatus / 2 ^ 11 % 4 ≡ 0
  pub regs : m'.regs ≡ m.regs
  pub mem : m'.mem ≡ m.mem

return_from_machine-MachineReturn : (m : Machine) → MachineReturn m (return_from_machine m)
unfolding return_from_machine Csr.read Csr.write Csr.write_register
return_from_machine-MachineReturn m =
    let s : ℕ = m.csrs Address.mstatus in
    let user_mpp : mret_word s / 2 ^ 11 % 4 ≡ 0 =
      omega (arith, bit-mret_word s 11, bit-mret_word s 12) in
    let open_mpp : mret_word s / 2 ^ 11 % 4 ≢ 2 = omega (arith, user_mpp) in
    record {
      mode = ap to_mode (bit_and_low 2 (s / 2 ^ 11));
      pc = refl;
      next = refl;
      mie = ground (arith, bit-mret_word s 3, bit-legal_mstatus (mret_word s) 3 open_mpp);
      mpie = ground (arith, bit-mret_word s 7, bit-legal_mstatus (mret_word s) 7 open_mpp);
      mpp = ground (
        arith,
        user_mpp,
        bit-legal_mstatus (mret_word s) 11 open_mpp,
        bit-legal_mstatus (mret_word s) 12 open_mpp,
      );
      regs = refl;
      mem = refl;
    }

-- What is as it was before a trap.
pub record Resumed (m m' : Machine) : Type 0 where
  pub mode : m'.privilege_mode ≡ m.privilege_mode
  pub pc : m'.pc ≡ m.pc
  pub next : m'.next_pc ≡ m.pc
  pub regs : m'.regs ≡ m.regs
  pub mem : m'.mem ≡ m.mem

-- A trap into machine mode, from a mode that is not the reserved one, followed by a return gives
-- back the program counter, the mode, the registers, the memory and MIE.
pub return_from_machine-take_trap :
    (cause trap_value : ℕ) (m : Machine)
    → m.privilege_mode ≢ reserved
    → delegate_to_s cause m ≡ false
    → let m' = return_from_machine (take_trap cause trap_value m) in
      Resumed m m' × (bit (m'.csrs Address.mstatus) 3 ≡ bit (m.csrs Address.mstatus) 3)
return_from_machine-take_trap cause trap_value m ne d =
    let e = take_trap-MachineEntry cause trap_value m ne d in
    let r = return_from_machine-MachineReturn (take_trap cause trap_value m) in
    (
      record {
        mode = r.mode ∙ ap to_mode e.stacked.mpp ∙ to_mode-mode_code m.privilege_mode;
        pc = r.pc ∙ e.epc;
        next = r.next ∙ e.epc;
        regs = r.regs ∙ e.regs;
        mem = r.mem ∙ e.mem;
      },
      r.mie ∙ e.stacked.mpie,
    )
