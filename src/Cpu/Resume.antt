-- ===== src/Cpu/Resume.antt =====
-- `takeTrap` and `returnFromTrap` of core/RiscvCpu.cpp for both handler modes: `sret` as well as
-- `mret` undoes the entry that the trap chose.
use riscv_sym.Base.{
  ℕ, ◌*◌, ◌/◌, ◌%◌, ◌^◌, ◌≤◌, ◌≡◌, ◌≢◌, refl, arith, bit_and, bit_or, Bool-cases, true, not32, ◌∙◌,
  ap, ◌>>>◌, ◌<<<◌, inl, inr, if◌then◌else◌,
}
use riscv_sym.Base.Bits.{bit}
use riscv_sym.Base.Bits.Laws.{bit-bit_and, bit-bit_or, bit_cases}
use riscv_sym.Base.Bits.Field.{bit_and_low}
use riscv_sym.State.{reserved, mode_code, to_mode, Machine}
use riscv_sym.Csr
use riscv_sym.Csr.Address
use riscv_sym.Csr.Address.{mstatus_mask, mstatus_mpp}
use riscv_sym.Cpu.{take_trap, delegate_to_s, return_from_trap, return_from_supervisor}
use riscv_sym.Cpu.Trap.{take_trap-MachineEntry}
use riscv_sym.Cpu.Delegate.{take_trap-SupervisorEntry}
use riscv_sym.Cpu.Return.{Resumed, to_mode-mode_code, return_from_machine-take_trap}

-- The word that `sret` stores in `mstatus`: SIE takes SPIE, SPIE is set, SPP is user mode.
abbrev sret_word : ℕ → ℕ
sret_word s = bit_or (bit_or (bit_and s (not32 0x122)) (bit_and (s >>> 5) 1 <<< 1)) (2 ^ 5)

sret_word-sie : (s : ℕ) → bit (sret_word s) 1 ≡ bit s 5
sret_word-sie s =
    let low : ℕ = bit_and s (not32 0x122) in
    let mid : ℕ = s / 2 ^ 5 % 2 * 2 ^ 1 in
    rw (bit_and_low 1 (s / 2 ^ 5)) (
      ground (
        arith,
        bit-bit_or (bit_or low mid) (2 ^ 5) 1,
        bit-bit_or low mid 1,
        bit-bit_and s (not32 0x122) 1,
      ))

-- The lawful `mstatus` has the SIE that is written, whatever MPP is.
legal_mstatus-sie : (v : ℕ) → bit (Csr.legal_mstatus v) 1 ≡ bit v 1
unfolding Csr.legal_mstatus
legal_mstatus-sie v =
    let val : ℕ = bit_and v mstatus_mask in
    ground
      (arith, bit-bit_and v mstatus_mask 1, bit-bit_and val (not32 mstatus_mpp) 1, bit_cases v 1)

-- What `sret` does to the state.
record SupervisorReturn (m m' : Machine) : Type 0 where
  pub mode : m'.privilege_mode ≡ to_mode (bit (m.csrs Address.mstatus) 8)
  pub pc : m'.pc ≡ m.csrs Address.sepc
  pub next : m'.next_pc ≡ m.csrs Address.sepc
  pub sie : bit (m'.csrs Address.mstatus) 1 ≡ bit (m.csrs Address.mstatus) 5
  pub regs : m'.regs ≡ m.regs
  pub mem : m'.mem ≡ m.mem

return_from_supervisor-SupervisorReturn :
    (m : Machine) → SupervisorReturn m (return_from_supervisor m)
unfolding return_from_supervisor Csr.read Csr.write Csr.write_register
return_from_supervisor-SupervisorReturn m =
    let s : ℕ = m.csrs Address.mstatus in
    record {
      mode = ap to_mode (bit_and_low 1 (s / 2 ^ 8));
      pc = refl;
      next = refl;
      sie = legal_mstatus-sie (sret_word s) ∙ sret_word-sie s;
      regs = refl;
      mem = refl;
    }

delegate_to_s-mode :
    (cause : ℕ) (m : Machine) → delegate_to_s cause m ≡ true → mode_code m.privilege_mode ≤ 1
unfolding delegate_to_s
delegate_to_s-mode cause m d = ground arith

return_from_supervisor-take_trap :
    (cause trap_value : ℕ) (m : Machine)
    → delegate_to_s cause m ≡ true
    → let m' = return_from_supervisor (take_trap cause trap_value m) in
      Resumed m m' × (bit (m'.csrs Address.mstatus) 1 ≡ bit (m.csrs Address.mstatus) 1)
return_from_supervisor-take_trap cause trap_value m d =
    let e = take_trap-SupervisorEntry cause trap_value m d in
    let r = return_from_supervisor-SupervisorReturn (take_trap cause trap_value m) in
    let spp : mode_code m.privilege_mode % 2 ≡ mode_code m.privilege_mode =
      omega (arith, delegate_to_s-mode cause m d) in
    (
      record {
        mode = r.mode ∙ ap to_mode (e.stacked.spp ∙ spp) ∙ to_mode-mode_code m.privilege_mode;
        pc = r.pc ∙ e.epc;
        next = r.next ∙ e.epc;
        regs = r.regs ∙ e.regs;
        mem = r.mem ∙ e.mem;
      },
      r.sie ∙ e.stacked.spie,
    )

-- A trap from a mode that is not the reserved one, followed by the return from the mode that the
-- trap entered, gives back the program counter, the mode, the registers, the memory and the
-- interrupt enable of that handler mode, SIE or MIE.
pub return_from_trap-take_trap :
    (cause trap_value : ℕ) (m : Machine)
    → m.privilege_mode ≢ reserved
    → let entered = take_trap cause trap_value m in
      let m' = return_from_trap entered.privilege_mode entered in
      let enable : ℕ = if delegate_to_s cause m then 1 else 3 in
      Resumed m m' × (bit (m'.csrs Address.mstatus) enable ≡ bit (m.csrs Address.mstatus) enable)
unfolding return_from_trap
return_from_trap-take_trap cause trap_value m ne = elim (Bool-cases (delegate_to_s cause m)) [
  | inl d ↦
      simp (d, (take_trap-SupervisorEntry cause trap_value m d).mode)
        (return_from_supervisor-take_trap cause trap_value m d)
  | inr d ↦
      simp (d, (take_trap-MachineEntry cause trap_value m ne d).mode)
        (return_from_machine-take_trap cause trap_value m ne d)
]
