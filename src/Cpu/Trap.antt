-- ===== src/Cpu/Trap.antt =====
-- `takeTrap` and `returnFromTrap` of core/RiscvCpu.cpp: what an entry stores and that a return
-- undoes it.
use riscv_sym.Base.{
  ℕ, ◌+◌, ◌*◌, ◌/◌, ◌%◌, ◌^◌, ◌≡◌, ◌≢◌, refl, arith, bit_and, bit_or, false, not32, min, max, ◌∙◌,
}
use riscv_sym.Base.Bits.{bit}
use riscv_sym.Base.Bits.Laws.{bit-bit_and, bit-bit_or}
use riscv_sym.Base.Bits.Field.{bit_and_low}
use riscv_sym.State.{PrivilegeMode, reserved, machine, mode_code, Machine}
use riscv_sym.Csr
use riscv_sym.Csr.Address
use riscv_sym.Csr.Laws.{bit-legal_mstatus}
use riscv_sym.Cpu.{take_trap, delegate_to_s, trap_to_machine, trap_mstatus, cancel_reservation}

-- The bits of the word that an entry into machine mode stores in `mstatus`.
bit-trap_mstatus :
    (s : ℕ) (mode : PrivilegeMode) (i : ℕ)
    → bit (trap_mstatus s mode) i
      ≡ max
          (max (min (bit s i) (bit (not32 0x1888) i)) (bit (s / 2 ^ 3 % 2 * 2 ^ 7) i))
          (bit (mode_code mode * 2 ^ 11) i)
unfolding trap_mstatus
bit-trap_mstatus s mode i =
    let low : ℕ = bit_and s (not32 (2 ^ 3 + 2 ^ 7 + 3 * 2 ^ 11)) in
    let mid : ℕ = s / 2 ^ 3 % 2 * 2 ^ 7 in
    rw (bit_and_low 1 (s / 2 ^ 3), bit_and_low 2 (mode_code mode))
      (ground (
        arith,
        bit-bit_or (bit_or low mid) (mode_code mode * 2 ^ 11) i,
        bit-bit_or low mid i,
        bit-bit_and s (not32 (2 ^ 3 + 2 ^ 7 + 3 * 2 ^ 11)) i,
      ))

-- What machine mode finds in `mstatus`: MIE off, MPIE as MIE was, MPP the mode before.
pub record Stacked (old new : ℕ) (mode : PrivilegeMode) : Type 0 where
  pub mie : bit new 3 ≡ 0
  pub mpie : bit new 7 ≡ bit old 3
  pub mpp : new / 2 ^ 11 % 4 ≡ mode_code mode

trap_mstatus-Stacked : (s : ℕ) (mode : PrivilegeMode) → Stacked s (trap_mstatus s mode) mode
trap_mstatus-Stacked s mode = record {
  mie = ground (arith, bit-trap_mstatus s mode 3);
  mpie = ground (arith, bit-trap_mstatus s mode 7);
  mpp = ground (arith, bit-trap_mstatus s mode 11, bit-trap_mstatus s mode 12);
}

legal-Stacked :
    (s : ℕ) (mode : PrivilegeMode)
    → mode ≢ reserved
    → Stacked s (Csr.legal_mstatus (trap_mstatus s mode)) mode
legal-Stacked s mode ne =
    let t : ℕ = trap_mstatus s mode in
    let h = trap_mstatus-Stacked s mode in
    let open_mpp : t / 2 ^ 11 % 4 ≢ 2 = ground (arith, h.mpp) in
    record {
      mie = ground (arith, h.mie, bit-legal_mstatus t 3 open_mpp);
      mpie = ground (arith, h.mpie, bit-legal_mstatus t 7 open_mpp);
      mpp = ground (arith, h.mpp, bit-legal_mstatus t 11 open_mpp, bit-legal_mstatus t 12 open_mpp);
    }

-- What an entry into machine mode leaves: the trap registers, the handler as the next
-- instruction, interrupts off, and all else that a program sees unchanged.
pub record MachineEntry (cause trap_value : ℕ) (m m' : Machine) : Type 0 where
  pub mode : m'.privilege_mode ≡ machine
  pub epc : m'.csrs Address.mepc ≡ m.pc
  pub cause_stored : m'.csrs Address.mcause ≡ cause
  pub value_stored : m'.csrs Address.mtval ≡ trap_value
  pub handler : m'.pc ≡ bit_and (m.csrs Address.mtvec) (not32 3)
  pub next : m'.next_pc ≡ m'.pc
  pub stacked : Stacked (m.csrs Address.mstatus) (m'.csrs Address.mstatus) m.privilege_mode
  pub regs : m'.regs ≡ m.regs
  pub mem : m'.mem ≡ m.mem
  pub no_reservation : m'.reservation_valid ≡ false

trap_to_machine-MachineEntry :
    (cause trap_value : ℕ) (m : Machine)
    → m.privilege_mode ≢ reserved
    → m.reservation_valid ≡ false
    → MachineEntry cause trap_value m (trap_to_machine cause trap_value m)
unfolding trap_to_machine Csr.read Csr.write
trap_to_machine-MachineEntry cause trap_value m ne free = record {
  mode = refl;
  epc = refl;
  cause_stored = refl;
  value_stored = refl;
  handler = refl;
  next = refl;
  stacked = legal-Stacked (m.csrs Address.mstatus) m.privilege_mode ne;
  regs = refl;
  mem = refl;
  no_reservation = free;
}

pub take_trap-MachineEntry :
    (cause trap_value : ℕ) (m : Machine)
    → m.privilege_mode ≢ reserved
    → delegate_to_s cause m ≡ false
    → MachineEntry cause trap_value m (take_trap cause trap_value m)
unfolding take_trap cancel_reservation
take_trap-MachineEntry cause trap_value m ne d =
    let e = trap_to_machine-MachineEntry cause trap_value (cancel_reservation m) ne refl in
    rw (delegate_cancel cause m ∙ d) (record {
      mode = e.mode;
      epc = e.epc;
      cause_stored = e.cause_stored;
      value_stored = e.value_stored;
      handler = e.handler;
      next = e.next;
      stacked = e.stacked;
      regs = e.regs;
      mem = e.mem;
      no_reservation = e.no_reservation;
    })
  where
    delegate_cancel :
        (c : ℕ) (m : Machine) → delegate_to_s c (cancel_reservation m) ≡ delegate_to_s c m
    delegate_cancel c m = unfold delegate_to_s in refl
