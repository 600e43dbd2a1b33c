-- ===== src/Cpu/Delegate.antt =====
-- The delegated branch of `takeTrap` of core/RiscvCpu.cpp: entry into supervisor mode.
use riscv_sym.Base.{
  ℕ, ◌+◌, ◌*◌, ◌/◌, ◌%◌, ◌^◌, ◌≤◌, ◌<◌, ◌≡◌, ◌≢◌, refl, arith, bit_and, bit_or, ◌==◌, if◌then◌else◌,
  Bool, true, false, Bool-cases, not32, min, max, ◌↔◌, ◌⊎◌, inl, inr, ◌∙◌, ne_zero, ◌||◌,
}
use riscv_sym.Base.Bits.{bit}
use riscv_sym.Base.Bits.Laws.{bit-bit_and, bit-bit_or, bit_complement, bit_cases}
use riscv_sym.Base.Bits.Field.{bit_and_low, bit_and_field}
use riscv_sym.Cpu.Trap.{MachineEntry, take_trap-MachineEntry}
use riscv_sym.Base.Bits.Table.{holds_below, holds_below_at, bit_single, ne_zero-bit_and}
use riscv_sym.State.{PrivilegeMode, supervisor, reserved, mode_code, Machine}
use riscv_sym.Csr
use riscv_sym.Csr.Address
use riscv_sym.Csr.Address.{sstatus_mask}
use riscv_sym.Csr.Laws.{bit-merge}
use riscv_sym.Cpu.{take_trap, delegate_to_s, trap_to_supervisor, trap_sstatus, cancel_reservation}

-- SIE, SPIE and SPP.
abbrev stacked_bits : ℕ
stacked_bits = 2 ^ 1 + 2 ^ 5 + 2 ^ 8

abbrev is_stacked : ℕ → Bool
is_stacked i = i == 1 || (i == 5 || i == 8)

stacked_table : holds_below (λ i. (bit stacked_bits i == 0) || is_stacked i) 32 ≡ true
unfolding holds_below
stacked_table = refl

bit-trap_sstatus :
    (s : ℕ) (mode : PrivilegeMode) (i : ℕ)
    → bit (trap_sstatus s mode) i
      ≡ max
          (max (min (bit s i) (bit (not32 stacked_bits) i)) (if i == 5 then bit s 1 else 0))
          (if i == 8 then mode_code mode % 2 else 0)
unfolding trap_sstatus
bit-trap_sstatus s mode i =
    let low : ℕ = bit_and s (not32 stacked_bits) in
    let mid : ℕ = s / 2 ^ 1 % 2 ^ 1 * 2 ^ 5 in
    let high : ℕ = mode_code mode % 2 ^ 1 * 2 ^ 8 in
    rw (bit_and_low 1 (s / 2 ^ 1), bit_and_low 1 (mode_code mode))
      (ground (
        arith,
        bit-bit_or (bit_or low mid) high i,
        bit-bit_or low mid i,
        bit-bit_and s (not32 stacked_bits) i,
        bit_single 5 (s / 2 ^ 1 % 2 ^ 1) i,
        bit_single 8 (mode_code mode % 2 ^ 1) i,
      ))

-- What supervisor mode finds in `mstatus`: SIE off, SPIE as SIE was, SPP the mode before, and
-- every other bit as it was.
pub record Stacked (old new : ℕ) (mode : PrivilegeMode) : Type 0 where
  pub sie : bit new 1 ≡ 0
  pub spie : bit new 5 ≡ bit old 1
  pub spp : bit new 8 ≡ mode_code mode % 2
  pub others : (i : ℕ) → i < 32 → i ≢ 1 → i ≢ 5 → i ≢ 8 → bit new i ≡ bit old i

abbrev entered : ℕ → PrivilegeMode → ℕ
entered old mode = Csr.merge sstatus_mask old (trap_sstatus (bit_and old sstatus_mask) mode)

bit-entered :
    (old : ℕ) (mode : PrivilegeMode) (i : ℕ)
    → i < 32
    → bit (entered old mode) i ≡ (
        if bit sstatus_mask i == 1
        then bit (trap_sstatus (bit_and old sstatus_mask) mode) i
        else bit old i)
bit-entered old mode i lt = bit-merge sstatus_mask old _ i (omega arith) lt

entered-Stacked : (old : ℕ) (mode : PrivilegeMode) → Stacked old (entered old mode) mode
entered-Stacked old mode =
    let s : ℕ = bit_and old sstatus_mask in
    record {
      sie = ground (arith, bit-entered old mode 1, bit-trap_sstatus s mode 1);
      spie = ground (
        arith,
        bit-entered old mode 5,
        bit-trap_sstatus s mode 5,
        bit-bit_and old sstatus_mask 1,
        bit-bit_and old sstatus_mask 5,
      );
      spp = ground (arith, bit-entered old mode 8, bit-trap_sstatus s mode 8);
      others = λ i lt n1 n5 n8. ground (
        arith,
        bit-entered old mode i,
        bit-trap_sstatus s mode i,
        bit-bit_and old sstatus_mask i,
        bit_complement 32 stacked_bits i,
        holds_below_at (λ i. (bit stacked_bits i == 0) || is_stacked i) 32 i lt stacked_table,
        bit_cases old i,
        bit_cases sstatus_mask i,
      );
    }

-- What a delegated entry leaves.
pub record SupervisorEntry (cause trap_value : ℕ) (m m' : Machine) : Type 0 where
  pub mode : m'.privilege_mode ≡ supervisor
  pub epc : m'.csrs Address.sepc ≡ m.pc
  pub cause_stored : m'.csrs Address.scause ≡ cause
  pub value_stored : m'.csrs Address.stval ≡ trap_value
  pub handler : m'.pc ≡ bit_and (m.csrs Address.stvec) (not32 3)
  pub next : m'.next_pc ≡ m'.pc
  pub stacked : Stacked (m.csrs Address.mstatus) (m'.csrs Address.mstatus) m.privilege_mode
  pub machine_epc : m'.csrs Address.mepc ≡ m.csrs Address.mepc
  pub regs : m'.regs ≡ m.regs
  pub mem : m'.mem ≡ m.mem
  pub no_reservation : m'.reservation_valid ≡ false

module _ (cause trap_value : ℕ) (m : Machine) (free : m.reservation_valid ≡ false) where
  trap_to_supervisor-SupervisorEntry :
      SupervisorEntry cause trap_value m (trap_to_supervisor cause trap_value m)
  unfolding trap_to_supervisor Csr.read Csr.write Csr.write_register
  trap_to_supervisor-SupervisorEntry = elim (Bool-cases (ne_zero (bit_and cause 0x8000_0000))) [
    | inl e ↦ rw e (record {
      mode = refl;
      epc = refl;
      cause_stored = refl;
      value_stored = refl;
      handler = refl;
      next = refl;
      stacked = entered-Stacked (m.csrs Address.mstatus) m.privilege_mode;
      machine_epc = refl;
      regs = refl;
      mem = refl;
      no_reservation = free;
    })
    | inr e ↦ rw e (record {
      mode = refl;
      epc = refl;
      cause_stored = refl;
      value_stored = refl;
      handler = refl;
      next = refl;
      stacked = entered-Stacked (m.csrs Address.mstatus) m.privilege_mode;
      machine_epc = refl;
      regs = refl;
      mem = refl;
      no_reservation = free;
    })
  ]

delegate_cancel : (c : ℕ) (m : Machine) → delegate_to_s c (cancel_reservation m) ≡ delegate_to_s c m
unfolding delegate_to_s cancel_reservation
delegate_cancel c m = refl

pub take_trap-SupervisorEntry :
    (cause trap_value : ℕ) (m : Machine)
    → delegate_to_s cause m ≡ true
    → SupervisorEntry cause trap_value m (take_trap cause trap_value m)
unfolding take_trap cancel_reservation
take_trap-SupervisorEntry cause trap_value m d =
    let e = trap_to_supervisor-SupervisorEntry cause trap_value (cancel_reservation m) refl in
    rw (delegate_cancel cause m ∙ d) (record {
      mode = e.mode;
      epc = e.epc;
      cause_stored = e.cause_stored;
      value_stored = e.value_stored;
      handler = e.handler;
      next = e.next;
      stacked = e.stacked;
      machine_epc = e.machine_epc;
      regs = e.regs;
      mem = e.mem;
      no_reservation = e.no_reservation;
    })

-- From a mode that is not the reserved one, a trap enters supervisor mode exactly if it is
-- delegated, and machine mode otherwise; either entry stores the program counter, the cause and
-- the value, goes to the vector, stacks the mode and the interrupt enable, and keeps the registers
-- and the memory.
pub take_trap_entry :
    (cause trap_value : ℕ) (m : Machine)
    → m.privilege_mode ≢ reserved
    → ((delegate_to_s cause m ≡ true)
        × SupervisorEntry cause trap_value m (take_trap cause trap_value m))
      ⊎ ((delegate_to_s cause m ≡ false)
          × MachineEntry cause trap_value m (take_trap cause trap_value m))
take_trap_entry cause trap_value m ne = elim (Bool-cases (delegate_to_s cause m)) [
  | inl d ↦ inl (d, take_trap-SupervisorEntry cause trap_value m d)
  | inr d ↦ inr (d, take_trap-MachineEntry cause trap_value m ne d)
]

-- An exception is delegated exactly from user and supervisor mode with its bit of medeleg set.
pub delegate_to_s_exception :
    (cause : ℕ) (m : Machine)
    → cause < 32
    → (delegate_to_s cause m ≡ true)
      ↔ ((mode_code m.privilege_mode ≤ 1) × (bit (m.csrs Address.medeleg) cause ≡ 1))
unfolding delegate_to_s Csr.read
delegate_to_s_exception cause m lt =
    let index : bit_and cause 0x7fff_ffff ≡ cause = omega (arith, bit_and_low 31 cause) in
    let top : bit_and cause 0x8000_0000 ≡ 0 = omega (arith, bit_and_field 1 31 cause) in
    rw (index, top) (ground (arith, ne_zero-bit_and (m.csrs Address.medeleg) cause))

-- An interrupt is delegated exactly from user and supervisor mode with its bit of mideleg set.
pub delegate_to_s_interrupt :
    (index : ℕ) (m : Machine)
    → index < 32
    → (delegate_to_s (2 ^ 31 + index) m ≡ true)
      ↔ ((mode_code m.privilege_mode ≤ 1) × (bit (m.csrs Address.mideleg) index ≡ 1))
unfolding delegate_to_s Csr.read
delegate_to_s_interrupt i m lt =
    let index : bit_and (2 ^ 31 + i) 0x7fff_ffff ≡ i = omega (arith, bit_and_low 31 (2 ^ 31 + i)) in
    let top : bit_and (2 ^ 31 + i) 0x8000_0000 ≡ 2 ^ 31 =
      omega (arith, bit_and_field 1 31 (2 ^ 31 + i)) in
    rw (index, top) (ground (arith, ne_zero-bit_and (m.csrs Address.mideleg) i))
