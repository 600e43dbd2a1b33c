-- ===== src/Cpu.antt =====
-- core/RiscvCpu.cpp: registers, the reservation of LR/SC, traps and the return from them. The
-- logs are left out. `Run` has the execution loop.
pub mod Causes
pub mod Trap
pub mod Delegate
pub mod Return
pub mod Resume
pub mod Mode
pub mod Reservation
use riscv_sym.Base.{
  ℕ, ◌+◌, ◌-◌, ◌*◌, ◌/◌, ◌%◌, ◌^◌, bit_and, bit_or, ltb, leb, ◌==◌, if◌then◌else◌, Bool, true,
  false, ◌&&◌, ◌||◌, not32, ne_zero, u32, ◌>>>◌, ◌<<<◌,
}
use riscv_sym.State.{
  PrivilegeMode, machine, supervisor, mode_code, to_mode, update, Machine, M, pure, throw,
  out_of_range, modify, gets,
}
use riscv_sym.Csr
use riscv_sym.Csr.Address

-- `_regs.at(registerIndex)`.
unfoldable pub get_register : ℕ → M ℕ
get_register register_index m =
    if ltb register_index 32 then pure (m.regs register_index) m else throw out_of_range m

unfoldable pub set_register : ℕ → ℕ → M (Unit {0})
set_register register_index register_value m =
    if register_index == 0
    then pure tt m
    else if ltb register_index 32
    then pure tt (record m { regs = update m.regs register_index register_value })
    else throw out_of_range m

abbrev pub set_pc : ℕ → Machine → Machine
set_pc pc_value m = record m { pc = pc_value }

abbrev pub set_next_pc : ℕ → Machine → Machine
set_next_pc val m = record m { next_pc = val }

abbrev pub set_privilege_mode : PrivilegeMode → Machine → Machine
set_privilege_mode mode m = record m { privilege_mode = mode }

abbrev pub request_shutdown : Bool → Machine → Machine
request_shutdown shutdown m = record m { shutdown_requested = shutdown }

-- `_csrUnit.read` and `_csrUnit.write`.
abbrev pub csr_read : Machine → ℕ → ℕ
csr_read m address = Csr.read m.mem.mtime m.csrs address

abbrev pub csr_write : ℕ → ℕ → Machine → Machine
csr_write address value m = record m { csrs = Csr.write m.csrs address value }

-- A store cancels a reservation whose four bytes it overlaps. The ends are 64-bit sums.
unfoldable pub notify_store : ℕ → ℕ → Machine → Machine
notify_store address size m =
    if m.reservation_valid
      && (ltb address (m.reservation_address + 4) && ltb m.reservation_address (address + size))
    then record m { reservation_valid = false }
    else m

unfoldable pub make_reservation : ℕ → Machine → Machine
make_reservation physical_address m = record m {
  reservation_address = physical_address;
  reservation_valid = true;
}

unfoldable pub check_and_clear_reservation : ℕ → Machine → Bool × Machine
check_and_clear_reservation physical_address m = (
  m.reservation_valid && m.reservation_address == physical_address,
  record m { reservation_valid = false },
)

unfoldable pub cancel_reservation : Machine → Machine
cancel_reservation m = record m { reservation_valid = false }

-- The register that delegates a cause, for an interrupt and for an exception.
unfoldable pub delegate_to_s : ℕ → Machine → Bool
delegate_to_s raw_cause m =
    let cause_index = bit_and raw_cause 0x7fff_ffff in
    let is_interrupt = ne_zero (bit_and raw_cause 0x8000_0000) in
    if leb (mode_code m.privilege_mode) 1
    then (if is_interrupt
        then ne_zero (bit_and (csr_read m Address.mideleg) (1 <<< cause_index))
        else ne_zero (bit_and (csr_read m Address.medeleg) (1 <<< cause_index)))
    else false

-- `sstatus` on the way into supervisor mode: SPIE takes SIE, SIE is cleared, SPP takes the mode.
unfoldable pub trap_sstatus : ℕ → PrivilegeMode → ℕ
trap_sstatus sstatus mode =
    let spp = bit_and (mode_code mode) 1 in
    let sie_bit = bit_and (sstatus >>> 1) 1 in
    bit_or (bit_or (bit_and sstatus (not32 (2 ^ 1 + 2 ^ 5 + 2 ^ 8))) (sie_bit <<< 5)) (spp <<< 8)

-- `mstatus` on the way into machine mode: MPIE takes MIE, MIE is cleared, MPP takes the mode.
unfoldable pub trap_mstatus : ℕ → PrivilegeMode → ℕ
trap_mstatus mstatus mode =
    let mpp = bit_and (mode_code mode) 3 in
    let mie = bit_and (mstatus >>> 3) 1 in
    bit_or (bit_or (bit_and mstatus (not32 (2 ^ 3 + 2 ^ 7 + 3 * 2 ^ 11))) (mie <<< 7)) (mpp <<< 11)

-- The last two lines of either branch: enter the handler of a trap vector.
unfoldable pub enter_handler : PrivilegeMode → ℕ → Machine → Machine
enter_handler mode tvec m =
    let handler = bit_and (csr_read m tvec) (not32 3) in
    record m { privilege_mode = mode; pc = handler; next_pc = handler }

unfoldable pub trap_to_supervisor : ℕ → ℕ → Machine → Machine
unfolding enter_handler
trap_to_supervisor raw_cause trap_value m =
    let is_interrupt = ne_zero (bit_and raw_cause 0x8000_0000) in
    let cause_index = bit_and raw_cause 0x7fff_ffff in
    let m1 = if is_interrupt then csr_write Address.sip (1 <<< cause_index) m else m in
    let m2 =
      csr_write Address.stval trap_value
        (csr_write Address.scause raw_cause (csr_write Address.sepc m1.pc m1)) in
    let m3 =
      csr_write Address.sstatus (trap_sstatus (csr_read m2 Address.sstatus) m2.privilege_mode) m2 in
    enter_handler supervisor Address.stvec m3

unfoldable pub trap_to_machine : ℕ → ℕ → Machine → Machine
unfolding enter_handler
trap_to_machine raw_cause trap_value m =
    let m2 =
      csr_write Address.mtval trap_value
        (csr_write Address.mcause raw_cause (csr_write Address.mepc m.pc m)) in
    let m3 =
      csr_write Address.mstatus (trap_mstatus (csr_read m2 Address.mstatus) m2.privilege_mode) m2 in
    enter_handler machine Address.mtvec m3

unfoldable pub take_trap : ℕ → ℕ → Machine → Machine
take_trap cause trap_value m =
    let m' = cancel_reservation m in
    if delegate_to_s cause m'
    then trap_to_supervisor cause trap_value m'
    else trap_to_machine cause trap_value m'

-- The branch of `returnFromTrap` for supervisor mode.
unfoldable pub return_from_supervisor : Machine → Machine
return_from_supervisor m =
    let mstatus = csr_read m Address.mstatus in
    let sepc = csr_read m Address.sepc in
    let sie_bit = bit_and (mstatus >>> 5) 1 <<< 1 in
    csr_write Address.mstatus (bit_or (bit_or (bit_and mstatus (not32 0x122)) sie_bit) (2 ^ 5))
      (record m { pc = sepc; next_pc = sepc; privilege_mode = to_mode (bit_and (mstatus >>> 8) 1) })

unfoldable pub return_from_machine : Machine → Machine
return_from_machine m =
    let mstatus = csr_read m Address.mstatus in
    let mepc = csr_read m Address.mepc in
    let mie_bit = bit_and (mstatus >>> 7) 1 <<< 3 in
    csr_write Address.mstatus (bit_or (bit_or (bit_and mstatus (not32 0x1888)) mie_bit) (2 ^ 7))
      (record m {
        pc = mepc;
        next_pc = mepc;
        privilege_mode = to_mode (bit_and (mstatus >>> 11) 3);
      })

unfoldable pub return_from_trap : PrivilegeMode → Machine → Machine
return_from_trap supervisor m = return_from_supervisor m
return_from_trap machine m = return_from_machine m
return_from_trap _ m = m
