-- ===== src/Examples/TrapExamples.antt =====
-- Examples for traps, interrupts and the reservation.
use riscv_sym.Base.{
  ℕ, ◌≢◌, ◌==◌, inl, inr, if◌then◌else◌, ◌+◌, ◌^◌, ◌≡◌, ◌≤◌, ◌↔◌, ◌⊎◌, arith, refl, true, false,
  none, some,
}
use riscv_sym.Base.Bits.{bit}
use riscv_sym.State.{Machine, reserved, user, update}
use riscv_sym.Csr
use riscv_sym.Csr.Address
use riscv_sym.Cpu.{
  take_trap, delegate_to_s, return_from_trap, check_and_clear_reservation, notify_store,
  make_reservation,
}
use riscv_sym.Cpu.Trap.{MachineEntry}
use riscv_sym.Cpu.Delegate.{SupervisorEntry, take_trap_entry, delegate_to_s_exception}
use riscv_sym.Cpu.Return.{Resumed}
use riscv_sym.Cpu.Resume.{return_from_trap-take_trap}
use riscv_sym.Cpu.Reservation.{Disjoint, check-notify-make}
use riscv_sym.Run.{interrupt_cause, m_enabled}
use riscv_sym.Run.Interrupt.{Ready, Open, interrupt_cause-Ready, interrupt_cause-none}
use riscv_sym.Run.{round, next, advance, pending_mip}
use riscv_sym.Run.Taken.{Entered, Executes, round-Ready}
use riscv_sym.Memory.Access.{read32}
use riscv_sym.Memory.Translate.{translate_address, effective_mode}
use riscv_sym.Memory.Physical.{read32_physical, ram_read32, join_bytes}
use riscv_sym.Memory.Mmio.{handle_mmio_read}
use riscv_sym.Memory.Pages.{get_memory_ptr, load_byte}
use riscv_sym.Memory.Uart.{is_uart_irq_pending}
use riscv_sym.Instruction.Execute
use riscv_sym.Instruction.IType
use riscv_sym.Instruction.Decode.{i_arguments, i_imm}
use riscv_sym.Cpu.{get_register, set_register}
use riscv_sym.Examples.Machines.{start, in_mode, empty_memory}

-- A load page fault in user mode, which is delegated.
take_trap_entry_example :
    ((delegate_to_s 13 (in_mode user) ≡ true)
      × SupervisorEntry 13 0x4000 (in_mode user) (take_trap 13 0x4000 (in_mode user)))
    ⊎ ((delegate_to_s 13 (in_mode user) ≡ false)
        × MachineEntry 13 0x4000 (in_mode user) (take_trap 13 0x4000 (in_mode user)))
take_trap_entry_example = take_trap_entry 13 0x4000 (in_mode user) (ground arith)

delegate_to_s_exception_example :
    (delegate_to_s 13 (in_mode user) ≡ true) ↔ ((0 ≤ 1) × (bit (2 ^ 13) 13 ≡ 1))
delegate_to_s_exception_example = delegate_to_s_exception 13 (in_mode user) (omega arith)

-- The same page fault, from whose handler `sret` goes back.
return_from_trap-take_trap_example :
    let m = in_mode user in
    let entered = take_trap 13 0x4000 m in
    let m' = return_from_trap entered.privilege_mode entered in
    let enable : ℕ = if delegate_to_s 13 m then 1 else 3 in
    Resumed m m' × (bit (m'.csrs Address.mstatus) enable ≡ bit (m.csrs Address.mstatus) enable)
return_from_trap-take_trap_example =
    return_from_trap-take_trap 13 0x4000 (in_mode user) (ground arith)

abbrev place : ℕ
place = 64

check-notify-make_example :
    let after =
      check_and_clear_reservation place (notify_store 72 4 (make_reservation place start)) in
    ((after.0 ≡ true) ↔ ((place ≡ place) × Disjoint 72 4 place))
    × ((q : ℕ) → (check_and_clear_reservation q after.1).0 ≡ false)
check-notify-make_example = check-notify-make place place 72 4 start (omega arith)

-- The timer interrupt is pending and enabled, in user mode.
abbrev ticking : Machine
ticking = record (in_mode user) {
  csrs = update (update (λ _. 0) Address.mip (2 ^ 7)) Address.mie (2 ^ 7);
}

abbrev timer : ℕ
timer = 7

interrupt_cause-Ready_example : Ready ticking timer × Open ticking timer
interrupt_cause-Ready_example =
    interrupt_cause-Ready ticking timer (unfold interrupt_cause m_enabled Csr.read in refl)

interrupt_cause-none_example :
    (interrupt_cause start ≡ none) ↔ ((c : ℕ) → Open start c → ¬ Ready start c)
interrupt_cause-none_example = interrupt_cause-none start

-- User mode at `addi x0, x0, 0`, with the timer's interrupt enabled and its time reached.
abbrev waiting : Machine
waiting = record (in_mode user) {
  csrs = update (λ _. 0) Address.mie (2 ^ 7);
  mem = record empty_memory {
    pages = λ k. if k == 0x8_0000 then some (λ j. if j == 0 then 0x13 else 0) else none;
    mtimecmp = 0;
  };
}

abbrev waited : Machine
waited = record waiting { next_pc = 0x8000_0004 }

waiting-Executes : Executes 1 none waiting 0x13 waiting waited
unfolding read32 translate_address effective_mode read32_physical handle_mmio_read ram_read32
    get_memory_ptr load_byte join_bytes Execute.execute IType.execute_arithmetic IType.execute_addi
    i_arguments i_imm get_register set_register
waiting-Executes = record { running = refl; fetch = refl; not_the_end = refl; executed = refl }

timer-Ready : Ready (advance waited) 7
unfolding advance pending_mip is_uart_irq_pending Csr.read Csr.read_register Csr.set_mip
timer-Ready = (refl, refl)

timer-Open : Open (advance waited) 7
unfolding advance m_enabled
timer-Open = inl (inl (λ f. cc), inr (inr refl))

timer_legal : (advance waited).privilege_mode ≢ reserved
unfolding advance
timer_legal = ground arith

round-Ready_example :
    (c' : ℕ) × (m' : Machine) × Open (advance waited) c'
    × Ready (advance waited) c'
    × (round 1 none waiting ≡ next m')
    × Entered (2 ^ 31 + c') (advance waited) m'
round-Ready_example =
    round-Ready 1 none waiting 0x13 waiting waited 7 waiting-Executes timer_legal timer-Open
      timer-Ready
