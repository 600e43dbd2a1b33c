-- ===== src/Run.antt =====
-- core/RiscvCpu.cpp: one round of the loop of `executeFromBinFile`, the loop itself and `reset`.
-- The trace of the CSRs and the other logs are left out.
pub mod Interrupt
pub mod Command
pub mod File
pub mod Image
pub mod Mode
pub mod Types
pub mod Taken
pub mod Escapes
use riscv_sym.Base.{
  ℕ, zero, suc, ◌+◌, ◌%◌, ◌^◌, ◌*◌, bit_and, bit_or, ◌==◌, ltb, leb, if◌then◌else◌, Bool, true,
  false, Option, none, some, ◌<<<◌, u32, u64, ne_zero, not, ◌&&◌, ◌||◌, not32,
}
use riscv_sym.State.{
  Machine, machine, mode_code, AccessType, instruction_fetch, load, store, ok, raise, Exception,
  page_fault, undefined_read, undefined_overflow, update,
}
use riscv_sym.Csr
use riscv_sym.Csr.Address
use riscv_sym.Cpu.{csr_read, take_trap, cancel_reservation}
use riscv_sym.Cpu.Causes
use riscv_sym.Memory.Uart.{poll_keyboard, is_uart_irq_pending}
use riscv_sym.Memory.Access
use riscv_sym.Memory.Access.{read32}
use riscv_sym.Instruction.CType.{decompress}
use riscv_sym.Instruction.Execute.{execute}

-- `mip |= mask` or `mip &= ~mask`.
abbrev pub put_bits : Bool → ℕ → ℕ → ℕ
put_bits b mask x = if b then bit_or x mask else bit_and x (not32 mask)

-- The pending bits as the timers and the UART set them.
unfoldable pub pending_mip : Machine → ℕ
pending_mip m =
    let stimecmp = bit_or (csr_read m 0x14d) (csr_read m 0x15d <<< 32) in
    let irq = is_uart_irq_pending m.mem in
    put_bits irq (2 ^ 9) (
      put_bits irq (2 ^ 11) (
        put_bits (leb stimecmp m.mem.mtime) (2 ^ 5)
          (put_bits (leb m.mem.mtimecmp m.mem.mtime) (2 ^ 7) (csr_read m Address.mip))))

-- `pc = nextPc`, the clock, and `mip`.
unfoldable pub advance : Machine → Machine
advance m =
    let m' = record m { pc = m.next_pc; mem = record (m.mem) { mtime = u64 (m.mem.mtime + 1) } } in
    record m' { csrs = Csr.set_mip m'.csrs (pending_mip m') }

unfoldable pub m_enabled : Machine → Bool
m_enabled m =
    ltb (mode_code m.privilege_mode) 3
    || (mode_code m.privilege_mode == 3 && ne_zero (bit_and (csr_read m Address.mstatus) (2 ^ 3)))

unfoldable pub s_enabled : Machine → Bool
s_enabled m =
    ltb (mode_code m.privilege_mode) 1
    || (mode_code m.privilege_mode == 1 && ne_zero (bit_and (csr_read m Address.mstatus) (2 ^ 1)))

-- The first of three interrupts that is pending.
abbrev first_pending : ℕ → ℕ → ℕ → ℕ → Option ℕ
first_pending pending external software timer =
    if ne_zero (bit_and pending (2 ^ external))
    then some external
    else if ne_zero (bit_and pending (2 ^ software))
    then some software
    else if ne_zero (bit_and pending (2 ^ timer))
    then some timer
    else none

-- `interrupt_cause`; `none` is the 0xffffffff of the source.
unfoldable pub interrupt_cause : Machine → Option ℕ
interrupt_cause m =
    let pending = bit_and (csr_read m Address.mip) (csr_read m Address.mie) in
    let for_machine : Option ℕ = if m_enabled m then first_pending pending 11 3 7 else none in
    elim for_machine [
      | some c ↦ some c
      | none ↦ if s_enabled m then first_pending pending 9 1 5 else none
    ]

-- What follows an instruction.
unfoldable pub after_instruction : Machine → Machine
after_instruction m =
    let m' = advance m in
    elim (interrupt_cause m') [ some c ↦ take_trap (bit_or 0x8000_0000 c) 0 m' | none ↦ m' ]

-- How a round ends: with the loop going on, by `break`, or by an exception that nothing catches.
pub data Round : Type 0 where
  next : Machine → Round
  stop : Machine → Round
  escape : Exception → Machine → Round

unfoldable pub page_fault_cause : AccessType → ℕ
page_fault_cause instruction_fetch = Causes.instruction_page_fault
page_fault_cause load = Causes.load_page_fault
page_fault_cause store = Causes.store_page_fault

-- The `catch`.
unfoldable pub handle : Exception → Machine → Round
handle (page_fault vaddr type) m = next (take_trap (page_fault_cause type) vaddr m)
handle e m = escape e m

-- The `try` block behind the fetch.
unfoldable pub run_instruction : ℕ → Machine → Round
run_instruction raw_instruction m =
    let is_compressed = not (bit_and raw_instruction 3 == 3) in
    let m' = record m { next_pc = u32 (m.pc + (if is_compressed then 2 else 4)) } in
    let binary_instruction =
      if is_compressed then decompress (bit_and raw_instruction 0xffff) else raw_instruction in
    if binary_instruction == 0 && m'.pc == 0
    then stop m'
    else elim (execute binary_instruction m') [
      | ok true m'' ↦ next (after_instruction m'')
      | ok false m'' ↦ next (take_trap Causes.illegal_instruction raw_instruction m'')
      | raise e m'' ↦ handle e m''
    ]

-- The body of the loop at index `i`; `typed` is what the keyboard has for the poll.
unfoldable pub round : ℕ → Option ℕ → Machine → Round
round i typed m =
    if m.shutdown_requested
    then stop m
    else (let m' = if i % 100000 == 0 then record m { mem = poll_keyboard typed m.mem } else m in
        elim (read32 m'.pc true m') [
          | ok raw_instruction m'' ↦ run_instruction raw_instruction m''
          | raise e m'' ↦ handle e m''
        ])

-- The loop from index `i` for at most `fuel` rounds; `next` at the end is a loop still running. No
-- round begins behind what C++ leaves undefined: a read behind the disk, or the overflow of the int
-- `i`.
unfoldable pub run : ℕ → ℕ → (ℕ → Option ℕ) → Machine → Round
run zero i typed m = next m
run (suc fuel) i typed m =
    let rest = λ (m : Machine). run fuel (i + 1) typed m in
    if m.mem.undefined_read
    then escape undefined_read m
    else if leb (2 ^ 31) i
    then escape undefined_overflow m
    else elim (round i (typed i) m) [
      | next m' ↦ rest m'
      | stop m' ↦ stop m'
      | escape e m' ↦ escape e m'
    ]

-- `RiscvCpu::reset`.
unfoldable pub reset : Machine → Machine
reset m = cancel_reservation (record m {
  privilege_mode = machine;
  regs = update (λ _. 0) 2 (0x8000_0000 + 1024 * 1024);
  pc = 0x8000_0000;
  mem = Access.reset m.mem;
  csrs = Csr.reset;
})

unfoldable pub reset_gui : Machine → Machine
reset_gui m = record m { regs = λ _. 0; pc = 0; mem = Access.reset m.mem }
