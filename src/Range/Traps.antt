-- ===== src/Range/Traps.antt =====
-- core/CsrUnit.cpp and the traps of core/RiscvCpu.cpp stay inside uint32_t.
use riscv_sym.Base.{
  ℕ, ◌/◌, ◌^◌, ◌<◌, arith, bit_and, bit_or, not32, leb, ◌==◌, ◌||◌, ne_zero, false,
}
use riscv_sym.Base.Bits.Laws.{bit_and-lt, bit_or-lt}
use riscv_sym.Base.Bits.Field.{bit_and_low, bit_and-lt_right}
use riscv_sym.State.{PrivilegeMode, user, supervisor, reserved, machine, mode_code, Csrs, Machine}
use riscv_sym.Csr
use riscv_sym.Csr.Address
use riscv_sym.Csr.Laws.{IsValid, write-IsValid}
use riscv_sym.Cpu.{
  csr_read, csr_write, take_trap, delegate_to_s, cancel_reservation, trap_to_supervisor,
  trap_to_machine, enter_handler, trap_sstatus, trap_mstatus, return_from_trap,
  return_from_supervisor, return_from_machine,
}
use riscv_sym.Range.Defs.{InRange, either}

pub read-lt : (mtime : ℕ) (csrs : Csrs) (a : ℕ) → IsValid csrs → Csr.read mtime csrs a < 2 ^ 32
unfolding Csr.read Csr.read_register
read-lt mtime csrs a h =
    let P : ℕ → Type 0 = λ v. v < 2 ^ 32 in
    either P (leb 4096 a) _ _ (omega arith) (
      either P (a == 0xc00 || (a == 0xc01 || a == 0xc02)) _ _ (omega arith) (
        either P (a == 0xc80 || (a == 0xc81 || a == 0xc82)) _ _ (omega arith) (
          either P (a == Address.sstatus) _ _ (bit_and-lt 32 _ _ (h.words Address.mstatus)) (
            either P (a == Address.sie) _ _ (bit_and-lt 32 _ _ (h.words Address.mie)) (
              either P (a == Address.sip) _ _ (bit_and-lt 32 _ _ (h.words Address.mip))
                (h.words a))))))

-- `sip` may be written with any number: a mask of words cuts it.
sip-IsValid : (csrs : Csrs) (value : ℕ) → IsValid csrs → IsValid (Csr.write csrs Address.sip value)
unfolding Csr.write Csr.write_register Csr.merge
sip-IsValid csrs value h =
    let mask : ℕ = bit_and (csrs Address.mideleg) 0x222 in
    let mip : ℕ = bit_or (bit_and (csrs Address.mip) (not32 mask)) (bit_and value mask) in
    let mip-lt : mip < 2 ^ 32 =
      bit_or-lt 32 _ _ (bit_and-lt 32 _ _ (h.words Address.mip))
        (bit_and-lt_right 32 value mask (bit_and-lt 32 _ _ (h.words Address.mideleg))) in
    record { words = λ a. ground (arith, h.words a, mip-lt); not_reserved = h.not_reserved }

mode_bits-lt : (mode : PrivilegeMode) → mode_code mode < 4
mode_bits-lt user = omega arith
mode_bits-lt supervisor = omega arith
mode_bits-lt reserved = omega arith
mode_bits-lt machine = omega arith

module _ (s : ℕ) (hs : s < 2 ^ 32) where
  -- A status word with two small fields set anew.
  status-lt :
      (keep a b : ℕ) → a < 2 ^ 32 → b < 2 ^ 32 → bit_or (bit_or (bit_and s keep) a) b < 2 ^ 32
  status-lt keep a b ha hb = bit_or-lt 32 _ b (bit_or-lt 32 _ a (bit_and-lt 32 s keep hs) ha) hb

  trap_sstatus-lt : (mode : PrivilegeMode) → trap_sstatus s mode < 2 ^ 32
  unfolding trap_sstatus
  trap_sstatus-lt mode =
      status-lt _ _ _ (omega (arith, bit_and_low 1 (s / 2 ^ 1)))
        (omega (arith, bit_and_low 1 (mode_code mode)))

  trap_mstatus-lt : (mode : PrivilegeMode) → trap_mstatus s mode < 2 ^ 32
  unfolding trap_mstatus
  trap_mstatus-lt mode =
      status-lt _ _ _ (omega (arith, bit_and_low 1 (s / 2 ^ 3)))
        (omega (arith, bit_and_low 2 (mode_code mode)))

module _ (m : Machine) (h : InRange m) where
  -- The CSRs anew, the program counter or the mode.
  pub csrs-InRange : (csrs : Csrs) → IsValid csrs → InRange (record m { csrs = csrs })
  csrs-InRange csrs hc = record {
    regs = h.regs;
    pc = h.pc;
    next_pc = h.next_pc;
    csrs = hc;
    reservation = h.reservation;
    mem = h.mem;
  }

  pub jump-InRange :
      (pc next_pc : ℕ) (mode : PrivilegeMode)
      → pc < 2 ^ 32
      → next_pc < 2 ^ 32
      → InRange (record m { pc = pc; next_pc = next_pc; privilege_mode = mode })
  jump-InRange pc next_pc mode hp hn = record {
    regs = h.regs;
    pc = hp;
    next_pc = hn;
    csrs = h.csrs;
    reservation = h.reservation;
    mem = h.mem;
  }

  pub csr_read-lt : (a : ℕ) → csr_read m a < 2 ^ 32
  csr_read-lt a = read-lt m.mem.mtime m.csrs a h.csrs

  pub csr_write-InRange : (a v : ℕ) → v < 2 ^ 32 → InRange (csr_write a v m)
  csr_write-InRange a v hv = csrs-InRange _ (write-IsValid m.csrs h.csrs a v hv)

  handler-InRange : (mode : PrivilegeMode) (tvec : ℕ) → InRange (enter_handler mode tvec m)
  unfolding enter_handler
  handler-InRange mode tvec =
      let handler-lt = bit_and-lt 32 _ (not32 3) (csr_read-lt tvec) in
      jump-InRange _ _ mode handler-lt handler-lt

module _ (cause value : ℕ) (hc : cause < 2 ^ 32) (hv : value < 2 ^ 32) where
  -- The program counter, the cause and the value, and the status behind them.
  stored-InRange :
      (epc ecause tval status : ℕ) (next : ℕ → PrivilegeMode → ℕ) (m : Machine)
      → ((s : ℕ) (mode : PrivilegeMode) → s < 2 ^ 32 → next s mode < 2 ^ 32)
      → InRange m
      → let m2 = csr_write tval value (csr_write ecause cause (csr_write epc m.pc m)) in
        InRange (csr_write status (next (csr_read m2 status) m2.privilege_mode) m2)
  stored-InRange epc ecause tval status next m hn h =
      let h1 = csr_write-InRange m h epc m.pc h.pc in
      let h2 = csr_write-InRange _ h1 ecause cause hc in
      let h3 = csr_write-InRange _ h2 tval value hv in
      csr_write-InRange _ h3 status _ (hn _ _ (csr_read-lt _ h3 status))

  to_supervisor-InRange : (m : Machine) → InRange m → InRange (trap_to_supervisor cause value m)
  unfolding trap_to_supervisor
  to_supervisor-InRange m h =
      let taken = csrs-InRange m h _ (sip-IsValid m.csrs _ h.csrs) in
      handler-InRange _
        (stored-InRange Address.sepc Address.scause Address.stval Address.sstatus trap_sstatus _
          (λ s mode hs. trap_sstatus-lt s hs mode)
          (either InRange (ne_zero (bit_and cause 0x8000_0000)) _ m taken h))
        supervisor Address.stvec

  to_machine-InRange : (m : Machine) → InRange m → InRange (trap_to_machine cause value m)
  unfolding trap_to_machine
  to_machine-InRange m h =
      handler-InRange _
        (stored-InRange Address.mepc Address.mcause Address.mtval Address.mstatus trap_mstatus m
          (λ s mode hs. trap_mstatus-lt s hs mode) h)
        machine Address.mtvec

  pub take_trap-InRange : (m : Machine) → InRange m → InRange (take_trap cause value m)
  unfolding take_trap cancel_reservation
  take_trap-InRange m h =
      let m' : Machine = record m { reservation_valid = false } in
      let h' : InRange m' = record {
        regs = h.regs;
        pc = h.pc;
        next_pc = h.next_pc;
        csrs = h.csrs;
        reservation = h.reservation;
        mem = h.mem;
      } in
      either InRange (delegate_to_s cause m') _ _ (to_supervisor-InRange m' h')
        (to_machine-InRange m' h')

pub return_from_trap-InRange :
    (p : PrivilegeMode) (m : Machine) → InRange m → InRange (return_from_trap p m)
unfolding return_from_trap return_from_supervisor return_from_machine
return_from_trap-InRange user m h = h
return_from_trap-InRange reserved m h = h
return_from_trap-InRange supervisor m h =
    let s : ℕ = csr_read m Address.mstatus in
    let pc = csr_read-lt m h Address.sepc in
    csr_write-InRange _ (jump-InRange m h _ _ _ pc pc) Address.mstatus _ (
      status-lt s (csr_read-lt m h Address.mstatus) _ _ _ (omega (arith, bit_and_low 1 (s / 2 ^ 5)))
        (omega arith))
return_from_trap-InRange machine m h =
    let s : ℕ = csr_read m Address.mstatus in
    let pc = csr_read-lt m h Address.mepc in
    csr_write-InRange _ (jump-InRange m h _ _ _ pc pc) Address.mstatus _ (
      status-lt s (csr_read-lt m h Address.mstatus) _ _ _ (omega (arith, bit_and_low 1 (s / 2 ^ 7)))
        (omega arith))
