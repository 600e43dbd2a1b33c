-- ===== src/Cpu/Mode.antt =====
-- core/RiscvCpu.cpp: traps and returns never lead to the reserved privilege mode.
use riscv_sym.Base.{
  ℕ, ◌/◌, ◌%◌, ◌^◌, ◌≡◌, ◌≢◌, if◌then◌else◌, Bool, true, false, arith, bit_and, refl, ◌>>>◌,
}
use riscv_sym.Base.Bits.Field.{bit_and_low}
use riscv_sym.State.{Machine, PrivilegeMode, Csrs, to_mode, machine, supervisor, user, reserved}
use riscv_sym.Csr
use riscv_sym.Csr.Address
use riscv_sym.Csr.Laws.{write-not_reserved}
use riscv_sym.Cpu.{
  csr_read, csr_write, take_trap, cancel_reservation, delegate_to_s, trap_to_supervisor,
  trap_to_machine, enter_handler, return_from_trap, return_from_supervisor, return_from_machine,
}

-- Neither the mode nor the mode to return to is the reserved one.
abbrev pub IsLegal : PrivilegeMode → Csrs → Type 0
IsLegal mode csrs = (mode ≢ reserved) × (csrs Address.mstatus / 2 ^ 11 % 4 ≢ 2)

read_mstatus : (m : Machine) → csr_read m Address.mstatus ≡ m.csrs Address.mstatus
unfolding Csr.read Csr.read_register
read_mstatus m = refl

abbrev NotReserved : Csrs → Type 0
NotReserved csrs = csrs Address.mstatus / 2 ^ 11 % 4 ≢ 2

interrupt-NotReserved :
    (b : Bool) (a v : ℕ) (m : Machine)
    → NotReserved m.csrs
    → NotReserved ((if b then csr_write a v m else m).csrs)
interrupt-NotReserved true a v m h = write-not_reserved m.csrs a v h
interrupt-NotReserved false a v m h = h

trap_to_supervisor-IsLegal :
    (cause value : ℕ) (m : Machine)
    → NotReserved m.csrs
    → let m' = trap_to_supervisor cause value m in IsLegal m'.privilege_mode m'.csrs
unfolding trap_to_supervisor enter_handler
trap_to_supervisor-IsLegal cause value m h = (
  cc,
  write-not_reserved _ _ _ (
      write-not_reserved _ _ _
        (write-not_reserved _ _ _ (write-not_reserved _ _ _ (interrupt-NotReserved _ _ _ m h)))),
)

trap_to_machine-IsLegal :
    (cause value : ℕ) (m : Machine)
    → NotReserved m.csrs
    → let m' = trap_to_machine cause value m in IsLegal m'.privilege_mode m'.csrs
unfolding trap_to_machine enter_handler
trap_to_machine-IsLegal cause value m h = (
  cc,
  write-not_reserved _ _ _
      (write-not_reserved _ _ _ (write-not_reserved _ _ _ (write-not_reserved _ _ _ h))),
)

pub take_trap-IsLegal :
    (cause value : ℕ) (m : Machine)
    → IsLegal m.privilege_mode m.csrs
    → let m' = take_trap cause value m in IsLegal m'.privilege_mode m'.csrs
unfolding take_trap cancel_reservation
take_trap-IsLegal cause value m (_, h) = go (delegate_to_s cause m')
  where
    m' : Machine
    m' = cancel_reservation m

    go :
        (b : Bool)
        → let n = if b then trap_to_supervisor cause value m' else trap_to_machine cause value m' in
          IsLegal n.privilege_mode n.csrs
    go true = trap_to_supervisor-IsLegal cause value m' (unfold cancel_reservation in h)
    go false = trap_to_machine-IsLegal cause value m' (unfold cancel_reservation in h)

to_mode-not_reserved : (n : ℕ) → n ≢ 2 → to_mode n ≢ reserved
to_mode-not_reserved n h = ground arith

pub return_from_trap-IsLegal :
    (p : PrivilegeMode) (m : Machine)
    → IsLegal m.privilege_mode m.csrs
    → let m' = return_from_trap p m in IsLegal m'.privilege_mode m'.csrs
unfolding return_from_trap return_from_supervisor return_from_machine
return_from_trap-IsLegal user m h = h
return_from_trap-IsLegal reserved m h = h
return_from_trap-IsLegal supervisor m (_, h) =
    let mstatus : ℕ = csr_read m Address.mstatus in
    (
      to_mode-not_reserved (bit_and (mstatus >>> 8) 1)
          (ground (arith, bit_and_low 1 (mstatus >>> 8))),
      write-not_reserved _ _ _ h,
    )
return_from_trap-IsLegal machine m (_, h) =
    let mstatus : ℕ = csr_read m Address.mstatus in
    (
      to_mode-not_reserved (bit_and (mstatus >>> 11) 3)
          (ground (arith, bit_and_low 2 (mstatus >>> 11), read_mstatus m)),
      write-not_reserved _ _ _ h,
    )
