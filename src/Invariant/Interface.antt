-- ===== src/Invariant/Interface.antt =====
-- What an invariant of core/RiscvCpu.cpp is asked for: a predicate on the privilege mode and the CSRs
-- that their writers keep, and whether the members have to stay inside their C++ types: `Typed` is
-- what follows from that, and an invariant that asks for none has an empty one.
use riscv_sym.Base.{ℕ}
use riscv_sym.State.{Machine, PrivilegeMode, Csrs}
use riscv_sym.Csr
use riscv_sym.Cpu.{take_trap, return_from_trap}

pub record Invariant : Type 1 where
  pub Of : PrivilegeMode → Csrs → Type 0
  pub Typed : Type 0
  pub write-Of :
      (mode : PrivilegeMode) (csrs : Csrs) (a v : ℕ) → Of mode csrs → Of mode (Csr.write csrs a v)
  pub set_mip-Of :
      (mode : PrivilegeMode) (csrs : Csrs) (v : ℕ) → Of mode csrs → Of mode (Csr.set_mip csrs v)
  pub take_trap-Of :
      (cause value : ℕ) (m : Machine)
      → Of m.privilege_mode m.csrs
      → let m' = take_trap cause value m in Of m'.privilege_mode m'.csrs
  pub return_from_trap-Of :
      (p : PrivilegeMode) (m : Machine)
      → Of m.privilege_mode m.csrs
      → let m' = return_from_trap p m in Of m'.privilege_mode m'.csrs
