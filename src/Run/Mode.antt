-- ===== src/Run/Mode.antt =====
-- core/RiscvCpu.cpp: the privilege mode over a whole run.
use riscv_sym.Base.{ℕ, ◌≡◌, Option, List}
use riscv_sym.State.{Machine}
use riscv_sym.Csr.Laws.{write-not_reserved, set_mip-not_reserved}
use riscv_sym.Cpu.Mode.{IsLegal, take_trap-IsLegal, return_from_trap-IsLegal}
use riscv_sym.Run.File.{execute_from_bin_file}
use riscv_sym.Invariant.File.{machine_of, execute_from_bin_file-Holds}
use riscv_sym.Invariant.Interface.{Invariant}

abbrev legal : Invariant
legal = record {
  Of = IsLegal;
  Typed = ⊥;
  write-Of = λ mode csrs a v h. (h.0, write-not_reserved csrs a v h.1);
  set_mip-Of = λ mode csrs v h. (h.0, set_mip-not_reserved csrs v h.1);
  take_trap-Of = take_trap-IsLegal;
  return_from_trap-Of = return_from_trap-IsLegal;
}

-- From a machine with 0 in x0, outside the reserved privilege mode and with an MPP of mstatus that
-- does not name it, executeFromBinFile with any kernel, any start address and any keys ends in
-- such a mode with such an MPP, after any number of rounds, also when it returns early and when an
-- exception leaves it.
pub execute_from_bin_file-IsLegal :
    (fuel start : ℕ) (typed : ℕ → Option ℕ) (file : Option (List ℕ)) (m : Machine)
    → m.regs 0 ≡ 0
    → IsLegal m.privilege_mode m.csrs
    → let m' = machine_of (execute_from_bin_file fuel file start typed m) in
      IsLegal m'.privilege_mode m'.csrs
execute_from_bin_file-IsLegal fuel start typed file m x0 h =
    (execute_from_bin_file-Holds ⦃inv = legal⦄ fuel start typed (λ t. absurd t) (λ j t. absurd t)
      file m (λ t. absurd t) (x0, h, λ t. absurd t)).1
