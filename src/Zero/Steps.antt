-- ===== src/Zero/Steps.antt =====
-- The register x0 under every instruction and every run of core/RiscvCpu.cpp: the invariant that asks
-- for nothing more.
use riscv_sym.Base.{ℕ, ◌≡◌, Option, List}
use riscv_sym.State.{Machine, M, final}
use riscv_sym.Instruction.Execute.{execute}
use riscv_sym.Run.File.{execute_from_bin_file}
use riscv_sym.Invariant.File.{machine_of, execute_from_bin_file-Holds}
use riscv_sym.Invariant.Interface.{Invariant}
use riscv_sym.Invariant.Safe.{Safe-Holds}
use riscv_sym.Invariant.Execute

abbrev pub Zero : Machine → Type 0
Zero m = m.regs 0 ≡ 0

-- A command that keeps x0 at 0, also when it throws.
abbrev pub Keeps : {A : Type 0} → M A → Type 0
Keeps c = (m : Machine) → Zero m → Zero (final (c m))

abbrev pub zero_alone : Invariant
zero_alone = record {
  Of = λ mode csrs. Unit;
  Typed = ⊥;
  write-Of = λ mode csrs a v h. h;
  set_mip-Of = λ mode csrs v h. h;
  take_trap-Of = λ cause value m h. h;
  return_from_trap-Of = λ p m h. h;
}

-- Every instruction, from a machine with 0 in x0, leaves 0 in x0, also when it throws.
pub execute-Keeps : (i : ℕ) → Keeps (execute i)
execute-Keeps i m h =
    (Safe-Holds ⦃inv = zero_alone⦄
      (Execute.execute-Keeps ⦃inv = zero_alone⦄ i (λ t. absurd t) m (h, tt, λ t. absurd t))).0

-- From a machine with 0 in x0, executeFromBinFile with any kernel, any start address and any keys
-- leaves 0 in x0, after any number of rounds, also when it returns early and when an exception
-- leaves it.
pub execute_from_bin_file-Zero :
    (fuel start : ℕ) (typed : ℕ → Option ℕ) (file : Option (List ℕ)) (m : Machine)
    → Zero m
    → Zero (machine_of (execute_from_bin_file fuel file start typed m))
execute_from_bin_file-Zero fuel start typed file m x0 =
    (execute_from_bin_file-Holds ⦃inv = zero_alone⦄ fuel start typed (λ t. absurd t)
      (λ j t. absurd t) file m (λ t. absurd t) (x0, tt, λ t. absurd t)).0
