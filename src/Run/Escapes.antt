-- ===== src/Run/Escapes.antt =====
-- core/RiscvCpu.cpp: what leaves the loop of `executeFromBinFile` as an exception.
use riscv_sym.Base.{ℕ, ◌≡◌, Option}
use riscv_sym.State.{Machine}
use riscv_sym.Run.{run}
use riscv_sym.Zero.Steps.{zero_alone}
use riscv_sym.Invariant.Steps.{Ends, run-Holds}

-- From a machine with 0 in x0, for any number of rounds, any input and any memory, the loop throws
-- no std::out_of_range, so the at of the register file stays inside it, and no page fault leaves
-- it: what may end it from inside is a shift of 32 or more, the checksum of a block that is read
-- behind the disk, an index of 2 ^ 31 and the reading of a string without an end.
pub run-Ends :
    (fuel i : ℕ) (typed : ℕ → Option ℕ) (m : Machine) → m.regs 0 ≡ 0 → Ends (run fuel i typed m)
run-Ends fuel i typed m x0 =
    (run-Holds ⦃inv = zero_alone⦄ fuel i typed m (λ j t. absurd t) (x0, tt, λ t. absurd t)).1
