-- ===== src/Instruction/RType/Shift.antt =====
-- core/instruction/RTypeInstruction.cpp: what the shifts by a register do for every count.
use riscv_sym.Base.{ℕ, ◌*◌, ◌/◌, ◌%◌, ◌^◌, ◌<◌, ◌≡◌, ◌==◌, ltb, if◌then◌else◌, Bool, true, arith}
use riscv_sym.Base.Int.{int32, to_word, shift_right}
use riscv_sym.State.{Machine, ok, raise, undefined_shift, update, Outcome}
use riscv_sym.Cpu.{get_register, set_register}
use riscv_sym.Instruction.Decode.{RArguments}
use riscv_sym.Instruction.RType.{execute_sll, execute_srl, execute_sra, shift_by}

-- The fields of an instruction name registers.
abbrev pub IsRArguments : RArguments → Type 0
IsRArguments args = (args.rs1 < 32) × (args.rs2 < 32) × (args.rd < 32)

-- `result` in `rd`, or nothing if `rd` is x0.
abbrev pub with_register : ℕ → ℕ → Machine → Machine
with_register rd result m = if rd == 0 then m else record m { regs = update m.regs rd result }

module _ (args : RArguments) (m : Machine) (h : IsRArguments args) where
  abbrev x : ℕ
  x = m.regs args.rs1

  abbrev count : ℕ
  count = m.regs args.rs2 % 2 ^ 6

  -- What a shift to `result` does: it ends for a count below 32 only.
  abbrev shifted : ℕ → Outcome Bool
  shifted result =
      if ltb count 32 then ok true (with_register args.rd result m) else raise undefined_shift m

  -- SLL, SRL and SRA use six bits of rs2: for a count below 32 they shift and change rd alone, and
  -- a count from 32 to 63 is an undefined shift.
  pub shift_count :
      (execute_sll args m ≡ shifted (x * 2 ^ count % 2 ^ 32))
      × ((execute_srl args m ≡ shifted (x / 2 ^ count))
          × (execute_sra args m ≡ shifted (to_word 32 (shift_right (int32 x) count))))
  unfolding execute_sll execute_srl execute_sra shift_by get_register set_register
  shift_count = ground arith
