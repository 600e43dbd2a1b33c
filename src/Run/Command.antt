-- ===== src/Run/Command.antt =====
-- core/RiscvCpu.cpp: one line of assembly at the prompt. What an instruction leaves in the
-- `InstructionOutput`, its log and the lists of registers and memory cells, is left out.
use riscv_sym.Base.{ℕ, ◌==◌, if◌then◌else◌, ◌++◌}
use riscv_sym.Base.Int.{ℤ, pos, negsuc}
use riscv_sym.State.{M, pure, ◌>>=◌}
use riscv_sym.Assembler.Text.{Text, codes}
use riscv_sym.Assembler.Attempt.{InstructionOutput}
use riscv_sym.Assembler.Compile.{compile}
use riscv_sym.Instruction.Execute.{execute}

unfoldable pub get_binary_instruction_from_asm_command :
    Text → InstructionOutput → ℕ × InstructionOutput
get_binary_instruction_from_asm_command asm_command instruction_output =
    let (binary_instruction, out) = compile asm_command instruction_output in
    let message =
      codes "Error converting `" ++ (asm_command ++ (codes "` to binary: " ++ out.console_log)) in
    (
      binary_instruction,
      if binary_instruction == 0 then record out { console_log = message } else out,
    )

-- What is returned, and the `InstructionOutput` behind it: both fields of a refused line; of a line
-- that is executed only the exit code, since the instruction puts a log of its own over `consoleLog`.
pub data Answer : Type 0 where
  refused : ℕ → InstructionOutput → Answer
  performed : ℕ → ℤ → Answer

-- What `execute` returns is dropped.
unfoldable pub execute_asm_command : Text → InstructionOutput → M Answer
execute_asm_command command instruction_output =
    let (binary_instruction, out) =
      get_binary_instruction_from_asm_command command instruction_output in
    if binary_instruction == 0
    then pure (refused 1 (record out { exit_code = negsuc 0 }))
    else (do known ← execute binary_instruction; pure (performed 0 (pos 0)))
