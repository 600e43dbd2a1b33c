-- ===== src/Instruction/JType.antt =====
-- core/instruction/JTypeInstruction.cpp: JAL.
use riscv_sym.Base.{ℕ, ◌+◌, ◌==◌, Bool, true, u32, not}
use riscv_sym.State.{M, pure, ◌>>=◌, ◌>>◌, when, gets, modify}
use riscv_sym.Cpu.{set_register, set_next_pc}
use riscv_sym.Instruction.Decode.{JArguments, j_arguments}

unfoldable pub execute_jal : JArguments → M Bool
execute_jal args = do
  return_address ← gets (λ m. m.next_pc)
  target_address ← gets (λ m. u32 (m.pc + args.imm))
  when (not (args.rd == 0)) (set_register args.rd return_address)
  modify (set_next_pc target_address)
  pure true

unfoldable pub execute : ℕ → M Bool
execute encoded_instruction = execute_jal (j_arguments encoded_instruction)
