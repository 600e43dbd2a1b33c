-- ===== src/Instruction/UType.antt =====
-- core/instruction/UTypeInstruction.cpp: LUI and AUIPC.
use riscv_sym.Base.{ℕ, ◌+◌, Bool, true, u32}
use riscv_sym.State.{M, pure, ◌>>=◌, ◌>>◌, gets}
use riscv_sym.Cpu.{set_register}
use riscv_sym.Instruction.Decode.{u_arguments}

unfoldable pub execute_lui : ℕ → M Bool
execute_lui encoded_instruction = do
  let args = u_arguments encoded_instruction
  set_register args.rd args.imm
  pure true

unfoldable pub execute_auipc : ℕ → M Bool
execute_auipc encoded_instruction = do
  let args = u_arguments encoded_instruction
  pc ← gets (λ m. m.pc)
  set_register args.rd (u32 (pc + args.imm))
  pure true
