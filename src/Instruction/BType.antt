-- ===== src/Instruction/BType.antt =====
-- core/instruction/BTypeInstruction.cpp: the branches.
use riscv_sym.Base.{ℕ, ◌+◌, ◌==◌, ltb, leb, if◌then◌else◌, Bool, true, false, u32, not}
use riscv_sym.State.{M, pure, ◌>>=◌, ◌>>◌, when, modify}
use riscv_sym.Cpu.{get_register, set_next_pc}
use riscv_sym.Base.Int.{int32, lt_ℤ}
use riscv_sym.Instruction.Description
use riscv_sym.Instruction.Decode.{bits, SArguments, b_arguments}

module _ (args : SArguments) where
  unfoldable pub execute_beq : M Bool
  execute_beq = do
    rs1_value ← get_register args.rs1
    rs2_value ← get_register args.rs2
    when (rs1_value == rs2_value) (modify (λ m. set_next_pc (u32 (m.pc + args.imm)) m))
    pure true

  unfoldable pub execute_bne : M Bool
  execute_bne = do
    rs1_value ← get_register args.rs1
    rs2_value ← get_register args.rs2
    when (not (rs1_value == rs2_value)) (modify (λ m. set_next_pc (u32 (m.pc + args.imm)) m))
    pure true

  unfoldable pub execute_blt : M Bool
  execute_blt = do
    rs1_value ← get_register args.rs1
    rs2_value ← get_register args.rs2
    when (lt_ℤ (int32 rs1_value) (int32 rs2_value))
        (modify (λ m. set_next_pc (u32 (m.pc + args.imm)) m))
    pure true

  unfoldable pub execute_bge : M Bool
  execute_bge = do
    rs1_value ← get_register args.rs1
    rs2_value ← get_register args.rs2
    when (not (lt_ℤ (int32 rs1_value) (int32 rs2_value)))
        (modify (λ m. set_next_pc (u32 (m.pc + args.imm)) m))
    pure true

  unfoldable pub execute_bltu : M Bool
  execute_bltu = do
    rs1_value ← get_register args.rs1
    rs2_value ← get_register args.rs2
    when (ltb rs1_value rs2_value) (modify (λ m. set_next_pc (u32 (m.pc + args.imm)) m))
    pure true

  unfoldable pub execute_bgeu : M Bool
  execute_bgeu = do
    rs1_value ← get_register args.rs1
    rs2_value ← get_register args.rs2
    when (leb rs2_value rs1_value) (modify (λ m. set_next_pc (u32 (m.pc + args.imm)) m))
    pure true

unfoldable pub execute : ℕ → M Bool
execute encoded_instruction =
    let args = b_arguments encoded_instruction in
    let funct3 = bits encoded_instruction 12 14 in
    if funct3 == Description.beq
    then execute_beq args
    else if funct3 == Description.bne
    then execute_bne args
    else if funct3 == Description.blt
    then execute_blt args
    else if funct3 == Description.bge
    then execute_bge args
    else if funct3 == Description.bltu
    then execute_bltu args
    else if funct3 == Description.bgeu
    then execute_bgeu args
    else pure false
