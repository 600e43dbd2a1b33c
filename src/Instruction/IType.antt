-- ===== src/Instruction/IType.antt =====
-- core/instruction/ITypeInstruction.cpp: arithmetic with an immediate, JALR and the fences.
use riscv_sym.Base.{
  ℕ, ◌+◌, bit_and, bit_or, bit_xor, ◌==◌, ltb, if◌then◌else◌, Bool, true, false, ◌>>>◌, ◌<<<◌, u32,
  not, not32,
}
use riscv_sym.State.{M, pure, ◌>>=◌, ◌>>◌, when, gets, modify}
use riscv_sym.Cpu.{get_register, set_register, set_next_pc}
use riscv_sym.Base.Int.{int32, to_word, shift_right, lt_ℤ}
use riscv_sym.Instruction.Description
use riscv_sym.Instruction.Decode.{bits, description, IArguments, i_arguments}

module _ (args : IArguments) where
  unfoldable pub execute_addi : M Bool
  execute_addi = do
    rs1_value ← get_register args.rs1
    set_register args.rd (u32 (rs1_value + args.imm))
    pure true

  unfoldable pub execute_slti : M Bool
  execute_slti = do
    rs1_value ← get_register args.rs1
    set_register args.rd (if lt_ℤ (int32 rs1_value) (int32 args.imm) then 1 else 0)
    pure true

  unfoldable pub execute_sltiu : M Bool
  execute_sltiu = do
    rs1_value ← get_register args.rs1
    set_register args.rd (if ltb rs1_value args.imm then 1 else 0)
    pure true

  unfoldable pub execute_xori : M Bool
  execute_xori = do
    rs1_value ← get_register args.rs1
    set_register args.rd (bit_xor rs1_value args.imm)
    pure true

  unfoldable pub execute_ori : M Bool
  execute_ori = do
    rs1_value ← get_register args.rs1
    set_register args.rd (bit_or rs1_value args.imm)
    pure true

  unfoldable pub execute_andi : M Bool
  execute_andi = do
    rs1_value ← get_register args.rs1
    set_register args.rd (bit_and rs1_value args.imm)
    pure true

  unfoldable pub execute_slli : M Bool
  execute_slli = do
    rs1_value ← get_register args.rs1
    set_register args.rd (u32 (rs1_value <<< bits args.imm 0 4))
    pure true

  unfoldable pub execute_srli : M Bool
  execute_srli = do
    rs1_value ← get_register args.rs1
    set_register args.rd (rs1_value >>> bits args.imm 0 4)
    pure true

  unfoldable pub execute_srai : M Bool
  execute_srai = do
    rs1_value ← get_register args.rs1
    set_register args.rd (to_word 32 (shift_right (int32 rs1_value) (bits args.imm 0 4)))
    pure true

unfoldable pub execute_arithmetic : ℕ → M Bool
execute_arithmetic encoded_instruction =
    let args = i_arguments encoded_instruction in
    let funct3 = bits encoded_instruction 12 14 in
    let d = description funct3 (bits encoded_instruction 30 30) in
    if funct3 == Description.addi
    then execute_addi args
    else if funct3 == Description.slti
    then execute_slti args
    else if funct3 == Description.sltiu
    then execute_sltiu args
    else if funct3 == Description.xori
    then execute_xori args
    else if funct3 == Description.ori
    then execute_ori args
    else if funct3 == Description.andi
    then execute_andi args
    else if d == Description.slli
    then execute_slli args
    else if d == Description.srli
    then execute_srli args
    else if d == Description.srai
    then execute_srai args
    else pure false

unfoldable pub execute_jalr : ℕ → M Bool
execute_jalr encoded_instruction = do
  let args = i_arguments encoded_instruction
  return_address ← gets (λ m. m.next_pc)
  rs1_value ← get_register args.rs1
  let target_address = bit_and (u32 (rs1_value + args.imm)) (not32 1)
  when (not (args.rd == 0)) (set_register args.rd return_address)
  modify (set_next_pc target_address)
  pure true

-- FENCE and FENCE.I do nothing.
unfoldable pub execute_fence : ℕ → M Bool
execute_fence encoded_instruction =
    let funct3 = bits encoded_instruction 12 14 in
    if funct3 == Description.fence
    then pure true
    else if funct3 == Description.fence_i
    then pure true
    else pure false
