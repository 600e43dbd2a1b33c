-- ===== src/Instruction/Load.antt =====
-- core/instruction/ITypeInstruction.cpp, `namespace LoadInstruction`.
use riscv_sym.Base.{ℕ, ◌+◌, ◌==◌, ltb, if◌then◌else◌, Bool, true, false, u32}
use riscv_sym.State.{M, pure, ◌>>=◌, ◌>>◌}
use riscv_sym.Cpu.{get_register, set_register}
use riscv_sym.Instruction.Description
use riscv_sym.Instruction.Decode.{bits, IArguments, i_arguments}
use riscv_sym.Memory.Access.{read8, read16, read32}

-- `static_cast<int32_t>(static_cast<int8_t>(raw))` and the same of an int16_t, as words.
abbrev pub sign_extend8 : ℕ → ℕ
sign_extend8 raw = if ltb raw 0x80 then raw else raw + 0xffff_ff00

abbrev pub sign_extend16 : ℕ → ℕ
sign_extend16 raw = if ltb raw 0x8000 then raw else raw + 0xffff_0000

module _ (args : IArguments) where
  unfoldable pub execute_lb : M Bool
  execute_lb = do
    rs1_value ← get_register args.rs1
    let addr = u32 (rs1_value + args.imm)
    raw ← read8 addr
    set_register args.rd (sign_extend8 raw)
    pure true

  unfoldable pub execute_lh : M Bool
  execute_lh = do
    rs1_value ← get_register args.rs1
    let addr = u32 (rs1_value + args.imm)
    raw ← read16 addr
    set_register args.rd (sign_extend16 raw)
    pure true

  unfoldable pub execute_lw : M Bool
  execute_lw = do
    rs1_value ← get_register args.rs1
    let addr = u32 (rs1_value + args.imm)
    raw ← read32 addr false
    set_register args.rd (raw)
    pure true

  unfoldable pub execute_lbu : M Bool
  execute_lbu = do
    rs1_value ← get_register args.rs1
    let addr = u32 (rs1_value + args.imm)
    raw ← read8 addr
    set_register args.rd (raw)
    pure true

  unfoldable pub execute_lhu : M Bool
  execute_lhu = do
    rs1_value ← get_register args.rs1
    let addr = u32 (rs1_value + args.imm)
    raw ← read16 addr
    set_register args.rd (raw)
    pure true

unfoldable pub execute : ℕ → M Bool
execute encoded_instruction =
    let args = i_arguments encoded_instruction in
    let funct3 = bits encoded_instruction 12 14 in
    if funct3 == Description.lb
    then execute_lb args
    else if funct3 == Description.lh
    then execute_lh args
    else if funct3 == Description.lw
    then execute_lw args
    else if funct3 == Description.lbu
    then execute_lbu args
    else if funct3 == Description.lhu
    then execute_lhu args
    else pure false
