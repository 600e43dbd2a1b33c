-- ===== src/Instruction/SType.antt =====
-- core/instruction/STypeInstruction.cpp: the stores.
use riscv_sym.Base.{ℕ, ◌+◌, ◌==◌, if◌then◌else◌, Bool, true, false, u8, u16, u32}
use riscv_sym.State.{M, pure, ◌>>=◌, ◌>>◌, modify}
use riscv_sym.Cpu.{get_register, notify_store}
use riscv_sym.Instruction.Description
use riscv_sym.Instruction.Decode.{bits, SArguments, s_arguments}
use riscv_sym.Memory.Access.{write8, write16, write32}

module _ (args : SArguments) where
  unfoldable pub execute_sb : M Bool
  execute_sb = do
    rs1_value ← get_register args.rs1
    rs2_value ← get_register args.rs2
    let final_address = u32 (rs1_value + args.imm)
    modify (notify_store final_address 1)
    write8 final_address (u8 rs2_value)
    pure true

  unfoldable pub execute_sh : M Bool
  execute_sh = do
    rs1_value ← get_register args.rs1
    rs2_value ← get_register args.rs2
    let final_address = u32 (rs1_value + args.imm)
    modify (notify_store final_address 2)
    write16 final_address (u16 rs2_value)
    pure true

  unfoldable pub execute_sw : M Bool
  execute_sw = do
    rs1_value ← get_register args.rs1
    rs2_value ← get_register args.rs2
    let final_address = u32 (rs1_value + args.imm)
    modify (notify_store final_address 4)
    write32 final_address (rs2_value)
    pure true

unfoldable pub execute : ℕ → M Bool
execute encoded_instruction =
    let args = s_arguments encoded_instruction in
    let funct3 = bits encoded_instruction 12 14 in
    if funct3 == Description.sb
    then execute_sb args
    else if funct3 == Description.sh
    then execute_sh args
    else if funct3 == Description.sw
    then execute_sw args
    else pure false
