-- ===== src/Instruction/Execute.antt =====
-- core/instruction/Instruction.cpp: the dispatch on the opcode.
use riscv_sym.Base.{ℕ, ◌==◌, if◌then◌else◌, Bool, false}
use riscv_sym.State.{M, pure}
use riscv_sym.Instruction.Description
use riscv_sym.Instruction.Decode.{bits}
use riscv_sym.Instruction.RType
use riscv_sym.Instruction.Atomic
use riscv_sym.Instruction.IType
use riscv_sym.Instruction.Load
use riscv_sym.Instruction.SType
use riscv_sym.Instruction.BType
use riscv_sym.Instruction.JType
use riscv_sym.Instruction.UType
use riscv_sym.Instruction.System

-- `false` is an opcode, or a field behind it, that no instruction has.
unfoldable pub execute : ℕ → M Bool
execute encoded_instruction =
    let opcode = bits encoded_instruction 0 6 in
    if opcode == Description.r_type
    then RType.execute encoded_instruction
    else if opcode == Description.atomic_instruction
    then Atomic.execute encoded_instruction
    else if opcode == Description.b_type
    then BType.execute encoded_instruction
    else if opcode == Description.arithmetic_instruction
    then IType.execute_arithmetic encoded_instruction
    else if opcode == Description.load_instruction
    then Load.execute encoded_instruction
    else if opcode == Description.jalr
    then IType.execute_jalr encoded_instruction
    else if opcode == Description.fence_instruction
    then IType.execute_fence encoded_instruction
    else if opcode == Description.j_type
    then JType.execute encoded_instruction
    else if opcode == Description.s_type
    then SType.execute encoded_instruction
    else if opcode == Description.system
    then System.execute encoded_instruction
    else if opcode == Description.lui
    then UType.execute_lui encoded_instruction
    else if opcode == Description.auipc
    then UType.execute_auipc encoded_instruction
    else pure false
