-- ===== src/Assembler/RType.antt =====
-- core/AssemblyCompiler.cpp: register arithmetic and the atomic instructions.
use riscv_sym.Base.{ℕ, ◌*◌, ◌^◌}
use riscv_sym.Assembler.{encode_r_type}
use riscv_sym.Assembler.Text.{codes}
use riscv_sym.Assembler.Attempt.{Attempt, encoded, ◌>>=◌}
use riscv_sym.Assembler.Line.{AssemblyInstruction}
use riscv_sym.Assembler.Register.{register, with_three, with_two, address_register}

unfoldable pub assemble_r_type : AssemblyInstruction → ℕ → ℕ → Attempt ℕ
assemble_r_type instruction funct3 funct7 =
    with_three (codes "Not the right number of operands, should be exactly 3!") instruction.operands
      λ a b c. do
        rd ← register a
        rs1 ← register b
        rs2 ← register c
        encoded (encode_r_type funct7 rs2 rs1 funct3 rd 0x33)

unfoldable pub assemble_add : AssemblyInstruction → Attempt ℕ
assemble_add instruction = assemble_r_type instruction 0 0

unfoldable pub assemble_sub : AssemblyInstruction → Attempt ℕ
assemble_sub instruction = assemble_r_type instruction 0 0x20

unfoldable pub assemble_sll : AssemblyInstruction → Attempt ℕ
assemble_sll instruction = assemble_r_type instruction 1 0

unfoldable pub assemble_slt : AssemblyInstruction → Attempt ℕ
assemble_slt instruction = assemble_r_type instruction 2 0

unfoldable pub assemble_sltu : AssemblyInstruction → Attempt ℕ
assemble_sltu instruction = assemble_r_type instruction 3 0

unfoldable pub assemble_xor : AssemblyInstruction → Attempt ℕ
assemble_xor instruction = assemble_r_type instruction 4 0

unfoldable pub assemble_srl : AssemblyInstruction → Attempt ℕ
assemble_srl instruction = assemble_r_type instruction 5 0

unfoldable pub assemble_sra : AssemblyInstruction → Attempt ℕ
assemble_sra instruction = assemble_r_type instruction 5 0x20

unfoldable pub assemble_or : AssemblyInstruction → Attempt ℕ
assemble_or instruction = assemble_r_type instruction 6 0

unfoldable pub assemble_and : AssemblyInstruction → Attempt ℕ
assemble_and instruction = assemble_r_type instruction 7 0

unfoldable pub assemble_mul : AssemblyInstruction → Attempt ℕ
assemble_mul instruction = assemble_r_type instruction 0 1

unfoldable pub assemble_mulh : AssemblyInstruction → Attempt ℕ
assemble_mulh instruction = assemble_r_type instruction 1 1

unfoldable pub assemble_mulhsu : AssemblyInstruction → Attempt ℕ
assemble_mulhsu instruction = assemble_r_type instruction 2 1

unfoldable pub assemble_mulhu : AssemblyInstruction → Attempt ℕ
assemble_mulhu instruction = assemble_r_type instruction 3 1

unfoldable pub assemble_div : AssemblyInstruction → Attempt ℕ
assemble_div instruction = assemble_r_type instruction 4 1

unfoldable pub assemble_divu : AssemblyInstruction → Attempt ℕ
assemble_divu instruction = assemble_r_type instruction 5 1

unfoldable pub assemble_rem : AssemblyInstruction → Attempt ℕ
assemble_rem instruction = assemble_r_type instruction 6 1

unfoldable pub assemble_remu : AssemblyInstruction → Attempt ℕ
assemble_remu instruction = assemble_r_type instruction 7 1

-- `lr.w` takes two operands, the others three.
unfoldable pub assemble_amo_type : AssemblyInstruction → ℕ → Attempt ℕ
assemble_amo_type instruction funct7 =
    with_three (codes "AMO instructions require exactly 3 operands (rd, rs2, (rs1))")
      instruction.operands
      λ a b mem_operand. do
        rd ← register a
        rs2 ← register b
        rs1 ←
            address_register
              (codes "AMO memory operand must be strictly in the form (rs1) with no offset.")
              mem_operand
        encoded (encode_r_type funct7 rs2 rs1 2 rd 0x2f)

unfoldable pub assemble_lr_type : AssemblyInstruction → ℕ → Attempt ℕ
assemble_lr_type instruction funct7 =
    with_two (codes "LR instruction requires exactly 2 operands (rd, (rs1))") instruction.operands
      λ a mem_operand. do
        rd ← register a
        rs1 ←
            address_register
              (codes "LR memory operand must be strictly in the form (rs1) with no offset.")
              mem_operand
        encoded (encode_r_type funct7 0 rs1 2 rd 0x2f)

unfoldable pub assemble_lr : AssemblyInstruction → Attempt ℕ
assemble_lr instruction = assemble_lr_type instruction (2 * 2 ^ 2)

unfoldable pub assemble_sc : AssemblyInstruction → Attempt ℕ
assemble_sc instruction = assemble_amo_type instruction (3 * 2 ^ 2)

unfoldable pub assemble_amoswap : AssemblyInstruction → Attempt ℕ
assemble_amoswap instruction = assemble_amo_type instruction (1 * 2 ^ 2)

unfoldable pub assemble_amoadd : AssemblyInstruction → Attempt ℕ
assemble_amoadd instruction = assemble_amo_type instruction (0 * 2 ^ 2)

unfoldable pub assemble_amoxor : AssemblyInstruction → Attempt ℕ
assemble_amoxor instruction = assemble_amo_type instruction (4 * 2 ^ 2)

unfoldable pub assemble_amoand : AssemblyInstruction → Attempt ℕ
assemble_amoand instruction = assemble_amo_type instruction (12 * 2 ^ 2)

unfoldable pub assemble_amoor : AssemblyInstruction → Attempt ℕ
assemble_amoor instruction = assemble_amo_type instruction (8 * 2 ^ 2)

unfoldable pub assemble_amomin : AssemblyInstruction → Attempt ℕ
assemble_amomin instruction = assemble_amo_type instruction (16 * 2 ^ 2)

unfoldable pub assemble_amomax : AssemblyInstruction → Attempt ℕ
assemble_amomax instruction = assemble_amo_type instruction (20 * 2 ^ 2)

unfoldable pub assemble_amominu : AssemblyInstruction → Attempt ℕ
assemble_amominu instruction = assemble_amo_type instruction (24 * 2 ^ 2)

unfoldable pub assemble_amomaxu : AssemblyInstruction → Attempt ℕ
assemble_amomaxu instruction = assemble_amo_type instruction (28 * 2 ^ 2)
