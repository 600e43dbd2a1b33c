-- ===== src/Assembler/Immediate.antt =====
-- core/AssemblyCompiler.cpp: the instructions with an immediate, and the branches and jumps.
use riscv_sym.Base.{
  ℕ, ◌==◌, ltb, leb, if◌then◌else◌, Bool, true, not, none, some, ◌||◌, ◌-◌, ◌+◌, bit_and, ◌<<<◌,
  u32,
}
use riscv_sym.Base.Lists.{take, drop}
use riscv_sym.Base.Int.{ℤ, pos, negsuc, to_word, lt_ℤ, ◌%ℤ◌}
use riscv_sym.Assembler.{
  encode_b_type, encode_j_type, encode_u_type, encode_i_type, encode_i_shift_type, encode_s_type,
}
use riscv_sym.Assembler.Text.{Text, codes, find, stoi}
use riscv_sym.Assembler.Attempt.{
  Attempt, encoded, refused, ◌>>=◌, ◌>>◌, refuse_when, or_refuse, validate_register,
}
use riscv_sym.Assembler.Line.{AssemblyInstruction}
use riscv_sym.Assembler.Register.{
  register, register_name_to_number, with_three, with_two, int32_immediate, uint32_immediate,
}

-- `imm < low || imm > high`.
abbrev pub outside : ℤ → ℤ → ℤ → Bool
outside low high imm = lt_ℤ imm low || lt_ℤ high imm

-- `imm % 2 != 0`.
unfoldable pub is_odd : ℤ → Bool
is_odd imm = elim (imm %ℤ pos 2) [ pos n ↦ not (n == 0) | negsuc n ↦ true ]

-- The two register tests report the operand behind the one they read.
unfoldable pub assemble_b_type : AssemblyInstruction → ℕ → Attempt ℕ
assemble_b_type instruction funct3 =
    with_three (codes "Not the right number of operands, should be exactly 3!") instruction.operands
      λ a b c. do
        rs1 ← validate_register (register_name_to_number a) b
        rs2 ← validate_register (register_name_to_number b) c
        imm ← or_refuse (stoi c) (codes "Invalid immediate value!")
        refuse_when (is_odd imm) (codes "Branch offset must be a multiple of 2!")
        refuse_when (outside (negsuc 4095) (pos 4094) imm)
            (codes "Branch offset out of 13-bit signed range (-4096 to 4094)!")
        encoded (encode_b_type (to_word 16 imm) rs2 rs1 funct3 0x63)

unfoldable pub assemble_j_type : AssemblyInstruction → Attempt ℕ
assemble_j_type instruction =
    with_two (codes "Not the right number of operands, should be exactly 2!") instruction.operands
      λ a b. do
        rd ← register a
        imm ← int32_immediate (codes "Invalid immediate value!") b
        refuse_when (is_odd imm) (codes "Jump offset must be a multiple of 2!")
        refuse_when (outside (negsuc 1048575) (pos 1048574) imm)
            (codes "Jump offset out of 21-bit signed range (-1048576 to 1048574)!")
        encoded (encode_j_type (to_word 32 imm) rd 0x6f)

unfoldable pub assemble_u_type : AssemblyInstruction → ℕ → Attempt ℕ
assemble_u_type instruction opcode =
    with_two (codes "U-type instruction requires exactly 2 operands.") instruction.operands λ a b.
      do
        rd ← register a
        imm ← uint32_immediate (codes "Invalid immediate value.") b
        let imm20 = if ltb 0xf_ffff imm then bit_and imm 0xf_ffff else imm
        encoded (encode_u_type (u32 (imm20 <<< 12)) rd opcode)

unfoldable pub assemble_i_type : AssemblyInstruction → ℕ → Attempt ℕ
assemble_i_type instruction funct3 =
    with_three (codes "Not the right number of operands, should be exactly 3!") instruction.operands
      λ a b c. do
        rd ← register a
        rs1 ← register b
        imm ← int32_immediate (codes "Invalid immediate value!") c
        refuse_when (outside (negsuc 2047) (pos 2047) imm)
            (codes "Immediate value out of 12-bit signed range (-2048 to 2047)!")
        encoded (encode_i_type (to_word 16 imm) rs1 funct3 rd 0x13)

unfoldable pub assemble_i_shift_type : AssemblyInstruction → ℕ → ℕ → Attempt ℕ
assemble_i_shift_type instruction funct3 funct7 =
    with_three (codes "Shift instructions require exactly 3 operands (rd, rs1, shamt)")
      instruction.operands
      λ a b c. do
        rd ← register a
        rs1 ← register b
        shamt ← int32_immediate (codes "Invalid shift amount!") c
        refuse_when (outside (pos 0) (pos 31) shamt)
            (codes "Shift amount must be between 0 and 31!")
        encoded (encode_i_shift_type (to_word 8 shamt) rs1 funct3 rd funct7 0x13)

-- The two parts of `imm(rs1)`; there is something between the parentheses.
pub record MemOperand : Type 0 where
  pub imm_str : Text
  pub rs1_str : Text

unfoldable pub split_mem_operand : Text → Text → Attempt MemOperand
split_mem_operand message mem_operand = elim (find b'(' mem_operand) [
  | none ↦ refused message
  | some open_paren ↦ elim (find b')' mem_operand) [
    | none ↦ refused message
    | some close_paren ↦
        if leb close_paren (open_paren + 1)
        then refused message
        else encoded (record {
          imm_str = take open_paren mem_operand;
          rs1_str = take (close_paren - open_paren - 1) (drop (open_paren + 1) mem_operand);
        })
  ]
]

unfoldable pub assemble_i_load_type : AssemblyInstruction → ℕ → ℕ → Attempt ℕ
assemble_i_load_type instruction funct3 opcode =
    with_two (codes "Load instructions require exactly 2 operands (rd, imm(rs1))")
      instruction.operands
      λ a b. do
        rd ← register a
        parts ← split_mem_operand (codes "Invalid load address format, expected imm(rs1)") b
        imm ← int32_immediate (codes "Invalid immediate value in load instruction") parts.imm_str
        rs1 ← register parts.rs1_str
        refuse_when (outside (negsuc 2047) (pos 2047) imm)
            (codes "Immediate out of range for load instruction (-2048 to 2047)")
        encoded (encode_i_type (to_word 16 imm) rs1 funct3 rd opcode)

-- The opcode is the default argument of the source.
unfoldable pub assemble_s_type : AssemblyInstruction → ℕ → Attempt ℕ
assemble_s_type instruction funct3 =
    with_two (codes "Store instructions require exactly 2 operands (rs2, imm(rs1))")
      instruction.operands
      λ a b. do
        rs2 ← register a
        parts ← split_mem_operand (codes "Invalid store address format, expected imm(rs1)") b
        imm ← int32_immediate (codes "Invalid immediate value in store instruction") parts.imm_str
        rs1 ← register parts.rs1_str
        refuse_when (outside (negsuc 2047) (pos 2047) imm)
            (codes "Immediate out of range for store instruction (-2048 to 2047)")
        encoded (encode_s_type (to_word 16 imm) rs1 rs2 funct3 0x23)

unfoldable pub assemble_beq : AssemblyInstruction → Attempt ℕ
assemble_beq instruction = assemble_b_type instruction 0

unfoldable pub assemble_bne : AssemblyInstruction → Attempt ℕ
assemble_bne instruction = assemble_b_type instruction 1

unfoldable pub assemble_blt : AssemblyInstruction → Attempt ℕ
assemble_blt instruction = assemble_b_type instruction 4

unfoldable pub assemble_bge : AssemblyInstruction → Attempt ℕ
assemble_bge instruction = assemble_b_type instruction 5

unfoldable pub assemble_bltu : AssemblyInstruction → Attempt ℕ
assemble_bltu instruction = assemble_b_type instruction 6

unfoldable pub assemble_bgeu : AssemblyInstruction → Attempt ℕ
assemble_bgeu instruction = assemble_b_type instruction 7

unfoldable pub assemble_jal : AssemblyInstruction → Attempt ℕ
assemble_jal instruction = assemble_j_type instruction

unfoldable pub assemble_lui : AssemblyInstruction → Attempt ℕ
assemble_lui instruction = assemble_u_type instruction 0x37

unfoldable pub assemble_auipc : AssemblyInstruction → Attempt ℕ
assemble_auipc instruction = assemble_u_type instruction 0x17

unfoldable pub assemble_addi : AssemblyInstruction → Attempt ℕ
assemble_addi instruction = assemble_i_type instruction 0

unfoldable pub assemble_slti : AssemblyInstruction → Attempt ℕ
assemble_slti instruction = assemble_i_type instruction 2

unfoldable pub assemble_sltiu : AssemblyInstruction → Attempt ℕ
assemble_sltiu instruction = assemble_i_type instruction 3

unfoldable pub assemble_xori : AssemblyInstruction → Attempt ℕ
assemble_xori instruction = assemble_i_type instruction 4

unfoldable pub assemble_ori : AssemblyInstruction → Attempt ℕ
assemble_ori instruction = assemble_i_type instruction 6

unfoldable pub assemble_andi : AssemblyInstruction → Attempt ℕ
assemble_andi instruction = assemble_i_type instruction 7

unfoldable pub assemble_slli : AssemblyInstruction → Attempt ℕ
assemble_slli instruction = assemble_i_shift_type instruction 1 0

unfoldable pub assemble_srli : AssemblyInstruction → Attempt ℕ
assemble_srli instruction = assemble_i_shift_type instruction 5 0

unfoldable pub assemble_srai : AssemblyInstruction → Attempt ℕ
assemble_srai instruction = assemble_i_shift_type instruction 5 0x20

unfoldable pub assemble_lb : AssemblyInstruction → Attempt ℕ
assemble_lb instruction = assemble_i_load_type instruction 0 3

unfoldable pub assemble_lh : AssemblyInstruction → Attempt ℕ
assemble_lh instruction = assemble_i_load_type instruction 1 3

unfoldable pub assemble_lw : AssemblyInstruction → Attempt ℕ
assemble_lw instruction = assemble_i_load_type instruction 2 3

unfoldable pub assemble_lbu : AssemblyInstruction → Attempt ℕ
assemble_lbu instruction = assemble_i_load_type instruction 4 3

unfoldable pub assemble_lhu : AssemblyInstruction → Attempt ℕ
assemble_lhu instruction = assemble_i_load_type instruction 5 3

unfoldable pub assemble_jalr : AssemblyInstruction → Attempt ℕ
assemble_jalr instruction = assemble_i_load_type instruction 0 0x67

unfoldable pub assemble_sb : AssemblyInstruction → Attempt ℕ
assemble_sb instruction = assemble_s_type instruction 0

unfoldable pub assemble_sh : AssemblyInstruction → Attempt ℕ
assemble_sh instruction = assemble_s_type instruction 1

unfoldable pub assemble_sw : AssemblyInstruction → Attempt ℕ
assemble_sw instruction = assemble_s_type instruction 2
