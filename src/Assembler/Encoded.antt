-- ===== src/Assembler/Encoded.antt =====
-- What the encoders of core/AssemblyCompiler.cpp give for fields in range: 32-bit words with the low
-- bits of an uncompressed instruction.
use riscv_sym.Base.{ℕ, ◌+◌, ◌*◌, ◌/◌, ◌%◌, ◌^◌, ◌<◌, ◌≡◌, arith, bit_or, u32, ◌<<<◌, refl}
use riscv_sym.Base.Bits.Field.{bit_or_sum, bit_or_shift}
use riscv_sym.Assembler.{
  encode_r_type, encode_i_type, encode_s_type, encode_b_type, encode_j_type, encode_u_type,
  encode_i_shift_type, encode_system_type,
}
use riscv_sym.Assembler.Fields.{encode_r_type_sum, encode_i_type_sum, encode_s_type_sum}
use riscv_sym.Assembler.Jumps.{encode_b_type_sum, encode_j_type_sum}
use riscv_sym.Assembler.Upper.{encode_u_type_sum, encode_i_shift_type_sum, encode_system_type_sum}
use riscv_sym.Assembler.Ensures.{IsRegister}
use riscv_sym.Assembler.System.{encode_sfence_vma}

abbrev pub IsInstruction : ℕ → Type 0
IsInstruction w = (w < 2 ^ 32) × (w % 4 ≡ 3)

abbrev pub IsOpcode : ℕ → Type 0
IsOpcode op = (op < 128) × (op % 4 ≡ 3)

pub encode_r_type-IsInstruction :
    (funct7 rs2 rs1 funct3 rd opcode : ℕ)
    → funct7 < 128
    → IsRegister rs2
    → IsRegister rs1
    → funct3 < 8
    → IsRegister rd
    → IsOpcode opcode
    → IsInstruction (encode_r_type funct7 rs2 rs1 funct3 rd opcode)
encode_r_type-IsInstruction funct7 rs2 rs1 funct3 rd opcode h7 h2 h1 h3 hd ho =
    omega (arith, encode_r_type_sum funct7 rs2 rs1 funct3 rd opcode h7 h2 h1 h3 hd (ho.0))

pub encode_i_type-IsInstruction :
    (imm rs1 funct3 rd opcode : ℕ)
    → IsRegister rs1
    → funct3 < 8
    → IsRegister rd
    → IsOpcode opcode
    → IsInstruction (encode_i_type imm rs1 funct3 rd opcode)
encode_i_type-IsInstruction imm rs1 funct3 rd opcode h1 h3 hd ho =
    omega (arith, encode_i_type_sum imm rs1 funct3 rd opcode h1 h3 hd (ho.0))

pub encode_s_type-IsInstruction :
    (imm rs1 rs2 funct3 opcode : ℕ)
    → IsRegister rs1
    → IsRegister rs2
    → funct3 < 8
    → IsOpcode opcode
    → IsInstruction (encode_s_type imm rs1 rs2 funct3 opcode)
encode_s_type-IsInstruction imm rs1 rs2 funct3 opcode h1 h2 h3 ho =
    omega (arith, encode_s_type_sum imm rs1 rs2 funct3 opcode h1 h2 h3 (ho.0))

pub encode_b_type-IsInstruction :
    (imm rs2 rs1 funct3 opcode : ℕ)
    → IsRegister rs1
    → IsRegister rs2
    → funct3 < 8
    → IsOpcode opcode
    → IsInstruction (encode_b_type imm rs2 rs1 funct3 opcode)
encode_b_type-IsInstruction imm rs2 rs1 funct3 opcode h1 h2 h3 ho =
    omega (arith, encode_b_type_sum imm rs2 rs1 funct3 opcode h1 h2 h3 (ho.0))

pub encode_j_type-IsInstruction :
    (imm rd opcode : ℕ)
    → IsRegister rd
    → IsOpcode opcode
    → IsInstruction (encode_j_type imm rd opcode)
encode_j_type-IsInstruction imm rd opcode hd ho =
    omega (arith, encode_j_type_sum imm rd opcode hd (ho.0))

pub encode_u_type-IsInstruction :
    (imm rd opcode : ℕ)
    → IsRegister rd
    → IsOpcode opcode
    → IsInstruction (encode_u_type imm rd opcode)
encode_u_type-IsInstruction imm rd opcode hd ho =
    omega (arith, encode_u_type_sum imm rd opcode hd (ho.0))

pub encode_i_shift_type-IsInstruction :
    (shamt rs1 funct3 rd funct7 opcode : ℕ)
    → IsRegister rs1
    → funct3 < 8
    → IsRegister rd
    → IsOpcode opcode
    → IsInstruction (encode_i_shift_type shamt rs1 funct3 rd funct7 opcode)
encode_i_shift_type-IsInstruction shamt rs1 funct3 rd funct7 opcode h1 h3 hd ho =
    omega (arith, encode_i_shift_type_sum shamt rs1 funct3 rd funct7 opcode h1 h3 hd (ho.0))

pub encode_system_type-IsInstruction :
    (csr rs1 funct3 rd : ℕ)
    → IsRegister rs1
    → funct3 < 8
    → IsRegister rd
    → IsInstruction (encode_system_type csr rs1 funct3 rd)
encode_system_type-IsInstruction csr rs1 funct3 rd h1 h3 hd =
    omega (arith, encode_system_type_sum csr rs1 funct3 rd h1 h3 hd)

pub encode_sfence_vma-IsInstruction :
    (rs1 rs2 : ℕ) → IsRegister rs1 → IsRegister rs2 → IsInstruction (encode_sfence_vma rs1 rs2)
unfolding encode_sfence_vma
encode_sfence_vma-IsInstruction rs1 rs2 h1 h2 =
    let e1 : u32 (rs1 <<< 15) ≡ rs1 * 2 ^ 15 = omega arith in
    let e2 : u32 (rs2 <<< 20) ≡ rs2 * 2 ^ 20 = omega arith in
    let inner : bit_or 0x1200_0073 (rs1 * 2 ^ 15) ≡ 0x1200_0073 + rs1 * 2 ^ 15 =
      omega (arith, bit_or_shift 15 0x1200_0073 rs1, bit_or_sum 5 0x2400 rs1) in
    let top : (0x1200_0073 + rs1 * 2 ^ 15) / 2 ^ 20 ≡ 0x120 = omega arith in
    let outer = bit_or_shift 20 (0x1200_0073 + rs1 * 2 ^ 15) rs2 in
    let sum : bit_or 0x120 rs2 ≡ 0x120 + rs2 = bit_or_sum 5 0x120 rs2 refl (omega arith) in
    rw (e1, e2, inner, outer, top, sum) (omega arith, omega arith)
