-- ===== src/Assembler/Upper.antt =====
-- The encoders of U-type, shift and system instructions of core/AssemblyCompiler.cpp as sums of
-- their fields.
use riscv_sym.Base.{ℕ, ◌+◌, ◌/◌, ◌%◌, ◌^◌, ◌*◌, ◌<◌, ◌≡◌, arith}
use riscv_sym.Base.Bits.Field.{bit_or_sum, bit_and_low, bit_and_field}
use riscv_sym.Assembler.{encode_u_type, encode_i_shift_type, encode_system_type}
use riscv_sym.Assembler.Fields.{or_fields6}

pub encode_u_type_sum :
    (imm rd opcode : ℕ)
    → rd < 32
    → opcode < 128
    → encode_u_type imm rd opcode ≡ imm / 2 ^ 12 % 2 ^ 20 * 2 ^ 12 + rd * 2 ^ 7 + opcode
unfolding encode_u_type
encode_u_type_sum imm rd opcode hd ho =
    let a : ℕ = imm / 2 ^ 12 % 2 ^ 20 * 2 ^ 12 in
    let s1 = bit_or_sum 12 a (rd % 2 ^ 5 * 2 ^ 7) (omega arith) (omega arith) in
    let s2 = bit_or_sum 7 (a + rd % 2 ^ 5 * 2 ^ 7) (opcode % 2 ^ 7) (omega arith) (omega arith) in
    rw (bit_and_field 20 12 imm, bit_and_low 5 rd, bit_and_low 7 opcode, s1, s2) (omega arith)

pub encode_i_shift_type_sum :
    (shamt rs1 funct3 rd funct7 opcode : ℕ)
    → rs1 < 32
    → funct3 < 8
    → rd < 32
    → opcode < 128
    → encode_i_shift_type shamt rs1 funct3 rd funct7 opcode
      ≡ funct7 % 2 ^ 7 * 2 ^ 25
        + shamt % 2 ^ 5 * 2 ^ 20
        + rs1 * 2 ^ 15
        + funct3 * 2 ^ 12
        + rd * 2 ^ 7
        + opcode
unfolding encode_i_shift_type
encode_i_shift_type_sum shamt rs1 funct3 rd funct7 opcode h1 h3 hd ho =
    rw
      (
        bit_and_low 7 funct7,
        bit_and_low 5 shamt,
        bit_and_low 5 rs1,
        bit_and_low 3 funct3,
        bit_and_low 5 rd,
        bit_and_low 7 opcode,
        or_fields6 (funct7 % 2 ^ 7) (shamt % 2 ^ 5) (rs1 % 2 ^ 5) (funct3 % 2 ^ 3) (rd % 2 ^ 5)
            (opcode % 2 ^ 7) (omega arith) (omega arith) (omega arith) (omega arith) (omega arith),
      )
      (omega arith)

pub encode_system_type_sum :
    (csr rs1 funct3 rd : ℕ)
    → rs1 < 32
    → funct3 < 8
    → rd < 32
    → encode_system_type csr rs1 funct3 rd
      ≡ csr % 2 ^ 12 * 2 ^ 20 + rs1 * 2 ^ 15 + funct3 * 2 ^ 12 + rd * 2 ^ 7 + 0x73
unfolding encode_system_type
encode_system_type_sum csr rs1 funct3 rd h1 h3 hd =
    let a : ℕ = csr % 2 ^ 12 * 2 ^ 20 in
    let b : ℕ = a + rs1 % 2 ^ 5 * 2 ^ 15 in
    let c : ℕ = b + funct3 % 2 ^ 3 * 2 ^ 12 in
    let s1 = bit_or_sum 20 a (rs1 % 2 ^ 5 * 2 ^ 15) (omega arith) (omega arith) in
    let s2 = bit_or_sum 15 b (funct3 % 2 ^ 3 * 2 ^ 12) (omega arith) (omega arith) in
    let s3 = bit_or_sum 12 c (rd % 2 ^ 5 * 2 ^ 7) (omega arith) (omega arith) in
    let s4 = bit_or_sum 7 (c + rd % 2 ^ 5 * 2 ^ 7) 0x73 (omega arith) (omega arith) in
    rw
      (
        bit_and_low 12 csr,
        bit_and_low 5 rs1,
        bit_and_low 3 funct3,
        bit_and_low 5 rd,
        s1,
        s2,
        s3,
        s4,
      )
      (omega arith)
