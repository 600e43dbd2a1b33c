-- ===== src/Examples/AssemblerExamples.antt =====
-- Examples for the encoder and the decoder.
use riscv_sym.Base.{◌≡◌, arith}
use riscv_sym.Assembler.{encode_r_type, encode_i_type, encode_s_type, encode_b_type, encode_j_type}
use riscv_sym.Assembler.Fields.{
  r_arguments-encode_r_type, i_arguments-encode_i_type, s_arguments-encode_s_type,
}
use riscv_sym.Assembler.Jumps.{b_arguments-encode_b_type, j_arguments-encode_j_type}
use riscv_sym.Instruction.Decode.{
  bits, r_arguments, i_arguments, s_arguments, b_arguments, j_arguments,
}

-- sub x5, x6, x7
r_arguments-encode_r_type_example :
    let i = encode_r_type 0x20 7 6 0 5 0x33 in
    (r_arguments i ≡ record { rs1 = 6; rs2 = 7; rd = 5 })
    × (bits i 0 6 ≡ 0x33)
    × (bits i 12 14 ≡ 0)
    × (bits i 25 31 ≡ 0x20)
r_arguments-encode_r_type_example =
    r_arguments-encode_r_type 0x20 7 6 0 5 0x33 (omega arith) (omega arith) (omega arith)
      (omega arith) (omega arith) (omega arith)

-- addi x1, x2, -1
i_arguments-encode_i_type_example :
    let i = encode_i_type 0xffff 2 0 1 0x13 in
    (i_arguments i ≡ record { imm = 0xffff_ffff; rs1 = 2; rd = 1 })
    × (bits i 0 6 ≡ 0x13)
    × (bits i 12 14 ≡ 0)
i_arguments-encode_i_type_example =
    i_arguments-encode_i_type 0xffff 2 0 1 0x13 (ground arith) (omega arith) (omega arith)
      (omega arith) (omega arith)

-- sw x3, -8(x2)
s_arguments-encode_s_type_example :
    let i = encode_s_type 0xfff8 2 3 2 0x23 in
    (s_arguments i ≡ record { imm = 0xffff_fff8; rs1 = 2; rs2 = 3 })
    × (bits i 0 6 ≡ 0x23)
    × (bits i 12 14 ≡ 2)
s_arguments-encode_s_type_example =
    s_arguments-encode_s_type 0xfff8 2 3 2 0x23 (ground arith) (omega arith) (omega arith)
      (omega arith) (omega arith)

-- bne x2, x3, -4
b_arguments-encode_b_type_example :
    let i = encode_b_type 0xfffc 3 2 1 0x63 in
    (b_arguments i ≡ record { imm = 0xffff_fffc; rs1 = 2; rs2 = 3 })
    × (bits i 0 6 ≡ 0x63)
    × (bits i 12 14 ≡ 1)
b_arguments-encode_b_type_example =
    b_arguments-encode_b_type 0xfffc 3 2 1 0x63 (ground arith) (omega arith) (omega arith)
      (omega arith) (omega arith)

-- jal x1, -2048
j_arguments-encode_j_type_example :
    let i = encode_j_type 0xffff_f800 1 0x6f in
    (j_arguments i ≡ record { imm = 0xffff_f800; rd = 1 }) × (bits i 0 6 ≡ 0x6f)
j_arguments-encode_j_type_example =
    j_arguments-encode_j_type 0xffff_f800 1 0x6f (ground arith) (omega arith) (omega arith)
