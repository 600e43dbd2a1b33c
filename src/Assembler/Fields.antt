-- ===== src/Assembler/Fields.antt =====
-- The encoders of core/AssemblyCompiler.cpp and the decoders of core/instruction/ agree.
use riscv_sym.Base.{
  ℕ, ◌+◌, ◌/◌, ◌%◌, ◌^◌, ◌*◌, ◌≤◌, ◌<◌, ◌≡◌, bit_and, bit_or, ◌==◌, ltb, if◌then◌else◌, ◌<<<◌, u32,
  arith, ◌⊎◌,
}
use riscv_sym.Base.Bits.Field.{bit_or_sum, bit_and_low, bit_or_shift}
use riscv_sym.Assembler.{encode_r_type, encode_i_type, encode_s_type}
use riscv_sym.Instruction.Decode.{bits, r_arguments, i_imm, i_arguments, s_imm, s_arguments}

-- `|` of six fields in their places is their sum.
pub or_fields6 :
    (a b c d e f : ℕ)
    → b < 32
    → c < 32
    → d < 8
    → e < 32
    → f < 128
    → bit_or
        (bit_or
          (bit_or (bit_or (bit_or (a * 2 ^ 25) (b * 2 ^ 20)) (c * 2 ^ 15)) (d * 2 ^ 12))
          (e * 2 ^ 7))
        f
      ≡ a * 2 ^ 25 + b * 2 ^ 20 + c * 2 ^ 15 + d * 2 ^ 12 + e * 2 ^ 7 + f
or_fields6 a b c d e f hb hc hd he hf =
    let s1 = bit_or_sum 25 (a * 2 ^ 25) (b * 2 ^ 20) (omega arith) (omega arith) in
    let s2 = bit_or_sum 20 (a * 2 ^ 25 + b * 2 ^ 20) (c * 2 ^ 15) (omega arith) (omega arith) in
    let s3 =
      bit_or_sum 15 (a * 2 ^ 25 + b * 2 ^ 20 + c * 2 ^ 15) (d * 2 ^ 12) (omega arith)
        (omega arith) in
    let s4 =
      bit_or_sum 12 (a * 2 ^ 25 + b * 2 ^ 20 + c * 2 ^ 15 + d * 2 ^ 12) (e * 2 ^ 7) (omega arith)
        (omega arith) in
    let s5 =
      bit_or_sum 7 (a * 2 ^ 25 + b * 2 ^ 20 + c * 2 ^ 15 + d * 2 ^ 12 + e * 2 ^ 7) f (omega arith)
        (omega arith) in
    rw (s1, s2, s3, s4, s5)

pub encode_r_type_sum :
    (funct7 rs2 rs1 funct3 rd opcode : ℕ)
    → funct7 < 128
    → rs2 < 32
    → rs1 < 32
    → funct3 < 8
    → rd < 32
    → opcode < 128
    → encode_r_type funct7 rs2 rs1 funct3 rd opcode
      ≡ funct7 * 2 ^ 25 + rs2 * 2 ^ 20 + rs1 * 2 ^ 15 + funct3 * 2 ^ 12 + rd * 2 ^ 7 + opcode
unfolding encode_r_type
encode_r_type_sum funct7 rs2 rs1 funct3 rd opcode h7 h2 h1 h3 hd ho =
    let e7 : u32 (funct7 <<< 25) ≡ funct7 * 2 ^ 25 = omega arith in
    let e2 : u32 (rs2 <<< 20) ≡ rs2 * 2 ^ 20 = omega arith in
    let e1 : u32 (rs1 <<< 15) ≡ rs1 * 2 ^ 15 = omega arith in
    let e3 : u32 (funct3 <<< 12) ≡ funct3 * 2 ^ 12 = omega arith in
    let ed : u32 (rd <<< 7) ≡ rd * 2 ^ 7 = omega arith in
    rw (e7, e2, e1, e3, ed) (or_fields6 funct7 rs2 rs1 funct3 rd opcode h2 h1 h3 hd ho)

-- The decoder reads back the registers, the opcode and the function fields of an encoded R-type
-- instruction with fields in range.
pub r_arguments-encode_r_type :
    (funct7 rs2 rs1 funct3 rd opcode : ℕ)
    → funct7 < 128
    → rs2 < 32
    → rs1 < 32
    → funct3 < 8
    → rd < 32
    → opcode < 128
    → let i = encode_r_type funct7 rs2 rs1 funct3 rd opcode in
      (r_arguments i ≡ record { rs1 = rs1; rs2 = rs2; rd = rd })
      × (bits i 0 6 ≡ opcode)
      × (bits i 12 14 ≡ funct3)
      × (bits i 25 31 ≡ funct7)
unfolding r_arguments
r_arguments-encode_r_type funct7 rs2 rs1 funct3 rd opcode h7 h2 h1 h3 hd ho =
    rw (encode_r_type_sum funct7 rs2 rs1 funct3 rd opcode h7 h2 h1 h3 hd ho)
      (ground arith, omega arith, omega arith, omega arith)

-- An int16_t as an int32_t.
abbrev pub extend16 : ℕ → ℕ
extend16 imm = if ltb imm 0x8000 then imm else imm + 0xffff_0000

-- A 12-bit immediate, as an int16_t.
abbrev pub IsImm12 : ℕ → Type 0
IsImm12 imm = (imm < 2 ^ 16) × ((imm < 2048) ⊎ (2 ^ 16 ≤ imm + 2048))

-- The sign extension of a field of 12 bits.
extend12 :
    (imm : ℕ)
    → IsImm12 imm
    → (if bits (imm % 4096) 11 11 == 1
        then bit_or (imm % 4096) 0xffff_f000
        else bit_and (imm % 4096) 0xfff)
      ≡ extend16 imm
extend12 imm (lt, h) =
    ground (arith, bit_or_shift 12 (imm % 4096) 0xf_ffff, bit_and_low 12 (imm % 4096))

pub encode_i_type_sum :
    (imm rs1 funct3 rd opcode : ℕ)
    → rs1 < 32
    → funct3 < 8
    → rd < 32
    → opcode < 128
    → encode_i_type imm rs1 funct3 rd opcode
      ≡ imm % 4096 * 2 ^ 20 + rs1 * 2 ^ 15 + funct3 * 2 ^ 12 + rd * 2 ^ 7 + opcode
unfolding encode_i_type
encode_i_type_sum imm rs1 funct3 rd opcode h1 h3 hd ho =
    let a : ℕ = imm % 4096 in
    let s2 = bit_or_sum 20 (a * 2 ^ 20) (rs1 % 32 * 2 ^ 15) (omega arith) (omega arith) in
    let s3 =
      bit_or_sum 15 (a * 2 ^ 20 + rs1 % 32 * 2 ^ 15) (funct3 % 8 * 2 ^ 12) (omega arith)
        (omega arith) in
    let s4 =
      bit_or_sum 12 (a * 2 ^ 20 + rs1 % 32 * 2 ^ 15 + funct3 % 8 * 2 ^ 12) (rd % 32 * 2 ^ 7)
        (omega arith) (omega arith) in
    let s5 =
      bit_or_sum 7 (a * 2 ^ 20 + rs1 % 32 * 2 ^ 15 + funct3 % 8 * 2 ^ 12 + rd % 32 * 2 ^ 7)
        (opcode % 128) (omega arith) (omega arith) in
    rw
      (
        bit_and_low 12 imm,
        bit_and_low 5 rs1,
        bit_and_low 3 funct3,
        bit_and_low 5 rd,
        bit_and_low 7 opcode,
        s2,
        s3,
        s4,
        s5,
      )
      (omega arith)

-- The decoder reads back the fields of an encoded I-type instruction, a 12-bit immediate with its
-- sign.
pub i_arguments-encode_i_type :
    (imm rs1 funct3 rd opcode : ℕ)
    → IsImm12 imm
    → rs1 < 32
    → funct3 < 8
    → rd < 32
    → opcode < 128
    → let i = encode_i_type imm rs1 funct3 rd opcode in
      (i_arguments i ≡ record { imm = extend16 imm; rs1 = rs1; rd = rd })
      × (bits i 0 6 ≡ opcode)
      × (bits i 12 14 ≡ funct3)
unfolding i_arguments i_imm
i_arguments-encode_i_type imm rs1 funct3 rd opcode hi h1 h3 hd ho =
    let i : ℕ = imm % 4096 * 2 ^ 20 + rs1 * 2 ^ 15 + funct3 * 2 ^ 12 + rd * 2 ^ 7 + opcode in
    let field : bits i 20 31 ≡ imm % 4096 = omega arith in
    rw (encode_i_type_sum imm rs1 funct3 rd opcode h1 h3 hd ho)
      (rw (field, extend12 imm hi) (ground arith), omega arith, omega arith)

pub encode_s_type_sum :
    (imm rs1 rs2 funct3 opcode : ℕ)
    → rs1 < 32
    → rs2 < 32
    → funct3 < 8
    → opcode < 128
    → encode_s_type imm rs1 rs2 funct3 opcode
      ≡ imm / 32 % 128 * 2 ^ 25
        + rs2 * 2 ^ 20
        + rs1 * 2 ^ 15
        + funct3 * 2 ^ 12
        + imm % 32 * 2 ^ 7
        + opcode
unfolding encode_s_type
encode_s_type_sum imm rs1 rs2 funct3 opcode h1 h2 h3 ho =
    rw
      (
        bit_and_low 7 (imm / 2 ^ 5),
        bit_and_low 5 imm,
        bit_and_low 7 (imm / 2 ^ 5 % 2 ^ 7),
        bit_and_low 5 (imm % 2 ^ 5),
        bit_and_low 5 rs1,
        bit_and_low 5 rs2,
        bit_and_low 3 funct3,
        bit_and_low 7 opcode,
        or_fields6 (imm / 2 ^ 5 % 2 ^ 7 % 2 ^ 7) (rs2 % 2 ^ 5) (rs1 % 2 ^ 5) (funct3 % 2 ^ 3)
            (imm % 2 ^ 5 % 2 ^ 5) (opcode % 2 ^ 7) (omega arith) (omega arith) (omega arith)
            (omega arith) (omega arith),
      )
      (omega arith)

-- The decoder reads back the fields of an encoded store, a 12-bit immediate with its sign.
pub s_arguments-encode_s_type :
    (imm rs1 rs2 funct3 opcode : ℕ)
    → IsImm12 imm
    → rs1 < 32
    → rs2 < 32
    → funct3 < 8
    → opcode < 128
    → let i = encode_s_type imm rs1 rs2 funct3 opcode in
      (s_arguments i ≡ record { imm = extend16 imm; rs1 = rs1; rs2 = rs2 })
      × (bits i 0 6 ≡ opcode)
      × (bits i 12 14 ≡ funct3)
unfolding s_arguments s_imm
s_arguments-encode_s_type imm rs1 rs2 funct3 opcode hi h1 h2 h3 ho =
    let i : ℕ =
      imm / 32 % 128 * 2 ^ 25
      + rs2 * 2 ^ 20
      + rs1 * 2 ^ 15
      + funct3 * 2 ^ 12
      + imm % 32 * 2 ^ 7
      + opcode in
    let high : bits i 25 31 ≡ imm / 32 % 128 = omega arith in
    let low : bits i 7 11 ≡ imm % 32 = omega arith in
    let joined : bit_or (imm / 32 % 128 * 2 ^ 5) (imm % 32) ≡ imm % 4096 =
      omega (arith, bit_or_sum 5 (imm / 32 % 128 * 2 ^ 5) (imm % 32)) in
    rw (encode_s_type_sum imm rs1 rs2 funct3 opcode h1 h2 h3 ho)
      (rw (high, low, joined, extend12 imm hi) (ground arith), omega arith, omega arith)
