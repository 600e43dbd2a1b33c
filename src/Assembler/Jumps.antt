-- ===== src/Assembler/Jumps.antt =====
-- The encoders of branches and jumps of core/AssemblyCompiler.cpp and their decoders agree.
use riscv_sym.Base.{ℕ, ◌+◌, ◌/◌, ◌%◌, ◌^◌, ◌*◌, ◌≤◌, ◌<◌, ◌≡◌, arith, ◌⊎◌}
use riscv_sym.Base.Bits.Field.{bit_or_sum, bit_and_low, bit_or_shift}
use riscv_sym.Assembler.{encode_b_type, encode_j_type}
use riscv_sym.Assembler.Fields.{extend16}
use riscv_sym.Instruction.Decode.{bits, b_imm, b_arguments, j_imm, j_arguments}

-- An even offset of 13 bits, as an int16_t.
abbrev pub IsBranchOffset : ℕ → Type 0
IsBranchOffset imm = (imm < 2 ^ 16) × (imm % 2 ≡ 0) × ((imm < 4096) ⊎ (2 ^ 16 ≤ imm + 4096))

pub encode_b_type_sum :
    (imm rs2 rs1 funct3 opcode : ℕ)
    → rs1 < 32
    → rs2 < 32
    → funct3 < 8
    → opcode < 128
    → encode_b_type imm rs2 rs1 funct3 opcode
      ≡ imm / 4096 % 2 * 2 ^ 31
        + imm / 32 % 64 * 2 ^ 25
        + rs2 * 2 ^ 20
        + rs1 * 2 ^ 15
        + funct3 * 2 ^ 12
        + imm / 2 % 16 * 2 ^ 8
        + imm / 2048 % 2 * 2 ^ 7
        + opcode
unfolding encode_b_type
encode_b_type_sum imm rs2 rs1 funct3 opcode h1 h2 h3 ho =
    let a : ℕ = imm / 2 ^ 12 % 2 ^ 1 * 2 ^ 31 in
    let b : ℕ = imm / 2 ^ 5 % 2 ^ 6 * 2 ^ 25 in
    let c : ℕ = rs2 % 2 ^ 5 * 2 ^ 20 in
    let d : ℕ = rs1 % 2 ^ 5 * 2 ^ 15 in
    let e : ℕ = funct3 % 2 ^ 3 * 2 ^ 12 in
    let f : ℕ = imm / 2 ^ 1 % 2 ^ 4 * 2 ^ 8 in
    let g : ℕ = imm / 2 ^ 11 % 2 ^ 1 * 2 ^ 7 in
    let s1 = bit_or_sum 31 a b (omega arith) (omega arith) in
    let s2 = bit_or_sum 25 (a + b) c (omega arith) (omega arith) in
    let s3 = bit_or_sum 20 (a + b + c) d (omega arith) (omega arith) in
    let s4 = bit_or_sum 15 (a + b + c + d) e (omega arith) (omega arith) in
    let s5 = bit_or_sum 12 (a + b + c + d + e) f (omega arith) (omega arith) in
    let s6 = bit_or_sum 8 (a + b + c + d + e + f) g (omega arith) (omega arith) in
    let s7 =
      bit_or_sum 7 (a + b + c + d + e + f + g) (opcode % 2 ^ 7) (omega arith) (omega arith) in
    rw
      (
        bit_and_low 1 (imm / 2 ^ 12),
        bit_and_low 6 (imm / 2 ^ 5),
        bit_and_low 5 rs2,
        bit_and_low 5 rs1,
        bit_and_low 3 funct3,
        bit_and_low 4 (imm / 2 ^ 1),
        bit_and_low 1 (imm / 2 ^ 11),
        bit_and_low 7 opcode,
        s1,
        s2,
        s3,
        s4,
        s5,
        s6,
        s7,
      )
      (omega arith)

-- The decoder reads back the fields of an encoded branch, an even 13-bit offset with its sign.
pub b_arguments-encode_b_type :
    (imm rs2 rs1 funct3 opcode : ℕ)
    → IsBranchOffset imm
    → rs1 < 32
    → rs2 < 32
    → funct3 < 8
    → opcode < 128
    → let i = encode_b_type imm rs2 rs1 funct3 opcode in
      (b_arguments i ≡ record { imm = extend16 imm; rs1 = rs1; rs2 = rs2 })
      × (bits i 0 6 ≡ opcode)
      × (bits i 12 14 ≡ funct3)
unfolding b_arguments b_imm
b_arguments-encode_b_type imm rs2 rs1 funct3 opcode hi h1 h2 h3 ho =
    let i : ℕ =
      imm / 4096 % 2 * 2 ^ 31
      + imm / 32 % 64 * 2 ^ 25
      + rs2 * 2 ^ 20
      + rs1 * 2 ^ 15
      + funct3 * 2 ^ 12
      + imm / 2 % 16 * 2 ^ 8
      + imm / 2048 % 2 * 2 ^ 7
      + opcode in
    let f31 : bits i 31 31 ≡ imm / 4096 % 2 = omega arith in
    let f7 : bits i 7 7 ≡ imm / 2048 % 2 = omega arith in
    let f25 : bits i 25 30 ≡ imm / 32 % 64 = omega arith in
    let f8 : bits i 8 11 ≡ imm / 2 % 16 = omega arith in
    let a : ℕ = imm / 4096 % 2 * 2 ^ 12 in
    let b : ℕ = imm / 2048 % 2 * 2 ^ 11 in
    let c : ℕ = imm / 32 % 64 * 2 ^ 5 in
    let s1 = bit_or_sum 12 a b (omega arith) (omega arith) in
    let s2 = bit_or_sum 11 (a + b) c (omega arith) (omega arith) in
    let s3 = bit_or_sum 5 (a + b + c) (imm / 2 % 16 * 2 ^ 1) (omega arith) (omega arith) in
    let whole : a + b + c + imm / 2 % 16 * 2 ^ 1 ≡ imm % 8192 = omega arith in
    rw (encode_b_type_sum imm rs2 rs1 funct3 opcode h1 h2 h3 ho) (
      rw (f31, f7, f25, f8, s1, s2, s3, whole)
          (ground (arith, bit_or_shift 12 (imm % 8192) 0xf_ffff, bit_and_low 12 (imm % 8192))),
      omega arith,
      omega arith,
    )

-- An even offset of 21 bits, as an int32_t.
abbrev pub IsJumpOffset : ℕ → Type 0
IsJumpOffset imm = (imm < 2 ^ 32) × (imm % 2 ≡ 0) × ((imm < 2 ^ 20) ⊎ (2 ^ 32 ≤ imm + 2 ^ 20))

pub encode_j_type_sum :
    (imm rd opcode : ℕ)
    → rd < 32
    → opcode < 128
    → encode_j_type imm rd opcode
      ≡ imm / 2 ^ 20 % 2 * 2 ^ 31
        + imm / 2 % 1024 * 2 ^ 21
        + imm / 2048 % 2 * 2 ^ 20
        + imm / 4096 % 256 * 2 ^ 12
        + rd * 2 ^ 7
        + opcode
unfolding encode_j_type
encode_j_type_sum imm rd opcode hd ho =
    let a : ℕ = imm / 2 ^ 20 % 2 ^ 1 * 2 ^ 31 in
    let b : ℕ = imm / 2 ^ 1 % 2 ^ 10 * 2 ^ 21 in
    let c : ℕ = imm / 2 ^ 11 % 2 ^ 1 * 2 ^ 20 in
    let d : ℕ = imm / 2 ^ 12 % 2 ^ 8 * 2 ^ 12 in
    let e : ℕ = rd % 2 ^ 5 * 2 ^ 7 in
    let s1 = bit_or_sum 31 a b (omega arith) (omega arith) in
    let s2 = bit_or_sum 21 (a + b) c (omega arith) (omega arith) in
    let s3 = bit_or_sum 20 (a + b + c) d (omega arith) (omega arith) in
    let s4 = bit_or_sum 12 (a + b + c + d) e (omega arith) (omega arith) in
    let s5 = bit_or_sum 7 (a + b + c + d + e) (opcode % 2 ^ 7) (omega arith) (omega arith) in
    rw
      (
        bit_and_low 1 (imm / 2 ^ 20),
        bit_and_low 10 (imm / 2 ^ 1),
        bit_and_low 1 (imm / 2 ^ 11),
        bit_and_low 8 (imm / 2 ^ 12),
        bit_and_low 5 rd,
        bit_and_low 7 opcode,
        s1,
        s2,
        s3,
        s4,
        s5,
      )
      (omega arith)

-- The decoder reads back the fields of an encoded jump, an even 21-bit offset with its sign.
pub j_arguments-encode_j_type :
    (imm rd opcode : ℕ)
    → IsJumpOffset imm
    → rd < 32
    → opcode < 128
    → let i = encode_j_type imm rd opcode in
      (j_arguments i ≡ record { imm = imm; rd = rd }) × (bits i 0 6 ≡ opcode)
unfolding j_arguments j_imm
j_arguments-encode_j_type imm rd opcode hi hd ho =
    let i : ℕ =
      imm / 2 ^ 20 % 2 * 2 ^ 31
      + imm / 2 % 1024 * 2 ^ 21
      + imm / 2048 % 2 * 2 ^ 20
      + imm / 4096 % 256 * 2 ^ 12
      + rd * 2 ^ 7
      + opcode in
    let f31 : bits i 31 31 ≡ imm / 2 ^ 20 % 2 = omega arith in
    let f12 : bits i 12 19 ≡ imm / 4096 % 256 = omega arith in
    let f20 : bits i 20 20 ≡ imm / 2048 % 2 = omega arith in
    let f21 : bits i 21 30 ≡ imm / 2 % 1024 = omega arith in
    let a : ℕ = imm / 2 ^ 20 % 2 * 2 ^ 20 in
    let b : ℕ = imm / 4096 % 256 * 2 ^ 12 in
    let c : ℕ = imm / 2048 % 2 * 2 ^ 11 in
    let s1 = bit_or_sum 20 a b (omega arith) (omega arith) in
    let s2 = bit_or_sum 12 (a + b) c (omega arith) (omega arith) in
    let s3 = bit_or_sum 11 (a + b + c) (imm / 2 % 1024 * 2 ^ 1) (omega arith) (omega arith) in
    let whole : a + b + c + imm / 2 % 1024 * 2 ^ 1 ≡ imm % 2 ^ 21 = omega arith in
    rw (encode_j_type_sum imm rd opcode hd ho) (
      rw (f31, f12, f20, f21, s1, s2, s3, whole)
          (ground (arith, bit_or_shift 20 (imm % 2 ^ 21) 0xfff, bit_and_low 21 (imm % 2 ^ 21))),
      omega arith,
    )
