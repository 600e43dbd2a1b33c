-- ===== src/Instruction/CType/Build.antt =====
-- core/instruction/CTypeInstruction.cpp and core/AssemblyCompiler.cpp put the fields of a 32-bit
-- instruction together in the same way.
use riscv_sym.Base.{ℕ, ◌<◌, ◌≡◌, arith, refl, bit_and, u32, ◌<<<◌, ◌>>>◌}
use riscv_sym.Base.Bits.Field.{bit_and_low}
use riscv_sym.Instruction.CType.{build_r, build_i, build_s, build_b, build_j, build_u}
use riscv_sym.Assembler.{
  encode_r_type, encode_i_type, encode_s_type, encode_b_type, encode_j_type, encode_u_type,
}

module _ (opcode funct3 rd rs1 rs2 imm : ℕ) (ho : opcode < 128) (h3 : funct3 < 8) (hd : rd < 32)
    (h1 : rs1 < 32) (h2 : rs2 < 32) where
  low_opcode : bit_and opcode 0x7f ≡ opcode
  low_opcode = omega (arith, bit_and_low 7 opcode)

  put_funct3 : u32 (funct3 <<< 12) ≡ bit_and funct3 7 <<< 12
  put_funct3 = omega (arith, bit_and_low 3 funct3)

  put_rd : u32 (rd <<< 7) ≡ bit_and rd 0x1f <<< 7
  put_rd = omega (arith, bit_and_low 5 rd)

  put_rs1 : u32 (rs1 <<< 15) ≡ bit_and rs1 0x1f <<< 15
  put_rs1 = omega (arith, bit_and_low 5 rs1)

  put_rs2 : u32 (rs2 <<< 20) ≡ bit_and rs2 0x1f <<< 20
  put_rs2 = omega (arith, bit_and_low 5 rs2)

  pub build_i-encode_i_type :
      build_i opcode funct3 rd rs1 imm ≡ encode_i_type imm rs1 funct3 rd opcode
  unfolding build_i encode_i_type
  build_i-encode_i_type =
      let e : u32 (bit_and imm 0xfff <<< 20) ≡ bit_and imm 0xfff <<< 20 =
        omega (arith, bit_and_low 12 imm) in
      rw (e, put_rs1, put_funct3, put_rd, low_opcode) refl

  pub build_s-encode_s_type :
      build_s opcode funct3 rs1 rs2 imm ≡ encode_s_type imm rs1 rs2 funct3 opcode
  unfolding build_s encode_s_type
  build_s-encode_s_type =
      let hi : ℕ = bit_and (imm >>> 5) 0x7f in
      let lo : ℕ = bit_and imm 0x1f in
      let e : u32 (hi <<< 25) ≡ bit_and hi 0x7f <<< 25 =
        omega (arith, bit_and_low 7 (imm >>> 5), bit_and_low 7 hi) in
      let f : u32 (lo <<< 7) ≡ bit_and lo 0x1f <<< 7 =
        omega (arith, bit_and_low 5 imm, bit_and_low 5 lo) in
      rw (e, f, put_rs2, put_rs1, put_funct3, low_opcode) refl

  pub build_b-encode_b_type :
      build_b opcode funct3 rs1 rs2 imm ≡ encode_b_type imm rs2 rs1 funct3 opcode
  unfolding build_b encode_b_type
  build_b-encode_b_type =
      let a : ℕ = bit_and (imm >>> 12) 1 in
      let b : ℕ = bit_and (imm >>> 5) 0x3f in
      let c : ℕ = bit_and (imm >>> 1) 0xf in
      let d : ℕ = bit_and (imm >>> 11) 1 in
      let ea : u32 (a <<< 31) ≡ a <<< 31 = omega (arith, bit_and_low 1 (imm >>> 12)) in
      let eb : u32 (b <<< 25) ≡ b <<< 25 = omega (arith, bit_and_low 6 (imm >>> 5)) in
      let ec : u32 (c <<< 8) ≡ c <<< 8 = omega (arith, bit_and_low 4 (imm >>> 1)) in
      let ed : u32 (d <<< 7) ≡ d <<< 7 = omega (arith, bit_and_low 1 (imm >>> 11)) in
      rw (ea, eb, ec, ed, put_rs2, put_rs1, put_funct3, low_opcode) refl

  pub build_j-encode_j_type : build_j opcode rd imm ≡ encode_j_type imm rd opcode
  unfolding build_j encode_j_type
  build_j-encode_j_type =
      let a : ℕ = bit_and (imm >>> 20) 1 in
      let b : ℕ = bit_and (imm >>> 12) 0xff in
      let c : ℕ = bit_and (imm >>> 11) 1 in
      let d : ℕ = bit_and (imm >>> 1) 0x3ff in
      let ea : u32 (a <<< 31) ≡ a <<< 31 = omega (arith, bit_and_low 1 (imm >>> 20)) in
      let eb : u32 (b <<< 12) ≡ b <<< 12 = omega (arith, bit_and_low 8 (imm >>> 12)) in
      let ec : u32 (c <<< 20) ≡ c <<< 20 = omega (arith, bit_and_low 1 (imm >>> 11)) in
      let ed : u32 (d <<< 21) ≡ d <<< 21 = omega (arith, bit_and_low 10 (imm >>> 1)) in
      rw (ea, eb, ec, ed, put_rd, low_opcode) refl

  pub build_u-encode_u_type : build_u opcode rd imm ≡ encode_u_type imm rd opcode
  unfolding build_u encode_u_type
  build_u-encode_u_type = rw (put_rd, low_opcode) refl

pub build_r-encode_r_type :
    (opcode funct3 funct7 rd rs1 rs2 : ℕ)
    → build_r opcode funct3 funct7 rd rs1 rs2 ≡ encode_r_type funct7 rs2 rs1 funct3 rd opcode
unfolding build_r encode_r_type
build_r-encode_r_type opcode funct3 funct7 rd rs1 rs2 = refl
