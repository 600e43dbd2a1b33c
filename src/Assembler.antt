-- ===== src/Assembler.antt =====
-- core/AssemblyCompiler.cpp: the encoders of the formats. `Fields` has the theorems.
pub mod Fields
pub mod Jumps
pub mod Text
pub mod Attempt
pub mod Line
pub mod Register
pub mod RType
pub mod Immediate
pub mod System
pub mod Compile
pub mod Print
pub mod RegisterName
pub mod Mnemonic
pub mod Upper
pub mod Ensures
pub mod Encoded
pub mod Decimal
pub mod ImmediateMnemonic
pub mod ImmediateMeaning
pub mod Sound
pub mod Words
pub mod Meaning
use riscv_sym.Base.{
  ℕ, zero, suc, ◌+◌, ◌/◌, ◌%◌, ◌^◌, ◌*◌, ◌-◌, ◌≤◌, ◌<◌, ◌≡◌, ◌≢◌, bit_and, bit_or, bit_xor, ◌==◌,
  ltb, leb, if◌then◌else◌, Bool, true, false, Option, none, some, ◌>>>◌, ◌<<<◌, List, [], ◌∷◌, u8,
  u16, u32, ne_zero, not, ◌&&◌, ◌||◌, arith, refl, ap, ◌∙◌, ◌↔◌, ◌⊎◌, inl, inr, Bool-cases, max,
  min, not32, sub32, sym, fun_ext,
}

unfoldable pub encode_r_type : ℕ → ℕ → ℕ → ℕ → ℕ → ℕ → ℕ
encode_r_type funct7 rs2 rs1 funct3 rd opcode =
    bit_or
      (bit_or
        (bit_or (bit_or (bit_or (u32 (funct7 <<< 25)) (u32 (rs2 <<< 20))) (u32 (rs1 <<< 15)))
          (u32 (funct3 <<< 12)))
        (u32 (rd <<< 7)))
      opcode

-- `imm` is an int16_t, as its 16-bit pattern.
unfoldable pub encode_b_type : ℕ → ℕ → ℕ → ℕ → ℕ → ℕ
encode_b_type imm rs2 rs1 funct3 opcode =
    bit_or
      (bit_or
        (bit_or
          (bit_or
            (bit_or
              (bit_or (bit_or (bit_and (imm >>> 12) 1 <<< 31) (bit_and (imm >>> 5) 0x3f <<< 25))
                (bit_and rs2 0x1f <<< 20))
              (bit_and rs1 0x1f <<< 15))
            (bit_and funct3 7 <<< 12))
          (bit_and (imm >>> 1) 0xf <<< 8))
        (bit_and (imm >>> 11) 1 <<< 7))
      (bit_and opcode 0x7f)

-- `imm` is an int32_t, as its 32-bit pattern.
unfoldable pub encode_j_type : ℕ → ℕ → ℕ → ℕ
encode_j_type imm rd opcode =
    bit_or
      (bit_or
        (bit_or
          (bit_or (bit_or (bit_and (imm >>> 20) 1 <<< 31) (bit_and (imm >>> 1) 0x3ff <<< 21))
            (bit_and (imm >>> 11) 1 <<< 20))
          (bit_and (imm >>> 12) 0xff <<< 12))
        (bit_and rd 0x1f <<< 7))
      (bit_and opcode 0x7f)

unfoldable pub encode_u_type : ℕ → ℕ → ℕ → ℕ
encode_u_type imm rd opcode =
    bit_or (bit_or (bit_and imm 0xffff_f000) (bit_and rd 0x1f <<< 7)) (bit_and opcode 0x7f)

unfoldable pub encode_i_type : ℕ → ℕ → ℕ → ℕ → ℕ → ℕ
encode_i_type imm rs1 funct3 rd opcode =
    bit_or
      (bit_or
        (bit_or (bit_or (bit_and imm 0xfff <<< 20) (bit_and rs1 0x1f <<< 15))
          (bit_and funct3 7 <<< 12))
        (bit_and rd 0x1f <<< 7))
      (bit_and opcode 0x7f)

unfoldable pub encode_i_shift_type : ℕ → ℕ → ℕ → ℕ → ℕ → ℕ → ℕ
encode_i_shift_type shamt rs1 funct3 rd funct7 opcode =
    bit_or
      (bit_or
        (bit_or
          (bit_or (bit_or (bit_and funct7 0x7f <<< 25) (bit_and shamt 0x1f <<< 20))
            (bit_and rs1 0x1f <<< 15))
          (bit_and funct3 7 <<< 12))
        (bit_and rd 0x1f <<< 7))
      (bit_and opcode 0x7f)

unfoldable pub encode_s_type : ℕ → ℕ → ℕ → ℕ → ℕ → ℕ
encode_s_type imm rs1 rs2 funct3 opcode =
    let imm4_0 = bit_and imm 0x1f in
    let imm11_5 = bit_and (imm >>> 5) 0x7f in
    bit_or
      (bit_or
        (bit_or
          (bit_or (bit_or (bit_and imm11_5 0x7f <<< 25) (bit_and rs2 0x1f <<< 20))
            (bit_and rs1 0x1f <<< 15))
          (bit_and funct3 7 <<< 12))
        (bit_and imm4_0 0x1f <<< 7))
      (bit_and opcode 0x7f)

unfoldable pub encode_system_type : ℕ → ℕ → ℕ → ℕ → ℕ
encode_system_type csr rs1_zimm funct3 rd =
    bit_or
      (bit_or
        (bit_or (bit_or (bit_and csr 0xfff <<< 20) (bit_and rs1_zimm 0x1f <<< 15))
          (bit_and funct3 7 <<< 12))
        (bit_and rd 0x1f <<< 7))
      0x73
