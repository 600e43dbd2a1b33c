-- ===== src/Instruction/Decode.antt =====
-- core/include/core/instruction/Instruction.h, and `getImm` and `getInstructionArguments` of the
-- formats. An int32_t immediate is its 32-bit pattern.
use riscv_sym.Base.{
  ℕ, ◌+◌, ◌/◌, ◌%◌, ◌^◌, ◌-◌, bit_and, bit_or, ◌==◌, ltb, leb, if◌then◌else◌, Option, none, some,
  ◌>>>◌, ◌<<<◌, ◌||◌,
}

-- `getBits`; `none` is the `std::out_of_range` of an invalid range.
unfoldable pub get_bits : ℕ → ℕ → ℕ → Option ℕ
get_bits instruction x y =
    if ltb y x || leb 32 y then none else some (bit_and (instruction >>> x) (2 ^ (y - x + 1) - 1))

-- `getBits` at a range that is written out at the call and valid.
abbrev pub bits : ℕ → ℕ → ℕ → ℕ
bits instruction x y = instruction / 2 ^ x % 2 ^ (y - x + 1)

-- `createInstructionDescription` and its runtime twin.
abbrev pub description : ℕ → ℕ → ℕ
description funct3 funct7 = bit_or (funct3 <<< 8) funct7

pub record RArguments : Type 0 where
  pub rs1 : ℕ
  pub rs2 : ℕ
  pub rd : ℕ

unfoldable pub r_arguments : ℕ → RArguments
r_arguments i = record { rs1 = bits i 15 19; rs2 = bits i 20 24; rd = bits i 7 11 }

pub record IArguments : Type 0 where
  pub imm : ℕ
  pub rs1 : ℕ
  pub rd : ℕ

-- The sign is bit 11 of the field.
unfoldable pub i_imm : ℕ → ℕ
i_imm i =
    let imm = bits i 20 31 in
    if bits imm 11 11 == 1 then bit_or imm 0xffff_f000 else bit_and imm 0xfff

unfoldable pub i_arguments : ℕ → IArguments
i_arguments i = record { imm = i_imm i; rs1 = bits i 15 19; rd = bits i 7 11 }

pub record SArguments : Type 0 where
  pub imm : ℕ
  pub rs1 : ℕ
  pub rs2 : ℕ

unfoldable pub s_imm : ℕ → ℕ
s_imm i =
    let imm = bit_or (bits i 25 31 <<< 5) (bits i 7 11) in
    if bits imm 11 11 == 1 then bit_or imm 0xffff_f000 else bit_and imm 0xfff

unfoldable pub s_arguments : ℕ → SArguments
s_arguments i = record { imm = s_imm i; rs1 = bits i 15 19; rs2 = bits i 20 24 }

unfoldable pub b_imm : ℕ → ℕ
b_imm i =
    let imm =
      bit_or (bit_or (bit_or (bits i 31 31 <<< 12) (bits i 7 7 <<< 11)) (bits i 25 30 <<< 5))
        (bits i 8 11 <<< 1) in
    if bits imm 12 12 == 1 then bit_or imm 0xffff_f000 else bit_and imm 0xfff

-- `BType::Instruction::InstructionArguments` has the same fields.
unfoldable pub b_arguments : ℕ → SArguments
b_arguments i = record { imm = b_imm i; rs1 = bits i 15 19; rs2 = bits i 20 24 }

pub record JArguments : Type 0 where
  pub imm : ℕ
  pub rd : ℕ

unfoldable pub j_imm : ℕ → ℕ
j_imm i =
    let imm =
      bit_or (bit_or (bit_or (bits i 31 31 <<< 20) (bits i 12 19 <<< 12)) (bits i 20 20 <<< 11))
        (bits i 21 30 <<< 1) in
    if bits imm 20 20 == 1 then bit_or imm 0xfff0_0000 else bit_and imm 0x1f_ffff

unfoldable pub j_arguments : ℕ → JArguments
j_arguments i = record { imm = j_imm i; rd = bits i 7 11 }

unfoldable pub u_arguments : ℕ → JArguments
u_arguments i = record { imm = bit_and i 0xffff_f000; rd = bits i 7 11 }
