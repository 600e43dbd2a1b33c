-- ===== src/Instruction/CType.antt =====
-- core/instruction/CTypeInstruction.cpp: compressed instructions, expanded to 32 bits. The warning
-- about an unknown encoding is left out.
pub mod Build
pub mod Words
use riscv_sym.Base.{
  ℕ, ◌+◌, ◌-◌, bit_and, bit_or, ◌==◌, if◌then◌else◌, ◌>>>◌, ◌<<<◌, u32, ne_zero, not, ◌&&◌,
}
use riscv_sym.Instruction.Decode.{bits}

unfoldable pub sign_extend : ℕ → ℕ → ℕ
sign_extend val width =
    if ne_zero (bit_and val (1 <<< (width - 1)))
    then bit_or val (u32 (0xffff_ffff <<< width))
    else val

unfoldable pub build_r : ℕ → ℕ → ℕ → ℕ → ℕ → ℕ → ℕ
build_r opcode funct3 funct7 rd rs1 rs2 =
    bit_or
      (bit_or
        (bit_or (bit_or (bit_or (u32 (funct7 <<< 25)) (u32 (rs2 <<< 20))) (u32 (rs1 <<< 15)))
          (u32 (funct3 <<< 12)))
        (u32 (rd <<< 7)))
      opcode

unfoldable pub build_i : ℕ → ℕ → ℕ → ℕ → ℕ → ℕ
build_i opcode funct3 rd rs1 imm =
    bit_or
      (bit_or
        (bit_or (bit_or (u32 (bit_and imm 0xfff <<< 20)) (u32 (rs1 <<< 15))) (u32 (funct3 <<< 12)))
        (u32 (rd <<< 7)))
      opcode

unfoldable pub build_s : ℕ → ℕ → ℕ → ℕ → ℕ → ℕ
build_s opcode funct3 rs1 rs2 imm =
    let imm11_5 = bit_and (imm >>> 5) 0x7f in
    let imm4_0 = bit_and imm 0x1f in
    bit_or
      (bit_or
        (bit_or (bit_or (bit_or (u32 (imm11_5 <<< 25)) (u32 (rs2 <<< 20))) (u32 (rs1 <<< 15)))
          (u32 (funct3 <<< 12)))
        (u32 (imm4_0 <<< 7)))
      opcode

unfoldable pub build_b : ℕ → ℕ → ℕ → ℕ → ℕ → ℕ
build_b opcode funct3 rs1 rs2 imm =
    let bit12 = bit_and (imm >>> 12) 1 in
    let bit11 = bit_and (imm >>> 11) 1 in
    let bits10_5 = bit_and (imm >>> 5) 0x3f in
    let bits4_1 = bit_and (imm >>> 1) 0xf in
    bit_or
      (bit_or
        (bit_or
          (bit_or
            (bit_or
              (bit_or (bit_or (u32 (bit12 <<< 31)) (u32 (bits10_5 <<< 25))) (u32 (rs2 <<< 20)))
              (u32 (rs1 <<< 15)))
            (u32 (funct3 <<< 12)))
          (u32 (bits4_1 <<< 8)))
        (u32 (bit11 <<< 7)))
      opcode

unfoldable pub build_j : ℕ → ℕ → ℕ → ℕ
build_j opcode rd imm =
    let bit20 = bit_and (imm >>> 20) 1 in
    let bits19_12 = bit_and (imm >>> 12) 0xff in
    let bit11 = bit_and (imm >>> 11) 1 in
    let bits10_1 = bit_and (imm >>> 1) 0x3ff in
    bit_or
      (bit_or
        (bit_or (bit_or (bit_or (u32 (bit20 <<< 31)) (u32 (bits10_1 <<< 21))) (u32 (bit11 <<< 20)))
          (u32 (bits19_12 <<< 12)))
        (u32 (rd <<< 7)))
      opcode

unfoldable pub build_u : ℕ → ℕ → ℕ → ℕ
build_u opcode rd imm = bit_or (bit_or (bit_and imm 0xffff_f000) (u32 (rd <<< 7))) opcode

-- `getRvcRegister`.
abbrev pub rvc_register : ℕ → ℕ → ℕ
rvc_register inst start_bit = 8 + bits inst start_bit (start_bit + 2)

-- The immediate of six bits that most arithmetic forms share.
abbrev pub imm6 : ℕ → ℕ
imm6 inst = bit_or (bits inst 12 12 <<< 5) (bits inst 2 6)

-- The immediate of C.LW and C.SW.
abbrev pub word_imm : ℕ → ℕ
word_imm inst = bit_or (bit_or (bits inst 5 5 <<< 6) (bits inst 10 12 <<< 3)) (bits inst 6 6 <<< 2)

-- The offset of C.JAL and C.J.
abbrev pub jump_imm : ℕ → ℕ
jump_imm inst =
    sign_extend
      (bit_or
        (bit_or
          (bit_or
            (bit_or
              (bit_or
                (bit_or (bit_or (bits inst 12 12 <<< 11) (bits inst 8 8 <<< 10))
                  (bits inst 9 10 <<< 8))
                (bits inst 6 6 <<< 7))
              (bits inst 7 7 <<< 6))
            (bits inst 2 2 <<< 5))
          (bits inst 11 11 <<< 4))
        (bits inst 3 5 <<< 1))
      12

-- The offset of C.BEQZ and C.BNEZ.
abbrev pub branch_imm : ℕ → ℕ
branch_imm inst =
    sign_extend
      (bit_or
        (bit_or
          (bit_or (bit_or (bits inst 12 12 <<< 8) (bits inst 5 6 <<< 6)) (bits inst 2 2 <<< 5))
          (bits inst 10 11 <<< 3))
        (bits inst 3 4 <<< 1))
      9

unfoldable pub c_addi4spn : ℕ → ℕ
unfolding build_i
c_addi4spn inst =
    let imm =
      bit_or (bit_or (bit_or (bits inst 7 10 <<< 6) (bits inst 11 12 <<< 4)) (bits inst 5 5 <<< 3))
        (bits inst 6 6 <<< 2) in
    if imm == 0 then 0 else build_i 0x13 0 (rvc_register inst 2) 2 imm

-- Quadrant 0.
unfoldable pub decompress0 : ℕ → ℕ → ℕ
unfolding c_addi4spn build_i build_s
decompress0 inst funct3 =
    if funct3 == 0
    then c_addi4spn inst
    else if funct3 == 2
    then build_i 0x03 2 (rvc_register inst 2) (rvc_register inst 7) (word_imm inst)
    else if funct3 == 6
    then build_s 0x23 2 (rvc_register inst 7) (rvc_register inst 2) (word_imm inst)
    else 0

unfoldable pub c_addi : ℕ → ℕ
unfolding build_i sign_extend
c_addi inst =
    let rd = bits inst 7 11 in
    let imm = sign_extend (imm6 inst) 6 in
    if rd == 0 && imm == 0 then build_i 0x13 0 0 0 0 else build_i 0x13 0 rd rd imm

unfoldable pub c_li : ℕ → ℕ
unfolding build_i sign_extend
c_li inst =
    let rd = bits inst 7 11 in
    if rd == 0 then 0 else build_i 0x13 0 rd 0 (sign_extend (imm6 inst) 6)

-- C.ADDI16SP and C.LUI.
unfoldable pub c_lui : ℕ → ℕ
unfolding build_i build_u sign_extend
c_lui inst =
    let rd = bits inst 7 11 in
    let imm = sign_extend (imm6 inst) 6 in
    let imm16 =
      sign_extend
        (bit_or
          (bit_or
            (bit_or (bit_or (bits inst 12 12 <<< 9) (bits inst 3 4 <<< 7)) (bits inst 5 5 <<< 6))
            (bits inst 2 2 <<< 5))
          (bits inst 6 6 <<< 4))
        10 in
    if rd == 2
    then (if imm16 == 0 then 0 else build_i 0x13 0 2 2 imm16)
    else if rd == 0
    then 0
    else if imm == 0
    then 0
    else build_u 0x37 rd (u32 (imm <<< 12))

unfoldable pub c_misc_alu : ℕ → ℕ
unfolding build_i build_r sign_extend
c_misc_alu inst =
    let funct2 = bits inst 10 11 in
    let rd_prime = rvc_register inst 7 in
    let rs2_prime = rvc_register inst 2 in
    let funct2_sub = bits inst 5 6 in
    let imm = imm6 inst in
    if funct2 == 3
    then (if funct2_sub == 0
        then build_r 0x33 0 0x20 rd_prime rd_prime rs2_prime
        else if funct2_sub == 1
        then build_r 0x33 4 0 rd_prime rd_prime rs2_prime
        else if funct2_sub == 2
        then build_r 0x33 6 0 rd_prime rd_prime rs2_prime
        else build_r 0x33 7 0 rd_prime rd_prime rs2_prime)
    else if funct2 == 0
    then build_i 0x13 5 rd_prime rd_prime imm
    else if funct2 == 1
    then build_i 0x13 5 rd_prime rd_prime (bit_or imm 0x400)
    else build_i 0x13 7 rd_prime rd_prime (sign_extend imm 6)

-- Quadrant 1.
unfoldable pub decompress1 : ℕ → ℕ → ℕ
unfolding c_addi c_li c_lui c_misc_alu build_j build_b sign_extend
decompress1 inst funct3 =
    if funct3 == 0
    then c_addi inst
    else if funct3 == 1
    then build_j 0x6f 1 (jump_imm inst)
    else if funct3 == 2
    then c_li inst
    else if funct3 == 3
    then c_lui inst
    else if funct3 == 4
    then c_misc_alu inst
    else if funct3 == 5
    then build_j 0x6f 0 (jump_imm inst)
    else build_b 0x63 (if funct3 == 6 then 0 else 1) (rvc_register inst 7) 0 (branch_imm inst)

unfoldable pub c_slli : ℕ → ℕ
unfolding build_i
c_slli inst =
    let rd = bits inst 7 11 in
    let shamt = imm6 inst in
    if not (rd == 0) && not (shamt == 0) then build_i 0x13 1 rd rd shamt else 0

unfoldable pub c_lwsp : ℕ → ℕ
unfolding build_i
c_lwsp inst =
    let rd = bits inst 7 11 in
    let imm = bit_or (bit_or (bits inst 2 3 <<< 6) (bits inst 12 12 <<< 5)) (bits inst 4 6 <<< 2) in
    if rd == 0 then 0 else build_i 0x03 2 rd 2 imm

-- C.JR, C.MV, C.EBREAK, C.JALR and C.ADD.
unfoldable pub c_jump_move_add : ℕ → ℕ
unfolding build_i build_r
c_jump_move_add inst =
    let rs1 = bits inst 7 11 in
    let rs2 = bits inst 2 6 in
    if bits inst 12 12 == 0
    then (if rs2 == 0 && not (rs1 == 0)
        then build_i 0x67 0 0 rs1 0
        else if not (rs2 == 0) && not (rs1 == 0)
        then build_r 0x33 0 0 rs1 0 rs2
        else 0)
    else if rs1 == 0 && rs2 == 0
    then 0x0010_0073
    else if rs2 == 0 && not (rs1 == 0)
    then build_i 0x67 0 1 rs1 0
    else if not (rs2 == 0) && not (rs1 == 0)
    then build_r 0x33 0 0 rs1 rs1 rs2
    else 0

unfoldable pub c_swsp : ℕ → ℕ
unfolding build_s
c_swsp inst = build_s 0x23 2 2 (bits inst 2 6) (bit_or (bits inst 7 8 <<< 6) (bits inst 9 12 <<< 2))

-- Quadrant 2.
unfoldable pub decompress2 : ℕ → ℕ → ℕ
unfolding c_slli c_lwsp c_jump_move_add c_swsp
decompress2 inst funct3 =
    if funct3 == 0
    then c_slli inst
    else if funct3 == 2
    then c_lwsp inst
    else if funct3 == 4
    then c_jump_move_add inst
    else if funct3 == 6
    then c_swsp inst
    else 0

-- 0 is the answer for an encoding that is not known.
unfoldable pub decompress : ℕ → ℕ
unfolding decompress0 decompress1 decompress2
decompress inst =
    let op = bits inst 0 1 in
    let funct3 = bits inst 13 15 in
    if inst == 0
    then 0
    else if op == 0
    then decompress0 inst funct3
    else if op == 1
    then decompress1 inst funct3
    else if op == 2
    then decompress2 inst funct3
    else 0
