-- ===== src/Instruction/CType/Words.antt =====
-- core/instruction/CTypeInstruction.cpp: what an expansion can be.
use riscv_sym.Base.{
  ℕ, ◌<◌, ◌≡◌, ◌==◌, not, ◌&&◌, ◌⊎◌, inl, inr, Bool, true, false, if◌then◌else◌, arith, refl, sym,
}
use mathlib.Core.Path.{subst}
use riscv_sym.Instruction.Decode.{bits}
use riscv_sym.Instruction.CType.{
  build_r, build_i, build_s, build_b, build_j, build_u, sign_extend, imm6, c_addi4spn, decompress0,
  c_addi, c_li, c_lui, c_misc_alu, decompress1, c_slli, c_lwsp, c_jump_move_add, c_swsp,
  decompress2, decompress,
}
use riscv_sym.Instruction.CType.Build.{
  build_i-encode_i_type, build_s-encode_s_type, build_b-encode_b_type, build_j-encode_j_type,
  build_u-encode_u_type, build_r-encode_r_type,
}
use riscv_sym.Assembler.Ensures.{IsRegister}
use riscv_sym.Assembler.Encoded.{
  IsInstruction, IsOpcode, encode_r_type-IsInstruction, encode_i_type-IsInstruction,
  encode_s_type-IsInstruction, encode_b_type-IsInstruction, encode_j_type-IsInstruction,
  encode_u_type-IsInstruction,
}

-- No instruction, or one of 32 bits.
abbrev pub IsExpansion : ℕ → Type 0
IsExpansion w = (w ≡ 0) ⊎ IsInstruction w

nothing : IsExpansion 0
nothing = inl refl

either : (b : Bool) (x y : ℕ) → IsExpansion x → IsExpansion y → IsExpansion (if b then x else y)
either true x y hx hy = hx
either false x y hx hy = hy

built_r :
    (opcode funct3 funct7 rd rs1 rs2 : ℕ)
    → IsOpcode opcode
    → funct3 < 8
    → funct7 < 128
    → IsRegister rd
    → IsRegister rs1
    → IsRegister rs2
    → IsExpansion (build_r opcode funct3 funct7 rd rs1 rs2)
built_r op f3 f7 rd rs1 rs2 ho h3 h7 hd h1 h2 = inr (
    subst IsInstruction (sym (build_r-encode_r_type op f3 f7 rd rs1 rs2))
      (encode_r_type-IsInstruction f7 rs2 rs1 f3 rd op h7 h2 h1 h3 hd ho))

built_i :
    (opcode funct3 rd rs1 imm : ℕ)
    → IsOpcode opcode
    → funct3 < 8
    → IsRegister rd
    → IsRegister rs1
    → IsExpansion (build_i opcode funct3 rd rs1 imm)
built_i op f3 rd rs1 imm ho h3 hd h1 = inr (
    subst IsInstruction
      (sym (build_i-encode_i_type op f3 rd rs1 0 imm (ho.0) h3 hd h1 (omega arith)))
      (encode_i_type-IsInstruction imm rs1 f3 rd op h1 h3 hd ho))

built_s :
    (opcode funct3 rs1 rs2 imm : ℕ)
    → IsOpcode opcode
    → funct3 < 8
    → IsRegister rs1
    → IsRegister rs2
    → IsExpansion (build_s opcode funct3 rs1 rs2 imm)
built_s op f3 rs1 rs2 imm ho h3 h1 h2 = inr (
    subst IsInstruction
      (sym (build_s-encode_s_type op f3 0 rs1 rs2 imm (ho.0) h3 (omega arith) h1 h2))
      (encode_s_type-IsInstruction imm rs1 rs2 f3 op h1 h2 h3 ho))

built_b :
    (opcode funct3 rs1 rs2 imm : ℕ)
    → IsOpcode opcode
    → funct3 < 8
    → IsRegister rs1
    → IsRegister rs2
    → IsExpansion (build_b opcode funct3 rs1 rs2 imm)
built_b op f3 rs1 rs2 imm ho h3 h1 h2 = inr (
    subst IsInstruction
      (sym (build_b-encode_b_type op f3 0 rs1 rs2 imm (ho.0) h3 (omega arith) h1 h2))
      (encode_b_type-IsInstruction imm rs2 rs1 f3 op h1 h2 h3 ho))

built_j :
    (opcode rd imm : ℕ) → IsOpcode opcode → IsRegister rd → IsExpansion (build_j opcode rd imm)
built_j op rd imm ho hd = inr (
    subst IsInstruction
      (sym
        (build_j-encode_j_type op 0 rd 0 0 imm (ho.0) (omega arith) hd (omega arith) (omega arith)))
      (encode_j_type-IsInstruction imm rd op hd ho))

built_u :
    (opcode rd imm : ℕ) → IsOpcode opcode → IsRegister rd → IsExpansion (build_u opcode rd imm)
built_u op rd imm ho hd = inr (
    subst IsInstruction
      (sym
        (build_u-encode_u_type op 0 rd 0 0 imm (ho.0) (omega arith) hd (omega arith) (omega arith)))
      (encode_u_type-IsInstruction imm rd op hd ho))

abbrev arithmetic : IsOpcode 0x13
arithmetic = (omega arith, omega arith)

abbrev register_op : IsOpcode 0x33
register_op = (omega arith, omega arith)

abbrev load_op : IsOpcode 0x03
load_op = (omega arith, omega arith)

abbrev store_op : IsOpcode 0x23
store_op = (omega arith, omega arith)

abbrev jump_op : IsOpcode 0x6f
jump_op = (omega arith, omega arith)

abbrev jump_register_op : IsOpcode 0x67
jump_register_op = (omega arith, omega arith)

c_addi4spn-IsExpansion : (inst : ℕ) → IsExpansion (c_addi4spn inst)
unfolding c_addi4spn
c_addi4spn-IsExpansion inst =
    either (_) _ _ nothing
      (built_i 0x13 0 _ 2 _ arithmetic (omega arith) (omega arith) (omega arith))

decompress0-IsExpansion : (inst f : ℕ) → IsExpansion (decompress0 inst f)
unfolding decompress0
decompress0-IsExpansion inst f = either (f == 0) _ _ (c_addi4spn-IsExpansion inst) (
    either (f == 2) _ _ (built_i 0x03 2 _ _ _ load_op (omega arith) (omega arith) (omega arith)) (
      either (f == 6) _ _ (built_s 0x23 2 _ _ _ store_op (omega arith) (omega arith) (omega arith))
        nothing))

c_addi-IsExpansion : (inst : ℕ) → IsExpansion (c_addi inst)
unfolding c_addi
c_addi-IsExpansion inst =
    either (bits inst 7 11 == 0 && sign_extend (imm6 inst) 6 == 0) _ _
      (built_i 0x13 0 0 0 0 arithmetic (omega arith) (omega arith) (omega arith))
      (built_i 0x13 0 _ _ _ arithmetic (omega arith) (omega arith) (omega arith))

c_li-IsExpansion : (inst : ℕ) → IsExpansion (c_li inst)
unfolding c_li
c_li-IsExpansion inst =
    either (bits inst 7 11 == 0) _ _ nothing
      (built_i 0x13 0 _ 0 _ arithmetic (omega arith) (omega arith) (omega arith))

c_lui-IsExpansion : (inst : ℕ) → IsExpansion (c_lui inst)
unfolding c_lui
c_lui-IsExpansion inst =
    either (bits inst 7 11 == 2) _ _
      (either (_) _ _ nothing
        (built_i 0x13 0 2 2 _ arithmetic (omega arith) (omega arith) (omega arith)))
      (either (bits inst 7 11 == 0) _ _ nothing (
        either (sign_extend (imm6 inst) 6 == 0) _ _ nothing
          (built_u 0x37 _ _ (omega arith, omega arith) (omega arith))))

c_misc_alu-IsExpansion : (inst : ℕ) → IsExpansion (c_misc_alu inst)
unfolding c_misc_alu
c_misc_alu-IsExpansion inst =
    either (bits inst 10 11 == 3) _ _
      (either (bits inst 5 6 == 0) _ _
        (built_r 0x33 0 0x20 _ _ _ register_op (omega arith) (omega arith) (omega arith)
          (omega arith) (omega arith))
        (either (bits inst 5 6 == 1) _ _
          (built_r 0x33 4 0 _ _ _ register_op (omega arith) (omega arith) (omega arith)
            (omega arith) (omega arith))
          (either (bits inst 5 6 == 2) _ _
            (built_r 0x33 6 0 _ _ _ register_op (omega arith) (omega arith) (omega arith)
              (omega arith) (omega arith))
            (built_r 0x33 7 0 _ _ _ register_op (omega arith) (omega arith) (omega arith)
              (omega arith) (omega arith)))))
      (either (bits inst 10 11 == 0) _ _
        (built_i 0x13 5 _ _ _ arithmetic (omega arith) (omega arith) (omega arith))
        (either (bits inst 10 11 == 1) _ _
          (built_i 0x13 5 _ _ _ arithmetic (omega arith) (omega arith) (omega arith))
          (built_i 0x13 7 _ _ _ arithmetic (omega arith) (omega arith) (omega arith))))

decompress1-IsExpansion : (inst f : ℕ) → IsExpansion (decompress1 inst f)
unfolding decompress1
decompress1-IsExpansion inst f = either (f == 0) _ _ (c_addi-IsExpansion inst) (
    either (f == 1) _ _ (built_j 0x6f 1 _ jump_op (omega arith)) (
      either (f == 2) _ _ (c_li-IsExpansion inst) (
        either (f == 3) _ _ (c_lui-IsExpansion inst) (
          either (f == 4) _ _ (c_misc_alu-IsExpansion inst) (
            either (f == 5) _ _ (built_j 0x6f 0 _ jump_op (omega arith)) (
              built_b 0x63 _ _ 0 _ (omega arith, omega arith) (ground arith) (omega arith)
                (omega arith)))))))

c_slli-IsExpansion : (inst : ℕ) → IsExpansion (c_slli inst)
unfolding c_slli
c_slli-IsExpansion inst =
    either (_) _ _ (built_i 0x13 1 _ _ _ arithmetic (omega arith) (omega arith) (omega arith))
      nothing

c_lwsp-IsExpansion : (inst : ℕ) → IsExpansion (c_lwsp inst)
unfolding c_lwsp
c_lwsp-IsExpansion inst =
    either (_) _ _ nothing (built_i 0x03 2 _ 2 _ load_op (omega arith) (omega arith) (omega arith))

c_jump_move_add-IsExpansion : (inst : ℕ) → IsExpansion (c_jump_move_add inst)
unfolding c_jump_move_add
c_jump_move_add-IsExpansion inst =
    either (bits inst 12 12 == 0) _ _
      (either (bits inst 2 6 == 0 && not (bits inst 7 11 == 0)) _ _
        (built_i 0x67 0 0 _ 0 jump_register_op (omega arith) (omega arith) (omega arith))
        (either (not (bits inst 2 6 == 0) && not (bits inst 7 11 == 0)) _ _
          (built_r 0x33 0 0 _ 0 _ register_op (omega arith) (omega arith) (omega arith)
            (omega arith) (omega arith))
          nothing))
      (either (bits inst 7 11 == 0 && bits inst 2 6 == 0) _ _ (inr (omega arith, omega arith)) (
        either (bits inst 2 6 == 0 && not (bits inst 7 11 == 0)) _ _
          (built_i 0x67 0 1 _ 0 jump_register_op (omega arith) (omega arith) (omega arith))
          (either (not (bits inst 2 6 == 0) && not (bits inst 7 11 == 0)) _ _
            (built_r 0x33 0 0 _ _ _ register_op (omega arith) (omega arith) (omega arith)
              (omega arith) (omega arith))
            nothing)))

c_swsp-IsExpansion : (inst : ℕ) → IsExpansion (c_swsp inst)
unfolding c_swsp
c_swsp-IsExpansion inst = built_s 0x23 2 2 _ _ store_op (omega arith) (omega arith) (omega arith)

decompress2-IsExpansion : (inst f : ℕ) → IsExpansion (decompress2 inst f)
unfolding decompress2
decompress2-IsExpansion inst f = either (f == 0) _ _ (c_slli-IsExpansion inst) (
    either (f == 2) _ _ (c_lwsp-IsExpansion inst) (
      either (f == 4) _ _ (c_jump_move_add-IsExpansion inst)
        (either (f == 6) _ _ (c_swsp-IsExpansion inst) nothing)))

-- Every compressed encoding expands to 0 or to a 32-bit word with the low bits 11 of an
-- uncompressed instruction.
pub decompress-IsExpansion : (inst : ℕ) → IsExpansion (decompress inst)
unfolding decompress
decompress-IsExpansion inst = either (inst == 0) _ _ nothing (
    either (bits inst 0 1 == 0) _ _ (decompress0-IsExpansion inst (bits inst 13 15)) (
      either (bits inst 0 1 == 1) _ _ (decompress1-IsExpansion inst (bits inst 13 15))
        (either (bits inst 0 1 == 2) _ _ (decompress2-IsExpansion inst (bits inst 13 15)) nothing)))
