-- ===== src/Assembler/Sound.antt =====
-- Every assembling function of core/AssemblyCompiler.cpp that succeeds gives a 32-bit word with the
-- two low bits of an uncompressed instruction.
use riscv_sym.Base.{ℕ, ◌<◌, arith, List, [], ◌∷◌, ltb}
use riscv_sym.Assembler.Attempt.{validate_register, or_refuse}
use riscv_sym.Assembler.Register.{register_name_to_number, int32_immediate, uint32_immediate}
use riscv_sym.Base.Int.{pos, negsuc}
use riscv_sym.Assembler.Text.{stoi}
use riscv_sym.Assembler.Line.{AssemblyInstruction}
use riscv_sym.Assembler.Ensures.{
  Ensures, Any, Any-Ensures, bind-Ensures, refuse_when-Ensures, IsRegister,
  validate_register-IsRegister, address_register-IsRegister, with_three-Ensures, with_two-Ensures,
  encoded-Ensures,
}
use riscv_sym.Assembler.RType.{assemble_r_type, assemble_amo_type, assemble_lr_type}
use riscv_sym.Assembler.Immediate.{
  assemble_b_type, assemble_j_type, assemble_u_type, assemble_i_type, assemble_i_shift_type,
  assemble_i_load_type, assemble_s_type, is_odd, outside, split_mem_operand,
}
use riscv_sym.Assembler.System.{
  csr_operand, assemble_csr_reg, assemble_csr_imm, assemble_zero_operand_system_instr,
  assemble_sfence_vma, sfence_vma_operands,
}
use riscv_sym.Assembler.Encoded.{
  encode_r_type-IsInstruction, encode_i_type-IsInstruction, encode_s_type-IsInstruction,
  encode_b_type-IsInstruction, encode_j_type-IsInstruction, encode_u_type-IsInstruction,
  encode_i_shift_type-IsInstruction, encode_system_type-IsInstruction, IsInstruction, IsOpcode,
  encode_sfence_vma-IsInstruction,
}

abbrev register-IsRegister :
    (a : List ℕ) → Ensures IsRegister (validate_register (register_name_to_number a) a)
register-IsRegister a = validate_register-IsRegister a a

pub assemble_r_type_sound :
    (ins : AssemblyInstruction) (funct3 funct7 : ℕ)
    → funct3 < 8
    → funct7 < 128
    → Ensures IsInstruction (assemble_r_type ins funct3 funct7)
unfolding assemble_r_type
assemble_r_type_sound ins funct3 funct7 h3 h7 = with_three-Ensures IsInstruction _ _ _ λ a b c.
    bind-Ensures IsRegister IsInstruction _ _ (register-IsRegister a) λ rd h_rd.
      bind-Ensures IsRegister IsInstruction _ _ (register-IsRegister b) λ rs1 h_rs1.
        bind-Ensures IsRegister IsInstruction _ _ (register-IsRegister c) λ rs2 h_rs2.
          encoded-Ensures IsInstruction _ (
            encode_r_type-IsInstruction _ _ _ _ _ _ h7 h_rs2 h_rs1 h3 h_rd
              (omega arith, omega arith))

pub assemble_amo_type_sound :
    (ins : AssemblyInstruction) (funct7 : ℕ)
    → funct7 < 128
    → Ensures IsInstruction (assemble_amo_type ins funct7)
unfolding assemble_amo_type
assemble_amo_type_sound ins funct7 h7 = with_three-Ensures IsInstruction _ _ _ λ a b c.
    bind-Ensures IsRegister IsInstruction _ _ (register-IsRegister a) λ rd h_rd.
      bind-Ensures IsRegister IsInstruction _ _ (register-IsRegister b) λ rs2 h_rs2.
        bind-Ensures IsRegister IsInstruction _ _ (address_register-IsRegister _ _) λ rs1 h_rs1.
          encoded-Ensures IsInstruction _ (
            encode_r_type-IsInstruction _ _ _ _ _ _ h7 h_rs2 h_rs1 (omega arith) h_rd
              (omega arith, omega arith))

pub assemble_lr_type_sound :
    (ins : AssemblyInstruction) (funct7 : ℕ)
    → funct7 < 128
    → Ensures IsInstruction (assemble_lr_type ins funct7)
unfolding assemble_lr_type
assemble_lr_type_sound ins funct7 h7 = with_two-Ensures IsInstruction _ _ _ λ a b.
    bind-Ensures IsRegister IsInstruction _ _ (register-IsRegister a) λ rd h_rd.
      bind-Ensures IsRegister IsInstruction _ _ (address_register-IsRegister _ _) λ rs1 h_rs1.
        encoded-Ensures IsInstruction _ (
          encode_r_type-IsInstruction _ _ _ _ _ _ h7 (omega arith) h_rs1 (omega arith) h_rd
            (omega arith, omega arith))

pub assemble_b_type_sound :
    (ins : AssemblyInstruction) (funct3 : ℕ)
    → funct3 < 8
    → Ensures IsInstruction (assemble_b_type ins funct3)
unfolding assemble_b_type
assemble_b_type_sound ins funct3 h3 = with_three-Ensures IsInstruction _ _ _ λ a b c.
    bind-Ensures IsRegister IsInstruction _ _ (validate_register-IsRegister a b) λ rs1 h_rs1.
      bind-Ensures IsRegister IsInstruction _ _ (validate_register-IsRegister b c) λ rs2 h_rs2.
        bind-Ensures Any IsInstruction _ _ (Any-Ensures (or_refuse (stoi c) _)) λ imm _.
          refuse_when-Ensures IsInstruction (is_odd imm) _ _ λ _.
            refuse_when-Ensures IsInstruction (outside (negsuc 4095) (pos 4094) imm) _ _ λ _.
              encoded-Ensures IsInstruction _
                (encode_b_type-IsInstruction _ _ _ _ _ h_rs1 h_rs2 h3 (omega arith, omega arith))

pub assemble_j_type_sound :
    (ins : AssemblyInstruction) → Ensures IsInstruction (assemble_j_type ins)
unfolding assemble_j_type
assemble_j_type_sound ins = with_two-Ensures IsInstruction _ _ _ λ a b.
    bind-Ensures IsRegister IsInstruction _ _ (register-IsRegister a) λ rd h_rd.
      bind-Ensures Any IsInstruction _ _ (Any-Ensures (int32_immediate _ b)) λ imm _.
        refuse_when-Ensures IsInstruction (is_odd imm) _ _ λ _.
          refuse_when-Ensures IsInstruction (outside (negsuc 1048575) (pos 1048574) imm) _ _ λ _.
            encoded-Ensures IsInstruction _
              (encode_j_type-IsInstruction _ _ _ h_rd (omega arith, omega arith))

pub assemble_u_type_sound :
    (ins : AssemblyInstruction) (opcode : ℕ)
    → IsOpcode opcode
    → Ensures IsInstruction (assemble_u_type ins opcode)
unfolding assemble_u_type
assemble_u_type_sound ins opcode ho = with_two-Ensures IsInstruction _ _ _ λ a b.
    bind-Ensures IsRegister IsInstruction _ _ (register-IsRegister a) λ rd h_rd.
      bind-Ensures Any IsInstruction _ _ (Any-Ensures (uint32_immediate _ b))
        λ imm _. encoded-Ensures IsInstruction _ (encode_u_type-IsInstruction _ _ _ h_rd ho)

pub assemble_i_type_sound :
    (ins : AssemblyInstruction) (funct3 : ℕ)
    → funct3 < 8
    → Ensures IsInstruction (assemble_i_type ins funct3)
unfolding assemble_i_type
assemble_i_type_sound ins funct3 h3 = with_three-Ensures IsInstruction _ _ _ λ a b c.
    bind-Ensures IsRegister IsInstruction _ _ (register-IsRegister a) λ rd h_rd.
      bind-Ensures IsRegister IsInstruction _ _ (register-IsRegister b) λ rs1 h_rs1.
        bind-Ensures Any IsInstruction _ _ (Any-Ensures (int32_immediate _ c)) λ imm _.
          refuse_when-Ensures IsInstruction (outside (negsuc 2047) (pos 2047) imm) _ _ λ _.
            encoded-Ensures IsInstruction _
              (encode_i_type-IsInstruction _ _ _ _ _ h_rs1 h3 h_rd (omega arith, omega arith))

pub assemble_i_shift_type_sound :
    (ins : AssemblyInstruction) (funct3 funct7 : ℕ)
    → funct3 < 8
    → Ensures IsInstruction (assemble_i_shift_type ins funct3 funct7)
unfolding assemble_i_shift_type
assemble_i_shift_type_sound ins funct3 funct7 h3 = with_three-Ensures IsInstruction _ _ _ λ a b c.
    bind-Ensures IsRegister IsInstruction _ _ (register-IsRegister a) λ rd h_rd.
      bind-Ensures IsRegister IsInstruction _ _ (register-IsRegister b) λ rs1 h_rs1.
        bind-Ensures Any IsInstruction _ _ (Any-Ensures (int32_immediate _ c)) λ shamt _.
          refuse_when-Ensures IsInstruction (outside (pos 0) (pos 31) shamt) _ _ λ _.
            encoded-Ensures IsInstruction _ (
              encode_i_shift_type-IsInstruction _ _ _ _ _ _ h_rs1 h3 h_rd
                (omega arith, omega arith))

pub assemble_i_load_type_sound :
    (ins : AssemblyInstruction) (funct3 opcode : ℕ)
    → funct3 < 8
    → IsOpcode opcode
    → Ensures IsInstruction (assemble_i_load_type ins funct3 opcode)
unfolding assemble_i_load_type
assemble_i_load_type_sound ins funct3 opcode h3 ho = with_two-Ensures IsInstruction _ _ _ λ a b.
    bind-Ensures IsRegister IsInstruction _ _ (register-IsRegister a) λ rd h_rd.
      bind-Ensures Any IsInstruction _ _ (Any-Ensures (split_mem_operand _ b)) λ parts _.
        bind-Ensures Any IsInstruction _ _ (Any-Ensures (int32_immediate _ parts.imm_str)) λ imm _.
          bind-Ensures IsRegister IsInstruction _ _ (register-IsRegister parts.rs1_str) λ rs1 h_rs1.
            refuse_when-Ensures IsInstruction (outside (negsuc 2047) (pos 2047) imm) _ _ λ _.
              encoded-Ensures IsInstruction _
                (encode_i_type-IsInstruction _ _ _ _ _ h_rs1 h3 h_rd ho)

pub assemble_s_type_sound :
    (ins : AssemblyInstruction) (funct3 : ℕ)
    → funct3 < 8
    → Ensures IsInstruction (assemble_s_type ins funct3)
unfolding assemble_s_type
assemble_s_type_sound ins funct3 h3 = with_two-Ensures IsInstruction _ _ _ λ a b.
    bind-Ensures IsRegister IsInstruction _ _ (register-IsRegister a) λ rs2 h_rs2.
      bind-Ensures Any IsInstruction _ _ (Any-Ensures (split_mem_operand _ b)) λ parts _.
        bind-Ensures Any IsInstruction _ _ (Any-Ensures (int32_immediate _ parts.imm_str)) λ imm _.
          bind-Ensures IsRegister IsInstruction _ _ (register-IsRegister parts.rs1_str) λ rs1 h_rs1.
            refuse_when-Ensures IsInstruction (outside (negsuc 2047) (pos 2047) imm) _ _ λ _.
              encoded-Ensures IsInstruction _
                (encode_s_type-IsInstruction _ _ _ _ _ h_rs1 h_rs2 h3 (omega arith, omega arith))

pub assemble_csr_reg_sound :
    (ins : AssemblyInstruction) (funct3 : ℕ)
    → funct3 < 8
    → Ensures IsInstruction (assemble_csr_reg ins funct3)
unfolding assemble_csr_reg
assemble_csr_reg_sound ins funct3 h3 = with_three-Ensures IsInstruction _ _ _ λ a b c.
    bind-Ensures IsRegister IsInstruction _ _ (register-IsRegister a) λ rd h_rd.
      bind-Ensures Any IsInstruction _ _ (Any-Ensures (csr_operand b)) λ csr _.
        bind-Ensures IsRegister IsInstruction _ _ (register-IsRegister c) λ rs1 h_rs1.
          encoded-Ensures IsInstruction _ (encode_system_type-IsInstruction _ _ _ _ h_rs1 h3 h_rd)

pub assemble_csr_imm_sound :
    (ins : AssemblyInstruction) (funct3 : ℕ)
    → funct3 < 8
    → Ensures IsInstruction (assemble_csr_imm ins funct3)
unfolding assemble_csr_imm
assemble_csr_imm_sound ins funct3 h3 = with_three-Ensures IsInstruction _ _ _ λ a b c.
    bind-Ensures IsRegister IsInstruction _ _ (register-IsRegister a) λ rd h_rd.
      bind-Ensures Any IsInstruction _ _ (Any-Ensures (csr_operand b)) λ csr _.
        bind-Ensures Any IsInstruction _ _ (Any-Ensures (uint32_immediate _ c)) λ zimm _.
          refuse_when-Ensures IsInstruction (ltb 31 zimm) _ _ λ small.
            encoded-Ensures IsInstruction _
              (encode_system_type-IsInstruction _ _ _ _ (ground arith) h3 h_rd)

pub assemble_zero_operand_system_instr_sound :
    (ins : AssemblyInstruction) (base_opcode : ℕ)
    → IsInstruction base_opcode
    → Ensures IsInstruction (assemble_zero_operand_system_instr ins base_opcode)
unfolding assemble_zero_operand_system_instr Ensures
assemble_zero_operand_system_instr_sound ins base_opcode h =
    elim ins.operands
      as (λ os. Ensures IsInstruction (
        assemble_zero_operand_system_instr
          (record { instruction_name = ins.instruction_name; operands = os }) base_opcode)) [
            | [] ↦ h
            | a ∷ rest ↦ tt
          ]

sfence_vma_operands_sound : (os : List (List ℕ)) → Ensures IsInstruction (sfence_vma_operands os)
unfolding sfence_vma_operands Ensures
sfence_vma_operands_sound [] = encode_sfence_vma-IsInstruction 0 0 (omega arith) (omega arith)
sfence_vma_operands_sound (a ∷ []) =
    bind-Ensures IsRegister IsInstruction _ _ (register-IsRegister a)
      λ rs1 h1. encode_sfence_vma-IsInstruction rs1 0 h1 (omega arith)
sfence_vma_operands_sound (a ∷ b ∷ []) =
    bind-Ensures IsRegister IsInstruction _ _ (register-IsRegister a) λ rs1 h1.
      bind-Ensures IsRegister IsInstruction _ _ (register-IsRegister b)
        λ rs2 h2. encode_sfence_vma-IsInstruction rs1 rs2 h1 h2
sfence_vma_operands_sound (a ∷ b ∷ c ∷ os) = tt

pub assemble_sfence_vma_sound :
    (ins : AssemblyInstruction) → Ensures IsInstruction (assemble_sfence_vma ins)
unfolding assemble_sfence_vma
assemble_sfence_vma_sound ins = sfence_vma_operands_sound ins.operands
