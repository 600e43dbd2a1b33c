-- ===== src/Assembler/Words.antt =====
-- core/AssemblyCompiler.cpp, `getInstruction` and `compile`: what any line can give.
use riscv_sym.Base.{
  ℕ, ◌*◌, ◌^◌, ◌≡◌, ◌⊎◌, inl, inr, arith, refl, Option, some, none, List, [], ◌∷◌, Bool, true,
  false, if◌then◌else◌, map,
}
use mathlib.Core.Path.{subst}
use mathlib.Core.Option.{some-injective}
use riscv_sym.Base.Lists.{All}
use riscv_sym.Assembler.Text.{Text, is_empty, same_text, codes, to_lower}
use riscv_sym.Assembler.Attempt.{
  Attempt, encoded, refused, complained, InstructionOutput, returned, report,
}
use riscv_sym.Assembler.Line.{AssemblyInstruction, parse}
use riscv_sym.Assembler.Ensures.{Ensures}
use riscv_sym.Assembler.Encoded.{IsInstruction}
use riscv_sym.Assembler.Sound.{
  assemble_amo_type_sound, assemble_b_type_sound, assemble_csr_imm_sound, assemble_csr_reg_sound,
  assemble_i_load_type_sound, assemble_i_shift_type_sound, assemble_i_type_sound,
  assemble_j_type_sound, assemble_lr_type_sound, assemble_r_type_sound, assemble_s_type_sound,
  assemble_sfence_vma_sound, assemble_u_type_sound, assemble_zero_operand_system_instr_sound,
}
use riscv_sym.Assembler.RType.{
  assemble_add, assemble_sub, assemble_sll, assemble_slt, assemble_sltu, assemble_xor, assemble_srl,
  assemble_sra, assemble_or, assemble_and, assemble_mul, assemble_mulh, assemble_mulhsu,
  assemble_mulhu, assemble_div, assemble_divu, assemble_rem, assemble_remu, assemble_lr,
  assemble_sc, assemble_amoswap, assemble_amoadd, assemble_amoxor, assemble_amoand, assemble_amoor,
  assemble_amomin, assemble_amomax, assemble_amominu, assemble_amomaxu,
}
use riscv_sym.Assembler.Immediate.{
  assemble_beq, assemble_bne, assemble_blt, assemble_bge, assemble_bltu, assemble_bgeu,
  assemble_jal, assemble_lui, assemble_auipc, assemble_addi, assemble_slti, assemble_sltiu,
  assemble_xori, assemble_ori, assemble_andi, assemble_slli, assemble_srli, assemble_srai,
  assemble_lb, assemble_lh, assemble_lw, assemble_lbu, assemble_lhu, assemble_jalr, assemble_sb,
  assemble_sh, assemble_sw,
}
use riscv_sym.Assembler.System.{
  lookup, assemble_csrrw, assemble_csrrs, assemble_csrrc, assemble_csrrwi, assemble_csrrsi,
  assemble_csrrci,
}
use riscv_sym.Assembler.Compile.{instruction_map, assemble, get_instruction, compile}

abbrev IsSound : (AssemblyInstruction → Attempt ℕ) → Type 0
IsSound f = (ins : AssemblyInstruction) → Ensures IsInstruction (f ins)

abbrev Entry : Type 0
Entry = Text × (AssemblyInstruction → Attempt ℕ)

abbrev EntrySound : Entry → Type 0
EntrySound e = IsSound e.1

infixr 6 ◌⊳◌
abbrev ◌⊳◌ : {P Q : Type 0} → P → Q → P × Q
h ⊳ hs = (h, hs)

instruction_map_sound : All EntrySound instruction_map
unfolding assemble_add assemble_sub assemble_sll assemble_slt assemble_sltu assemble_xor
    assemble_srl assemble_sra assemble_or assemble_and assemble_mul assemble_mulh assemble_mulhsu
    assemble_mulhu assemble_div assemble_divu assemble_rem assemble_remu assemble_lr assemble_sc
    assemble_amoswap assemble_amoadd assemble_amoxor assemble_amoand assemble_amoor assemble_amomin
    assemble_amomax assemble_amominu assemble_amomaxu assemble_beq assemble_bne assemble_blt
    assemble_bge assemble_bltu assemble_bgeu assemble_jal assemble_lui assemble_auipc assemble_addi
    assemble_slti assemble_sltiu assemble_xori assemble_ori assemble_andi assemble_slli
    assemble_srli assemble_srai assemble_lb assemble_lh assemble_lw assemble_lbu assemble_lhu
    assemble_jalr assemble_sb assemble_sh assemble_sw assemble_csrrw assemble_csrrs assemble_csrrc
    assemble_csrrwi assemble_csrrsi assemble_csrrci
instruction_map_sound =
    (λ i. assemble_r_type_sound i 0 0 (omega arith) (omega arith))
    ⊳ (λ i. assemble_r_type_sound i 0 0x20 (omega arith) (omega arith))
    ⊳ (λ i. assemble_r_type_sound i 1 0 (omega arith) (omega arith))
    ⊳ (λ i. assemble_r_type_sound i 2 0 (omega arith) (omega arith))
    ⊳ (λ i. assemble_r_type_sound i 3 0 (omega arith) (omega arith))
    ⊳ (λ i. assemble_r_type_sound i 4 0 (omega arith) (omega arith))
    ⊳ (λ i. assemble_r_type_sound i 5 0 (omega arith) (omega arith))
    ⊳ (λ i. assemble_r_type_sound i 5 0x20 (omega arith) (omega arith))
    ⊳ (λ i. assemble_r_type_sound i 6 0 (omega arith) (omega arith))
    ⊳ (λ i. assemble_r_type_sound i 7 0 (omega arith) (omega arith))
    ⊳ (λ i. assemble_r_type_sound i 0 1 (omega arith) (omega arith))
    ⊳ (λ i. assemble_r_type_sound i 1 1 (omega arith) (omega arith))
    ⊳ (λ i. assemble_r_type_sound i 2 1 (omega arith) (omega arith))
    ⊳ (λ i. assemble_r_type_sound i 3 1 (omega arith) (omega arith))
    ⊳ (λ i. assemble_r_type_sound i 4 1 (omega arith) (omega arith))
    ⊳ (λ i. assemble_r_type_sound i 5 1 (omega arith) (omega arith))
    ⊳ (λ i. assemble_r_type_sound i 6 1 (omega arith) (omega arith))
    ⊳ (λ i. assemble_r_type_sound i 7 1 (omega arith) (omega arith))
    ⊳ (λ i. assemble_lr_type_sound i (2 * 2 ^ 2) (omega arith))
    ⊳ (λ i. assemble_amo_type_sound i (3 * 2 ^ 2) (omega arith))
    ⊳ (λ i. assemble_amo_type_sound i (1 * 2 ^ 2) (omega arith))
    ⊳ (λ i. assemble_amo_type_sound i (0 * 2 ^ 2) (omega arith))
    ⊳ (λ i. assemble_amo_type_sound i (4 * 2 ^ 2) (omega arith))
    ⊳ (λ i. assemble_amo_type_sound i (12 * 2 ^ 2) (omega arith))
    ⊳ (λ i. assemble_amo_type_sound i (8 * 2 ^ 2) (omega arith))
    ⊳ (λ i. assemble_amo_type_sound i (16 * 2 ^ 2) (omega arith))
    ⊳ (λ i. assemble_amo_type_sound i (20 * 2 ^ 2) (omega arith))
    ⊳ (λ i. assemble_amo_type_sound i (24 * 2 ^ 2) (omega arith))
    ⊳ (λ i. assemble_amo_type_sound i (28 * 2 ^ 2) (omega arith))
    ⊳ (λ i. assemble_b_type_sound i 0 (omega arith))
    ⊳ (λ i. assemble_b_type_sound i 1 (omega arith))
    ⊳ (λ i. assemble_b_type_sound i 4 (omega arith))
    ⊳ (λ i. assemble_b_type_sound i 5 (omega arith))
    ⊳ (λ i. assemble_b_type_sound i 6 (omega arith))
    ⊳ (λ i. assemble_b_type_sound i 7 (omega arith))
    ⊳ assemble_j_type_sound
    ⊳ (λ i. assemble_u_type_sound i 0x37 (omega arith, omega arith))
    ⊳ (λ i. assemble_u_type_sound i 0x17 (omega arith, omega arith))
    ⊳ (λ i. assemble_i_type_sound i 0 (omega arith))
    ⊳ (λ i. assemble_i_type_sound i 2 (omega arith))
    ⊳ (λ i. assemble_i_type_sound i 3 (omega arith))
    ⊳ (λ i. assemble_i_type_sound i 4 (omega arith))
    ⊳ (λ i. assemble_i_type_sound i 6 (omega arith))
    ⊳ (λ i. assemble_i_type_sound i 7 (omega arith))
    ⊳ (λ i. assemble_i_shift_type_sound i 1 0 (omega arith))
    ⊳ (λ i. assemble_i_shift_type_sound i 5 0 (omega arith))
    ⊳ (λ i. assemble_i_shift_type_sound i 5 0x20 (omega arith))
    ⊳ (λ i. assemble_i_load_type_sound i 0 3 (omega arith) (omega arith, omega arith))
    ⊳ (λ i. assemble_i_load_type_sound i 1 3 (omega arith) (omega arith, omega arith))
    ⊳ (λ i. assemble_i_load_type_sound i 2 3 (omega arith) (omega arith, omega arith))
    ⊳ (λ i. assemble_i_load_type_sound i 4 3 (omega arith) (omega arith, omega arith))
    ⊳ (λ i. assemble_i_load_type_sound i 5 3 (omega arith) (omega arith, omega arith))
    ⊳ (λ i. assemble_i_load_type_sound i 0 0x67 (omega arith) (omega arith, omega arith))
    ⊳ (λ i. assemble_s_type_sound i 0 (omega arith))
    ⊳ (λ i. assemble_s_type_sound i 1 (omega arith))
    ⊳ (λ i. assemble_s_type_sound i 2 (omega arith))
    ⊳ (λ i. assemble_csr_reg_sound i 1 (omega arith))
    ⊳ (λ i. assemble_csr_reg_sound i 2 (omega arith))
    ⊳ (λ i. assemble_csr_reg_sound i 3 (omega arith))
    ⊳ (λ i. assemble_csr_imm_sound i 5 (omega arith))
    ⊳ (λ i. assemble_csr_imm_sound i 6 (omega arith))
    ⊳ (λ i. assemble_csr_imm_sound i 7 (omega arith))
    ⊳ (λ i. assemble_zero_operand_system_instr_sound i 0x73 (omega arith, omega arith))
    ⊳ (λ i. assemble_zero_operand_system_instr_sound i 0x10_0073 (omega arith, omega arith))
    ⊳ (λ i. assemble_zero_operand_system_instr_sound i 0x3020_0073 (omega arith, omega arith))
    ⊳ (λ i. assemble_zero_operand_system_instr_sound i 0x1020_0073 (omega arith, omega arith))
    ⊳ assemble_sfence_vma_sound
    ⊳ tt

module _ (ins : AssemblyInstruction) where
  if_some_sound :
      (b : Bool) (f g : AssemblyInstruction → Attempt ℕ)
      (rest : Option (AssemblyInstruction → Attempt ℕ))
      → IsSound g
      → (rest ≡ some f → Ensures IsInstruction (f ins))
      → (if b then some g else rest) ≡ some f
      → Ensures IsInstruction (f ins)
  if_some_sound true f g rest hg hr e =
      subst (λ h. Ensures IsInstruction (h ins)) (some-injective g f e) (hg ins)
  if_some_sound false f g rest hg hr e = hr e

  lookup_sound :
      (key : Text) (entries : List Entry) (f : AssemblyInstruction → Attempt ℕ)
      → All EntrySound entries
      → lookup key entries ≡ some f
      → Ensures IsInstruction (f ins)
  unfolding lookup
  lookup_sound key [] f h e = cc
  lookup_sound key ((name, g) ∷ entries) f (h, hs) e =
      if_some_sound (same_text name key) f g (lookup key entries) h (lookup_sound key entries f hs)
        e

assemble_sound : (ins : AssemblyInstruction) → Ensures IsInstruction (assemble ins)
unfolding assemble Ensures
assemble_sound ins = go (lookup _ instruction_map) refl
  where
    go :
        (o : Option (AssemblyInstruction → Attempt ℕ))
        → lookup (map to_lower ins.instruction_name) instruction_map ≡ o
        → Ensures IsInstruction (elim o [
          | some f ↦ f ins
          | none ↦ complained (codes "Instruction is invalid or not implemented.")
        ])
    go (some f) e =
        lookup_sound ins (map to_lower ins.instruction_name) instruction_map f instruction_map_sound
          e
    go none e = unfold Ensures in tt

get_instruction_sound : (line : Text) → Ensures IsInstruction (get_instruction line)
unfolding get_instruction Ensures
get_instruction_sound line = go (is_empty line)
  where
    go :
        (b : Bool)
        → Ensures IsInstruction (
            if b
            then complained (codes "Cannot execute an empty instruction.")
            else assemble (parse line))
    go true = unfold Ensures in tt
    go false = assemble_sound (parse line)

compile-cases :
    (a : Attempt ℕ) (out : InstructionOutput)
    → Ensures IsInstruction a
    → (IsInstruction (returned a) × (report a out ≡ out)) ⊎ (returned a ≡ 0)
unfolding returned report Ensures
compile-cases (encoded w) out h = inl (h, refl)
compile-cases (refused t) out h = inr refl
compile-cases (complained t) out h = inr refl

-- For any text, compile gives a 32-bit word with the low bits 11 of an uncompressed instruction
-- and leaves the output alone, or it gives 0.
pub compile-IsInstruction :
    (line : Text) (out : InstructionOutput)
    → let (w, out') = compile line out in (IsInstruction w × (out' ≡ out)) ⊎ (w ≡ 0)
unfolding compile
compile-IsInstruction line out =
    compile-cases (get_instruction line) out (get_instruction_sound line)

pub get_instruction-IsInstruction :
    (line : Text) (w : ℕ) → get_instruction line ≡ encoded w → IsInstruction w
get_instruction-IsInstruction line w e =
    let h : Ensures IsInstruction (encoded w) =
      subst (Ensures IsInstruction) e (get_instruction_sound line) in
    unfold Ensures in h
