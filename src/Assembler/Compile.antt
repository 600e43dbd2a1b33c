-- ===== src/Assembler/Compile.antt =====
-- core/AssemblyCompiler.cpp: the table of instructions, `getInstruction` and `compile`.
use riscv_sym.Base.{ℕ, if◌then◌else◌, none, some, List, [], ◌∷◌, map}
use riscv_sym.Assembler.Text.{Text, codes, is_empty, to_lower}
use riscv_sym.Assembler.Attempt.{InstructionOutput, Attempt, complained, returned, report}
use riscv_sym.Assembler.Line.{AssemblyInstruction, parse}
use riscv_sym.Assembler.RType.{
  assemble_add, assemble_sub, assemble_sll, assemble_slt, assemble_sltu, assemble_xor, assemble_srl,
  assemble_sra, assemble_or, assemble_and, assemble_mul, assemble_mulh, assemble_mulhsu,
  assemble_mulhu, assemble_div, assemble_divu, assemble_rem, assemble_remu, assemble_lr,
  assemble_sc, assemble_amoswap, assemble_amoadd, assemble_amoxor, assemble_amoand, assemble_amoor,
  assemble_amomin, assemble_amomax, assemble_amominu, assemble_amomaxu,
}
use riscv_sym.Assembler.Immediate.{
  assemble_beq, assemble_bne, assemble_blt, assemble_bge, assemble_bltu, assemble_bgeu,
  assemble_jal, assemble_lui, assemble_auipc, assemble_addi, assemble_slti, assemble_sltiu,
  assemble_xori, assemble_ori, assemble_andi, assemble_slli, assemble_srli, assemble_srai,
  assemble_lb, assemble_lh, assemble_lw, assemble_lbu, assemble_lhu, assemble_jalr, assemble_sb,
  assemble_sh, assemble_sw,
}
use riscv_sym.Assembler.System.{
  lookup, assemble_zero_operand_system_instr, assemble_sfence_vma, assemble_csrrw, assemble_csrrs,
  assemble_csrrc, assemble_csrrwi, assemble_csrrsi, assemble_csrrci,
}

abbrev pub instruction_map : List (Text × (AssemblyInstruction → Attempt ℕ))
instruction_map =
    (codes "add", assemble_add)
    ∷ (codes "sub", assemble_sub)
    ∷ (codes "sll", assemble_sll)
    ∷ (codes "slt", assemble_slt)
    ∷ (codes "sltu", assemble_sltu)
    ∷ (codes "xor", assemble_xor)
    ∷ (codes "srl", assemble_srl)
    ∷ (codes "sra", assemble_sra)
    ∷ (codes "or", assemble_or)
    ∷ (codes "and", assemble_and)
    ∷ (codes "mul", assemble_mul)
    ∷ (codes "mulh", assemble_mulh)
    ∷ (codes "mulhsu", assemble_mulhsu)
    ∷ (codes "mulhu", assemble_mulhu)
    ∷ (codes "div", assemble_div)
    ∷ (codes "divu", assemble_divu)
    ∷ (codes "rem", assemble_rem)
    ∷ (codes "remu", assemble_remu)
    ∷ (codes "lr.w", assemble_lr)
    ∷ (codes "sc.w", assemble_sc)
    ∷ (codes "amoswap.w", assemble_amoswap)
    ∷ (codes "amoadd.w", assemble_amoadd)
    ∷ (codes "amoxor.w", assemble_amoxor)
    ∷ (codes "amoand.w", assemble_amoand)
    ∷ (codes "amoor.w", assemble_amoor)
    ∷ (codes "amomin.w", assemble_amomin)
    ∷ (codes "amomax.w", assemble_amomax)
    ∷ (codes "amominu.w", assemble_amominu)
    ∷ (codes "amomaxu.w", assemble_amomaxu)
    ∷ (codes "beq", assemble_beq)
    ∷ (codes "bne", assemble_bne)
    ∷ (codes "blt", assemble_blt)
    ∷ (codes "bge", assemble_bge)
    ∷ (codes "bltu", assemble_bltu)
    ∷ (codes "bgeu", assemble_bgeu)
    ∷ (codes "jal", assemble_jal)
    ∷ (codes "lui", assemble_lui)
    ∷ (codes "auipc", assemble_auipc)
    ∷ (codes "addi", assemble_addi)
    ∷ (codes "slti", assemble_slti)
    ∷ (codes "sltiu", assemble_sltiu)
    ∷ (codes "xori", assemble_xori)
    ∷ (codes "ori", assemble_ori)
    ∷ (codes "andi", assemble_andi)
    ∷ (codes "slli", assemble_slli)
    ∷ (codes "srli", assemble_srli)
    ∷ (codes "srai", assemble_srai)
    ∷ (codes "lb", assemble_lb)
    ∷ (codes "lh", assemble_lh)
    ∷ (codes "lw", assemble_lw)
    ∷ (codes "lbu", assemble_lbu)
    ∷ (codes "lhu", assemble_lhu)
    ∷ (codes "jalr", assemble_jalr)
    ∷ (codes "sb", assemble_sb)
    ∷ (codes "sh", assemble_sh)
    ∷ (codes "sw", assemble_sw)
    ∷ (codes "csrrw", assemble_csrrw)
    ∷ (codes "csrrs", assemble_csrrs)
    ∷ (codes "csrrc", assemble_csrrc)
    ∷ (codes "csrrwi", assemble_csrrwi)
    ∷ (codes "csrrsi", assemble_csrrsi)
    ∷ (codes "csrrci", assemble_csrrci)
    ∷ (codes "ecall", λ ins. assemble_zero_operand_system_instr ins 0x73)
    ∷ (codes "ebreak", λ ins. assemble_zero_operand_system_instr ins 0x10_0073)
    ∷ (codes "mret", λ ins. assemble_zero_operand_system_instr ins 0x3020_0073)
    ∷ (codes "sret", λ ins. assemble_zero_operand_system_instr ins 0x1020_0073)
    ∷ (codes "sfence.vma", assemble_sfence_vma)
    ∷ []

-- The name is looked up in lower case.
unfoldable pub assemble : AssemblyInstruction → Attempt ℕ
assemble instruction = elim (lookup (map to_lower instruction.instruction_name) instruction_map) [
  | some assembler ↦ assembler instruction
  | none ↦ complained (codes "Instruction is invalid or not implemented.")
]

unfoldable pub get_instruction : Text → Attempt ℕ
get_instruction instruction_string =
    if is_empty instruction_string
    then complained (codes "Cannot execute an empty instruction.")
    else assemble (parse instruction_string)

-- The word, 0 where there is none, and what is left in `instructionOutput`, which is not null where
-- `compile` is called.
unfoldable pub compile : Text → InstructionOutput → ℕ × InstructionOutput
compile asm_code instruction_output =
    let result = get_instruction asm_code in (returned result, report result instruction_output)
