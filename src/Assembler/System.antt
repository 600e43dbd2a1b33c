-- ===== src/Assembler/System.antt =====
-- core/AssemblyCompiler.cpp: the system instructions.
use riscv_sym.Base.{
  ℕ, ltb, leb, if◌then◌else◌, Option, none, some, ◌<<<◌, bit_or, u32, ◌++◌, List, [], ◌∷◌,
}
use riscv_sym.Assembler.{encode_system_type}
use riscv_sym.Assembler.Text.{Text, codes, same_text, stoul}
use riscv_sym.Assembler.Attempt.{Attempt, encoded, refused, ◌>>=◌, ◌>>◌, refuse_when, or_refuse}
use riscv_sym.Assembler.Line.{AssemblyInstruction}
use riscv_sym.Assembler.Register.{register, with_three, uint32_immediate}

-- `find` of a map keyed by texts.
module _ {A : Type 0} where
  unfoldable pub lookup : Text → List (Text × A) → Option A
  lookup key [] = none
  lookup key ((name, value) ∷ entries) =
      let rest = lookup key entries in if same_text name key then some value else rest

abbrev pub csr_map : List (Text × ℕ)
csr_map =
    (codes "mstatus", 0x300)
    ∷ (codes "misa", 0x301)
    ∷ (codes "medeleg", 0x302)
    ∷ (codes "mideleg", 0x303)
    ∷ (codes "mie", 0x304)
    ∷ (codes "mtvec", 0x305)
    ∷ (codes "mscratch", 0x340)
    ∷ (codes "mepc", 0x341)
    ∷ (codes "mcause", 0x342)
    ∷ (codes "mtval", 0x343)
    ∷ (codes "mip", 0x344)
    ∷ (codes "sstatus", 0x100)
    ∷ (codes "sie", 0x104)
    ∷ (codes "stvec", 0x105)
    ∷ (codes "sscratch", 0x140)
    ∷ (codes "sepc", 0x141)
    ∷ (codes "scause", 0x142)
    ∷ (codes "stval", 0x143)
    ∷ (codes "sip", 0x144)
    ∷ (codes "satp", 0x180)
    ∷ []

-- A name of the table, or else a number of at most 12 bits.
unfoldable pub resolve_csr_address : Text → Option ℕ
resolve_csr_address csr_name = elim (lookup csr_name csr_map) [
  | some address ↦ some address
  | none ↦ elim (stoul csr_name 0) [
    | some val ↦ if leb (u32 val) 0xfff then some (u32 val) else none
    | none ↦ none
  ]
]

unfoldable pub assemble_zero_operand_system_instr : AssemblyInstruction → ℕ → Attempt ℕ
assemble_zero_operand_system_instr instruction base_opcode = elim instruction.operands [
  | [] ↦ encoded base_opcode
  | a ∷ rest ↦ refused (instruction.instruction_name ++ codes " does not take any operands.")
]

-- The word with both fields, and the operands that may be left out.
unfoldable pub encode_sfence_vma : ℕ → ℕ → ℕ
encode_sfence_vma rs1 rs2 = bit_or (bit_or 0x1200_0073 (u32 (rs1 <<< 15))) (u32 (rs2 <<< 20))

unfoldable pub sfence_vma_operands : List Text → Attempt ℕ
sfence_vma_operands [] = encoded (encode_sfence_vma 0 0)
sfence_vma_operands (a ∷ []) = do rs1 ← register a; encoded (encode_sfence_vma rs1 0)
sfence_vma_operands (a ∷ b ∷ []) = do
  rs1 ← register a
  rs2 ← register b
  encoded (encode_sfence_vma rs1 rs2)
sfence_vma_operands _ = refused (codes "sfence.vma takes at most 2 operands (rs1, rs2).")

unfoldable pub assemble_sfence_vma : AssemblyInstruction → Attempt ℕ
assemble_sfence_vma instruction = sfence_vma_operands instruction.operands

abbrev pub csr_operand : Text → Attempt ℕ
csr_operand name =
    or_refuse (resolve_csr_address name) (codes "Invalid CSR name or address " ++ name)

unfoldable pub assemble_csr_reg : AssemblyInstruction → ℕ → Attempt ℕ
assemble_csr_reg instruction funct3 =
    with_three (codes "CSR instruction requires exactly 3 operands (rd, csr, rs1)")
      instruction.operands
      λ a b c. do
        rd ← register a
        csr ← csr_operand b
        rs1 ← register c
        encoded (encode_system_type csr rs1 funct3 rd)

unfoldable pub assemble_csr_imm : AssemblyInstruction → ℕ → Attempt ℕ
assemble_csr_imm instruction funct3 =
    with_three (codes "CSR immediate instruction requires exactly 3 operands (rd, csr, uimm)")
      instruction.operands
      λ a b c. do
        rd ← register a
        csr ← csr_operand b
        zimm ← uint32_immediate (codes "Invalid immediate value for CSR instruction") c
        refuse_when (ltb 31 zimm) (codes "CSR immediate must be between 0 and 31 (5-bit unsigned)")
        encoded (encode_system_type csr zimm funct3 rd)

unfoldable pub assemble_csrrw : AssemblyInstruction → Attempt ℕ
assemble_csrrw instruction = assemble_csr_reg instruction 1

unfoldable pub assemble_csrrs : AssemblyInstruction → Attempt ℕ
assemble_csrrs instruction = assemble_csr_reg instruction 2

unfoldable pub assemble_csrrc : AssemblyInstruction → Attempt ℕ
assemble_csrrc instruction = assemble_csr_reg instruction 3

unfoldable pub assemble_csrrwi : AssemblyInstruction → Attempt ℕ
assemble_csrrwi instruction = assemble_csr_imm instruction 5

unfoldable pub assemble_csrrsi : AssemblyInstruction → Attempt ℕ
assemble_csrrsi instruction = assemble_csr_imm instruction 6

unfoldable pub assemble_csrrci : AssemblyInstruction → Attempt ℕ
assemble_csrrci instruction = assemble_csr_imm instruction 7
