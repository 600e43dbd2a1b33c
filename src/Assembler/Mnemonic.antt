-- ===== src/Assembler/Mnemonic.antt =====
-- The 18 register-register instructions by name: core/AssemblyCompiler.cpp and
-- core/instruction/RTypeInstruction.cpp agree on what a name means.
use riscv_sym.Base.{ℕ, Bool, some, map, ◌≡◌, refl, arith}
use riscv_sym.State.{M, Machine}
use riscv_sym.Instruction.Decode.{RArguments, r_arguments, bits}
use riscv_sym.Instruction.RType
use riscv_sym.Instruction.RType.{
  execute_add, execute_sub, execute_sll, execute_slt, execute_sltu, execute_xor, execute_srl,
  execute_sra, execute_or, execute_and, execute_mul, execute_mulh, execute_mulhsu, execute_mulhu,
  execute_div, execute_divu, execute_rem, execute_remu,
}
use riscv_sym.Assembler.Text.{Text, codes, is_space, to_lower, same_text}
use riscv_sym.Assembler.Print.{IsName}
use riscv_sym.Assembler.RType.{
  assemble_r_type, assemble_add, assemble_sub, assemble_sll, assemble_slt, assemble_sltu,
  assemble_xor, assemble_srl, assemble_sra, assemble_or, assemble_and, assemble_mul, assemble_mulh,
  assemble_mulhsu, assemble_mulhu, assemble_div, assemble_divu, assemble_rem, assemble_remu,
}
use riscv_sym.Assembler.System.{lookup}
use riscv_sym.Assembler.Compile.{instruction_map}

pub data Mnemonic : Type 0 where
  add_rrr : Mnemonic
  sub_rrr : Mnemonic
  sll_rrr : Mnemonic
  slt_rrr : Mnemonic
  sltu_rrr : Mnemonic
  xor_rrr : Mnemonic
  srl_rrr : Mnemonic
  sra_rrr : Mnemonic
  or_rrr : Mnemonic
  and_rrr : Mnemonic
  mul_rrr : Mnemonic
  mulh_rrr : Mnemonic
  mulhsu_rrr : Mnemonic
  mulhu_rrr : Mnemonic
  div_rrr : Mnemonic
  divu_rrr : Mnemonic
  rem_rrr : Mnemonic
  remu_rrr : Mnemonic

abbrev pub name : Mnemonic → Text
name add_rrr = codes "add"
name sub_rrr = codes "sub"
name sll_rrr = codes "sll"
name slt_rrr = codes "slt"
name sltu_rrr = codes "sltu"
name xor_rrr = codes "xor"
name srl_rrr = codes "srl"
name sra_rrr = codes "sra"
name or_rrr = codes "or"
name and_rrr = codes "and"
name mul_rrr = codes "mul"
name mulh_rrr = codes "mulh"
name mulhsu_rrr = codes "mulhsu"
name mulhu_rrr = codes "mulhu"
name div_rrr = codes "div"
name divu_rrr = codes "divu"
name rem_rrr = codes "rem"
name remu_rrr = codes "remu"

abbrev pub funct3 : Mnemonic → ℕ
funct3 add_rrr = 0
funct3 sub_rrr = 0
funct3 sll_rrr = 1
funct3 slt_rrr = 2
funct3 sltu_rrr = 3
funct3 xor_rrr = 4
funct3 srl_rrr = 5
funct3 sra_rrr = 5
funct3 or_rrr = 6
funct3 and_rrr = 7
funct3 mul_rrr = 0
funct3 mulh_rrr = 1
funct3 mulhsu_rrr = 2
funct3 mulhu_rrr = 3
funct3 div_rrr = 4
funct3 divu_rrr = 5
funct3 rem_rrr = 6
funct3 remu_rrr = 7

abbrev pub funct7 : Mnemonic → ℕ
funct7 add_rrr = 0
funct7 sub_rrr = 0x20
funct7 sll_rrr = 0
funct7 slt_rrr = 0
funct7 sltu_rrr = 0
funct7 xor_rrr = 0
funct7 srl_rrr = 0
funct7 sra_rrr = 0x20
funct7 or_rrr = 0
funct7 and_rrr = 0
funct7 mul_rrr = 1
funct7 mulh_rrr = 1
funct7 mulhsu_rrr = 1
funct7 mulhu_rrr = 1
funct7 div_rrr = 1
funct7 divu_rrr = 1
funct7 rem_rrr = 1
funct7 remu_rrr = 1

abbrev pub meaning : Mnemonic → RArguments → M Bool
meaning add_rrr = execute_add
meaning sub_rrr = execute_sub
meaning sll_rrr = execute_sll
meaning slt_rrr = execute_slt
meaning sltu_rrr = execute_sltu
meaning xor_rrr = execute_xor
meaning srl_rrr = execute_srl
meaning sra_rrr = execute_sra
meaning or_rrr = execute_or
meaning and_rrr = execute_and
meaning mul_rrr = execute_mul
meaning mulh_rrr = execute_mulh
meaning mulhsu_rrr = execute_mulhsu
meaning mulhu_rrr = execute_mulhu
meaning div_rrr = execute_div
meaning divu_rrr = execute_divu
meaning rem_rrr = execute_rem
meaning remu_rrr = execute_remu

pub name-IsName : (k : Mnemonic) → IsName (name k)
unfolding is_space
name-IsName add_rrr = ground arith
name-IsName sub_rrr = ground arith
name-IsName sll_rrr = ground arith
name-IsName slt_rrr = ground arith
name-IsName sltu_rrr = ground arith
name-IsName xor_rrr = ground arith
name-IsName srl_rrr = ground arith
name-IsName sra_rrr = ground arith
name-IsName or_rrr = ground arith
name-IsName and_rrr = ground arith
name-IsName mul_rrr = ground arith
name-IsName mulh_rrr = ground arith
name-IsName mulhsu_rrr = ground arith
name-IsName mulhu_rrr = ground arith
name-IsName div_rrr = ground arith
name-IsName divu_rrr = ground arith
name-IsName rem_rrr = ground arith
name-IsName remu_rrr = ground arith

pub lookup-name :
    (k : Mnemonic)
    → lookup (map to_lower (name k)) instruction_map
      ≡ some (λ ins. assemble_r_type ins (funct3 k) (funct7 k))
unfolding lookup to_lower same_text assemble_add assemble_sub assemble_sll assemble_slt
    assemble_sltu assemble_xor assemble_srl assemble_sra assemble_or assemble_and assemble_mul
    assemble_mulh assemble_mulhsu assemble_mulhu assemble_div assemble_divu assemble_rem
    assemble_remu
lookup-name add_rrr = refl
lookup-name sub_rrr = refl
lookup-name sll_rrr = refl
lookup-name slt_rrr = refl
lookup-name sltu_rrr = refl
lookup-name xor_rrr = refl
lookup-name srl_rrr = refl
lookup-name sra_rrr = refl
lookup-name or_rrr = refl
lookup-name and_rrr = refl
lookup-name mul_rrr = refl
lookup-name mulh_rrr = refl
lookup-name mulhsu_rrr = refl
lookup-name mulhu_rrr = refl
lookup-name div_rrr = refl
lookup-name divu_rrr = refl
lookup-name rem_rrr = refl
lookup-name remu_rrr = refl

pub execute-meaning :
    (k : Mnemonic) (i : ℕ) (m : Machine)
    → bits i 12 14 ≡ funct3 k
    → bits i 25 31 ≡ funct7 k
    → RType.execute i m ≡ meaning k (r_arguments i) m
unfolding RType.execute
execute-meaning add_rrr i m h3 h7 = rw (h3, h7) refl
execute-meaning sub_rrr i m h3 h7 = rw (h3, h7) refl
execute-meaning sll_rrr i m h3 h7 = rw (h3, h7) refl
execute-meaning slt_rrr i m h3 h7 = rw (h3, h7) refl
execute-meaning sltu_rrr i m h3 h7 = rw (h3, h7) refl
execute-meaning xor_rrr i m h3 h7 = rw (h3, h7) refl
execute-meaning srl_rrr i m h3 h7 = rw (h3, h7) refl
execute-meaning sra_rrr i m h3 h7 = rw (h3, h7) refl
execute-meaning or_rrr i m h3 h7 = rw (h3, h7) refl
execute-meaning and_rrr i m h3 h7 = rw (h3, h7) refl
execute-meaning mul_rrr i m h3 h7 = rw (h3, h7) refl
execute-meaning mulh_rrr i m h3 h7 = rw (h3, h7) refl
execute-meaning mulhsu_rrr i m h3 h7 = rw (h3, h7) refl
execute-meaning mulhu_rrr i m h3 h7 = rw (h3, h7) refl
execute-meaning div_rrr i m h3 h7 = rw (h3, h7) refl
execute-meaning divu_rrr i m h3 h7 = rw (h3, h7) refl
execute-meaning rem_rrr i m h3 h7 = rw (h3, h7) refl
execute-meaning remu_rrr i m h3 h7 = rw (h3, h7) refl
