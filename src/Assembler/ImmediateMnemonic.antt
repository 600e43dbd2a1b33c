-- ===== src/Assembler/ImmediateMnemonic.antt =====
-- The six instructions of a register and an immediate by name: core/AssemblyCompiler.cpp and
-- core/instruction/ITypeInstruction.cpp agree on what a printed line means, and a number that does
-- not fit is refused.
use riscv_sym.Base.{
  ℕ, ◌<◌, ◌-◌, ◌%◌, ◌^◌, ltb, if◌then◌else◌, Bool, true, false, some, map, ◌≡◌, refl, arith, ap,
}
use riscv_sym.Base.Int.{ℤ, pos, negsuc, int32, to_word, lt_ℤ}
use riscv_sym.State.{M, Machine}
use riscv_sym.Instruction.Decode.{IArguments, i_arguments, bits}
use riscv_sym.Instruction.IType.{
  execute_arithmetic, execute_addi, execute_slti, execute_sltiu, execute_xori, execute_ori,
  execute_andi,
}
use riscv_sym.Assembler.Fields.{IsImm12, extend16}
use riscv_sym.Assembler.Text.{Text, codes, is_space, same_text, to_lower}
use riscv_sym.Assembler.Attempt.{encoded}
use riscv_sym.Assembler.Register.{int32_immediate}
use riscv_sym.Assembler.Print.{IsName}
use riscv_sym.Assembler.Decimal.{int_text, InLong, stol-int_text}
use riscv_sym.Assembler.Immediate.{
  assemble_i_type, outside, assemble_addi, assemble_slti, assemble_sltiu, assemble_xori,
  assemble_ori, assemble_andi,
}
use riscv_sym.Assembler.System.{lookup}
use riscv_sym.Assembler.Compile.{instruction_map}

pub data ImmediateMnemonic : Type 0 where
  addi_rri : ImmediateMnemonic
  slti_rri : ImmediateMnemonic
  sltiu_rri : ImmediateMnemonic
  xori_rri : ImmediateMnemonic
  ori_rri : ImmediateMnemonic
  andi_rri : ImmediateMnemonic

abbrev pub name : ImmediateMnemonic → Text
name addi_rri = codes "addi"
name slti_rri = codes "slti"
name sltiu_rri = codes "sltiu"
name xori_rri = codes "xori"
name ori_rri = codes "ori"
name andi_rri = codes "andi"

abbrev pub funct3 : ImmediateMnemonic → ℕ
funct3 addi_rri = 0
funct3 slti_rri = 2
funct3 sltiu_rri = 3
funct3 xori_rri = 4
funct3 ori_rri = 6
funct3 andi_rri = 7

abbrev pub meaning : ImmediateMnemonic → IArguments → M Bool
meaning addi_rri = execute_addi
meaning slti_rri = execute_slti
meaning sltiu_rri = execute_sltiu
meaning xori_rri = execute_xori
meaning ori_rri = execute_ori
meaning andi_rri = execute_andi

pub name-IsName : (k : ImmediateMnemonic) → IsName (name k)
unfolding is_space
name-IsName addi_rri = ground arith
name-IsName slti_rri = ground arith
name-IsName sltiu_rri = ground arith
name-IsName xori_rri = ground arith
name-IsName ori_rri = ground arith
name-IsName andi_rri = ground arith

pub funct3-lt : (k : ImmediateMnemonic) → funct3 k < 8
funct3-lt addi_rri = omega arith
funct3-lt slti_rri = omega arith
funct3-lt sltiu_rri = omega arith
funct3-lt xori_rri = omega arith
funct3-lt ori_rri = omega arith
funct3-lt andi_rri = omega arith

pub lookup-name :
    (k : ImmediateMnemonic)
    → lookup (map to_lower (name k)) instruction_map ≡ some (λ ins. assemble_i_type ins (funct3 k))
unfolding lookup to_lower same_text assemble_addi assemble_slti assemble_sltiu assemble_xori
    assemble_ori assemble_andi
lookup-name addi_rri = refl
lookup-name slti_rri = refl
lookup-name sltiu_rri = refl
lookup-name xori_rri = refl
lookup-name ori_rri = refl
lookup-name andi_rri = refl

pub execute-meaning :
    (k : ImmediateMnemonic) (i : ℕ) (m : Machine)
    → bits i 12 14 ≡ funct3 k
    → execute_arithmetic i m ≡ meaning k (i_arguments i) m
unfolding execute_arithmetic
execute-meaning addi_rri i m h3 = rw (h3) refl
execute-meaning slti_rri i m h3 = rw (h3) refl
execute-meaning sltiu_rri i m h3 = rw (h3) refl
execute-meaning xori_rri i m h3 = rw (h3) refl
execute-meaning ori_rri i m h3 = rw (h3) refl
execute-meaning andi_rri i m h3 = rw (h3) refl

-- A signed number of 12 bits, and one of 32.
abbrev pub fits12 : ℤ → Bool
fits12 (pos n) = ltb n 2048
fits12 (negsuc n) = ltb n 2048

abbrev pub IsInt32 : ℤ → Type 0
IsInt32 (pos n) = n < 2 ^ 31
IsInt32 (negsuc n) = n < 2 ^ 31

IsInt32-InLong : (v : ℤ) → IsInt32 v → InLong v
IsInt32-InLong (pos n) h = omega arith
IsInt32-InLong (negsuc n) h = omega arith

int32-to_word : (v : ℤ) → IsInt32 v → int32 (to_word 32 v) ≡ v
unfolding int32 to_word
int32-to_word (pos n) h = ground arith
int32-to_word (negsuc n) h = ground (arith, back n)
  where
    back : (n : ℕ) → n < 2 ^ 31 → 2 ^ 32 - 1 - (2 ^ 32 - 1 - n % 2 ^ 32) ≡ n
    back n h = omega arith

pub int32_immediate-int_text :
    (t : Text) (v : ℤ) → IsInt32 v → int32_immediate t (int_text v) ≡ encoded v
unfolding int32_immediate
int32_immediate-int_text t v h =
    rw (stol-int_text v (IsInt32-InLong v h)) (ap encoded (int32-to_word v h))

pub outside-fits12 :
    (v : ℤ) → outside (negsuc 2047) (pos 2047) v ≡ (if fits12 v then false else true)
unfolding lt_ℤ
outside-fits12 (pos n) = ground arith
outside-fits12 (negsuc n) = ground arith

pub fits12-IsImm12 : (v : ℤ) → fits12 v ≡ true → IsImm12 (to_word 16 v)
unfolding to_word
fits12-IsImm12 (pos n) h = ground arith
fits12-IsImm12 (negsuc n) h = ground arith

pub extend16-to_word : (v : ℤ) → fits12 v ≡ true → extend16 (to_word 16 v) ≡ to_word 32 v
unfolding to_word
extend16-to_word (pos n) h = ground arith
extend16-to_word (negsuc n) h = ground arith
