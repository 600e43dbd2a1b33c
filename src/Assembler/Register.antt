-- ===== src/Assembler/Register.antt =====
-- core/AssemblyCompiler.cpp: register names, and operands counted out.
use riscv_sym.Base.{
  ℕ, ◌==◌, leb, if◌then◌else◌, Bool, false, Option, none, some, List, [], ◌∷◌, ◌&&◌, ◌≡◌, refl, u32,
  ◌-◌,
}
use riscv_sym.Base.Lists.{take, length}
use riscv_sym.Base.Int.{ℤ, int32, to_word}
use riscv_sym.Assembler.Text.{
  Text, codes, starts_with, drop_one, stoul, stol, to_unsigned_long, parse_number, skip_spaces,
  is_space, unsigned_part, magnitude, digit_value, scan_digits,
}
use riscv_sym.Assembler.Attempt.{Attempt, encoded, refused, ◌>>=◌, or_refuse, validate_register}

unfoldable pub register_name_to_number : Text → Option ℕ
register_name_to_number reg =
    if leb 2 (length reg) && starts_with b'x' reg
    then elim (stoul (drop_one reg) 10) [
      | some val ↦ if leb val 31 then some val else none
      | none ↦ none
    ]
    else none

abbrev pub register : Text → Attempt ℕ
register name = validate_register (register_name_to_number name) name

-- `if (operands.size() != 3) { …; return 0; }`, and the operands behind it.
unfoldable pub with_three : Text → List Text → (Text → Text → Text → Attempt ℕ) → Attempt ℕ
with_three message (a ∷ b ∷ c ∷ []) k = k a b c
with_three message _ k = refused message

unfoldable pub with_two : Text → List Text → (Text → Text → Attempt ℕ) → Attempt ℕ
with_two message (a ∷ b ∷ []) k = k a b
with_two message _ k = refused message

unfoldable pub ends_with : ℕ → Text → Bool
ends_with d [] = false
ends_with d (c ∷ []) = c == d
ends_with d (c ∷ c' ∷ s) = ends_with d (c' ∷ s)

-- The register of a memory operand `(rs1)`.
unfoldable pub address_register : Text → Text → Attempt ℕ
address_register message mem_operand = do
  rs1_str ←
      (if starts_with b'(' mem_operand && ends_with b')' mem_operand
        then encoded (take (length mem_operand - 2) (drop_one mem_operand))
        else refused message)
  register rs1_str

-- `int32_t imm = stol(text, nullptr, 0)`.
unfoldable pub int32_immediate : Text → Text → Attempt ℤ
int32_immediate message text = do
  imm ← or_refuse (stol text 0) message
  encoded (int32 (to_word 32 imm))

-- `uint32_t imm = stoul(text, nullptr, 0)`.
unfoldable pub uint32_immediate : Text → Text → Attempt ℕ
uint32_immediate message text = do imm ← or_refuse (stoul text 0) message; encoded (u32 imm)

signed_name : register_name_to_number (codes "x+5abc") ≡ some 5
unfolding register_name_to_number starts_with drop_one stoul to_unsigned_long parse_number
    skip_spaces is_space unsigned_part magnitude digit_value scan_digits
signed_name = refl
