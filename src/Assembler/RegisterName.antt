-- ===== src/Assembler/RegisterName.antt =====
-- Register names as a printer writes them, and `registerNameToNumber` of core/AssemblyCompiler.cpp.
use riscv_sym.Base.{ℕ, ◌+◌, ◌/◌, ◌%◌, ◌<◌, ltb, if◌then◌else◌, some, [], ◌∷◌, ◌≡◌, arith}
use riscv_sym.Assembler.Text.{
  Text, starts_with, drop_one, stoul, to_unsigned_long, parse_number, skip_spaces, is_space,
  unsigned_part, magnitude, digit_value, scan_digits,
}
use riscv_sym.Assembler.Register.{register_name_to_number}
use riscv_sym.Assembler.Print.{IsOperand}

abbrev pub register_text : ℕ → Text
register_text n =
    if ltb n 10 then b'x' ∷ (48 + n) ∷ [] else b'x' ∷ (48 + n / 10) ∷ (48 + n % 10) ∷ []

pub register_name_to_number-register_text :
    (n : ℕ) → n < 32 → register_name_to_number (register_text n) ≡ some n
unfolding register_name_to_number starts_with drop_one stoul to_unsigned_long parse_number
    skip_spaces is_space unsigned_part magnitude digit_value scan_digits
register_name_to_number-register_text n h = ground arith

pub register_text-IsOperand : (n : ℕ) → n < 32 → IsOperand (register_text n)
register_text-IsOperand n h = ground arith
