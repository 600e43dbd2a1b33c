-- ===== src/Examples/InstructionExamples.antt =====
-- Examples for the arithmetic of registers.
use riscv_sym.Base.{
  ◌-◌, ◌/◌, ◌%◌, ℕ, zero, suc, none, some, if◌then◌else◌, ◌==◌, ◌≢◌, refl, ◌+◌, ◌*◌, ◌≡◌, ◌<◌, ◌⊎◌,
  arith, true, u32, ◌^◌,
}
use riscv_sym.Base.Int
use riscv_sym.State.{ok, Machine}
use riscv_sym.Memory.Pages.{get_memory_ptr, load_byte}
use riscv_sym.Memory.Physical.{ram_byte}
use riscv_sym.Instruction.Semihosting.{read_c_string}
use riscv_sym.Instruction.CString.{CString, bytes_at, read_c_string-CString}
use riscv_sym.Instruction.Decode.{RArguments}
use riscv_sym.Instruction.RType.{
  divu, remu, div, rem, mulh, mulhsu, execute_sll, execute_srl, execute_sra,
}
use riscv_sym.Instruction.RType.Divide.{
  divu-remu, div-rem, magnitude, signed, same_sign, is_positive,
}
use riscv_sym.Instruction.RType.Multiply.{mulh-product}
use riscv_sym.Instruction.CType.{decompress}
use riscv_sym.Instruction.CType.Words.{IsExpansion, decompress-IsExpansion}
use riscv_sym.Instruction.RType.Shift.{shift_count, with_register}
use riscv_sym.Examples.Machines.{start, empty_memory}

abbrev divisor : ℕ
divisor = 7

divu-remu_example :
    (u32 (divu 100 divisor * divisor + remu 100 divisor) ≡ 100)
    × ((divisor ≡ 0) ⊎ (remu 100 divisor < divisor))
divu-remu_example = divu-remu 100 divisor (omega arith)

-- -100 by 7.
-- -100 by 7.
div-rem_example :
    let (a, b) : ℕ × ℕ = (0xffff_ff9c, 7) in
    (u32 (div a b * b + rem a b) ≡ a)
    × (((b ≡ 0) × (div a b ≡ 2 ^ 32 - 1) × (rem a b ≡ a))
        ⊎ ((b ≢ 0)
            × (div a b ≡ signed (same_sign a b) (magnitude a / magnitude b))
            × (rem a b ≡ signed (is_positive a) (magnitude a % magnitude b))))
div-rem_example = div-rem 0xffff_ff9c 7 (omega arith) (omega arith)

abbrev shift_arguments : RArguments
shift_arguments = record { rs1 = 10; rs2 = 11; rd = 12 }

shift_count_example :
    (execute_sll shift_arguments start ≡ ok true (with_register 12 40 start))
    × ((execute_srl shift_arguments start ≡ ok true (with_register 12 0 start))
        × (execute_sra shift_arguments start ≡ ok true (with_register 12 0 start)))
unfolding Int.to_word Int.shift_right Int.int32
shift_count_example = shift_count shift_arguments start (omega arith, omega arith, omega arith)

-- -2 times 3
mulh-product_example :
    (mulh 0xffff_fffe 3 * 2 ^ 32 + u32 (0xffff_fffe * 3)
      ≡ Int.to_word 64 (Int.◌*ℤ◌ (Int.int32 0xffff_fffe) (Int.int32 3)))
    × (mulhsu 0xffff_fffe 3 * 2 ^ 32 + u32 (0xffff_fffe * 3)
        ≡ Int.to_word 64 (Int.◌*ℤ◌ (Int.int32 0xffff_fffe) (Int.pos 3)))
mulh-product_example = mulh-product 0xffff_fffe 3 (omega arith) (omega arith)

-- c.addi x8, 1
decompress-IsExpansion_example : IsExpansion (decompress 0x0405)
decompress-IsExpansion_example = decompress-IsExpansion 0x0405

-- ":tt" at 0x80000100.
abbrev console_path : Machine
console_path = record start {
  mem = record empty_memory {
    pages = λ k.
        if k == 0x8_0000
        then some (λ j.
          if j == 0x100 then b':' else if j == 0x101 then b't' else if j == 0x102 then b't' else 0)
        else none;
  };
}

console_path-CString : CString 3 0x8000_0100 (console_path.mem)
unfolding ram_byte get_memory_ptr load_byte
console_path-CString = record {
  fits = omega arith;
  ram = λ k le. ground arith;
  not_zero = letters;
  end = refl;
}
  where
    letters : (k : ℕ) → k < 3 → ram_byte (0x8000_0100 + k) (console_path.mem) ≢ 0
    letters zero lt = ground arith
    letters (suc zero) lt = ground arith
    letters (suc (suc zero)) lt = ground arith
    letters (suc (suc (suc k))) lt = absurd (omega arith)

read_c_string-CString_example :
    read_c_string 0x8000_0100 console_path
    ≡ ok (bytes_at 3 0x8000_0100 (console_path.mem)) console_path
read_c_string-CString_example =
    read_c_string-CString 3 0x8000_0100 console_path (omega arith) (refl, refl) console_path-CString
