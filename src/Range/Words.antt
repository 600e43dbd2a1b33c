-- ===== src/Range/Words.antt =====
-- core/instruction/*.cpp: what the instructions compute from words are words.
use riscv_sym.Base.{ℕ, ◌/◌, ◌%◌, ◌^◌, ◌<◌, arith, ◌==◌, if◌then◌else◌, Bool, ◌&&◌, ◌>>>◌}
use riscv_sym.Base.Int.{ℤ, pos, negsuc, to_word}
use riscv_sym.Base.Bits.Laws.{bit_and-lt, bit_or-lt, bit_xor-lt}
use riscv_sym.Instruction.Decode.{bits, i_imm}
use riscv_sym.Instruction.RType.{mulh, mulhsu, div, divu, rem, remu}
use riscv_sym.Instruction.Atomic.{
  swap_function, add_function, xor_function, and_function, or_function, min_function, max_function,
  minu_function, maxu_function,
}
use riscv_sym.Instruction.Load.{sign_extend8, sign_extend16}
use riscv_sym.Range.Defs.{either}

abbrev pub Words : (ℕ → ℕ → ℕ) → Type 0
Words f = (x y : ℕ) → x < 2 ^ 32 → y < 2 ^ 32 → f x y < 2 ^ 32

abbrev IsWord : ℕ → Type 0
IsWord v = v < 2 ^ 32

pub to_word-lt : (z : ℤ) → to_word 32 z < 2 ^ 32
unfolding to_word
to_word-lt (pos n) = omega arith
to_word-lt (negsuc n) = omega arith

pub flag-lt : (b : Bool) → (if b then 1 else 0) < 2 ^ 32
flag-lt b = either IsWord b 1 0 (omega arith) (omega arith)

div-lt : (x d : ℕ) → x < 2 ^ 32 → x / d < 2 ^ 32
div-lt x d h = grind arith

mod-lt : (x d : ℕ) → x < 2 ^ 32 → x % d < 2 ^ 32
mod-lt x d h = grind arith

pub shifted-lt : (x k : ℕ) → x < 2 ^ 32 → x >>> k < 2 ^ 32
shifted-lt x k h = div-lt x (2 ^ k) h

pub div-Words : Words div
unfolding div
div-Words x y hx hy =
    either IsWord (y == 0) _ _ (omega arith)
      (either IsWord (x == 2 ^ 31 && y == 0xffff_ffff) _ _ hx (to_word-lt _))

pub rem-Words : Words rem
unfolding rem
rem-Words x y hx hy =
    either IsWord (y == 0) _ _ hx
      (either IsWord (x == 2 ^ 31 && y == 0xffff_ffff) _ _ (omega arith) (to_word-lt _))

pub divu-Words : Words divu
unfolding divu
divu-Words x y hx hy = either IsWord (y == 0) _ _ (omega arith) (div-lt x y hx)

pub remu-Words : Words remu
unfolding remu
remu-Words x y hx hy = either IsWord (y == 0) _ _ hx (mod-lt x y hx)

pub mulh-Words : Words mulh
unfolding mulh
mulh-Words x y hx hy = omega arith

pub mulhsu-Words : Words mulhsu
unfolding mulhsu
mulhsu-Words x y hx hy = omega arith

-- One of the two operands.
chosen-lt : (b : Bool) (x y : ℕ) → x < 2 ^ 32 → y < 2 ^ 32 → (if b then x else y) < 2 ^ 32
chosen-lt b x y hx hy = either IsWord b x y hx hy

pub swap-Words : Words swap_function
unfolding swap_function
swap-Words x y hx hy = hy

pub add-Words : Words add_function
unfolding add_function
add-Words x y hx hy = omega arith

pub xor-Words : Words xor_function
unfolding xor_function
xor-Words x y hx hy = bit_xor-lt 32 x y hx hy

pub and-Words : Words and_function
unfolding and_function
and-Words x y hx hy = bit_and-lt 32 x y hx

pub or-Words : Words or_function
unfolding or_function
or-Words x y hx hy = bit_or-lt 32 x y hx hy

pub min-Words : Words min_function
unfolding min_function
min-Words x y hx hy = chosen-lt _ y x hy hx

pub max-Words : Words max_function
unfolding max_function
max-Words x y hx hy = chosen-lt _ y x hy hx

pub minu-Words : Words minu_function
unfolding minu_function
minu-Words x y hx hy = chosen-lt _ y x hy hx

pub maxu-Words : Words maxu_function
unfolding maxu_function
maxu-Words x y hx hy = chosen-lt _ y x hy hx

pub sign_extend8-lt : (x : ℕ) → x < 2 ^ 8 → sign_extend8 x < 2 ^ 32
sign_extend8-lt x h = ground arith

pub sign_extend16-lt : (x : ℕ) → x < 2 ^ 16 → sign_extend16 x < 2 ^ 32
sign_extend16-lt x h = ground arith

pub i_imm-lt : (i : ℕ) → i_imm i < 2 ^ 32
unfolding i_imm
i_imm-lt i =
    let imm : ℕ = bits i 20 31 in
    either IsWord (bits imm 11 11 == 1) _ _
      (bit_or-lt 32 imm 0xffff_f000 (omega arith) (omega arith))
      (bit_and-lt 32 imm 0xfff (omega arith))
