-- ===== src/Base/Bits/Laws.antt =====
-- The bits of `a & b`, `a | b`, `a ^ b` and `~a`, and words with equal bits are equal.
use Prim.Native.Nat.{
  ℕ, zero, suc, ◌+◌, ◌-◌, ◌/◌, ◌%◌, ◌^◌, ◌≤◌, ◌<◌, min, max, bit_and, bit_or, bit_xor,
  bit_and-bitwise, bit_or-bitwise, bit_xor-bitwise,
}
use mathlib.Core.Path.{◌≡◌, ap}
use native.Mathlib.Nat.{pow-suc, pow-succ', div-div-eq-div-mul}
use mathlib.Core.Logic.{◌⊎◌}
use native.Mathlib.Omega.{arith}
use riscv_sym.Base.Bits.Digit.{bit, bit_and_digit, bit_or_digit, bit_xor_digit}

pub div-two-pow-suc : (x i : ℕ) → x / 2 ^ suc i ≡ x / 2 / 2 ^ i
div-two-pow-suc x i = rw (pow-succ', ← div-div-eq-div-mul)

pub bit-suc : (x i : ℕ) → bit x (suc i) ≡ bit (x / 2) i
bit-suc x i = ap (λ (t : ℕ). t % 2) (div-two-pow-suc x i)

pub bit-bit_and : (a b i : ℕ) → bit (bit_and a b) i ≡ min (bit a i) (bit b i)
bit-bit_and a b zero = omega (arith, bit_and_digit a b)
bit-bit_and a b (suc i) =
    let half : bit_and a b / 2 ≡ bit_and (a / 2) (b / 2) = omega (arith, bit_and_digit a b) in
    simp (bit-suc, half) (bit-bit_and (a / 2) (b / 2) i)

pub bit-bit_or : (a b i : ℕ) → bit (bit_or a b) i ≡ max (bit a i) (bit b i)
bit-bit_or a b zero = omega (arith, bit_or_digit a b)
bit-bit_or a b (suc i) =
    let half : bit_or a b / 2 ≡ bit_or (a / 2) (b / 2) = omega (arith, bit_or_digit a b) in
    simp (bit-suc, half) (bit-bit_or (a / 2) (b / 2) i)

pub bit-bit_xor : (a b i : ℕ) → bit (bit_xor a b) i ≡ (bit a i + bit b i) % 2
bit-bit_xor a b zero = omega (arith, bit_xor_digit a b)
bit-bit_xor a b (suc i) =
    let half : bit_xor a b / 2 ≡ bit_xor (a / 2) (b / 2) = omega (arith, bit_xor_digit a b) in
    simp (bit-suc, half) (bit-bit_xor (a / 2) (b / 2) i)

-- The complement within `w` bits flips each of them.
pub bit_complement : (w x i : ℕ) → x < 2 ^ w → i < w → bit (2 ^ w - 1 - x) i + bit x i ≡ 1
bit_complement zero x i h lt = absurd (omega arith)
bit_complement (suc w) x zero h lt = omega (arith, pow-suc 2 w)
bit_complement (suc w) x (suc i) h lt =
    let half : (2 ^ suc w - 1 - x) / 2 ≡ 2 ^ w - 1 - x / 2 = omega (arith, pow-suc 2 w) in
    simp (bit-suc, half) (bit_complement w (x / 2) i (omega (arith, pow-suc 2 w)) (omega arith))

-- A word has no bit beyond its width.
pub bit_beyond : (w x i : ℕ) → x < 2 ^ w → w ≤ i → bit x i ≡ 0
bit_beyond zero x zero h le = omega arith
bit_beyond zero x (suc i) h le =
    simp (bit-suc) (bit_beyond zero (x / 2) i (omega arith) (omega arith))
bit_beyond (suc w) x zero h le = absurd (omega arith)
bit_beyond (suc w) x (suc i) h le =
    simp (bit-suc) (bit_beyond w (x / 2) i (omega (arith, pow-suc 2 w)) (omega arith))

pub bit_cases : (x i : ℕ) → (bit x i ≡ 0) ⊎ (bit x i ≡ 1)
bit_cases x i = omega arith

-- Two words of `w` bits with the same bits are equal.
pub bits_ext : (w x y : ℕ) → x < 2 ^ w → y < 2 ^ w → ((i : ℕ) → i < w → bit x i ≡ bit y i) → x ≡ y
bits_ext zero x y hx hy h = omega arith
bits_ext (suc w) x y hx hy h =
    let halves : x / 2 ≡ y / 2 =
      bits_ext w (x / 2) (y / 2) (omega (arith, pow-suc 2 w)) (omega (arith, pow-suc 2 w))
        (λ i lt. rw (bit-suc x i, bit-suc y i) at (h (suc i) (omega arith))) in
    omega (arith, halves, h 0 (omega arith))

pub bit_and-lt : (w a b : ℕ) → a < 2 ^ w → bit_and a b < 2 ^ w
bit_and-lt zero a b h = let e : a ≡ 0 = omega arith in rw (e, bit_and-bitwise) (omega arith)
bit_and-lt (suc w) a b h = omega (
  arith,
  bit_and_digit a b,
  pow-suc 2 w,
  bit_and-lt w (a / 2) (b / 2) (omega (arith, pow-suc 2 w)),
)

pub bit_or-lt : (w a b : ℕ) → a < 2 ^ w → b < 2 ^ w → bit_or a b < 2 ^ w
bit_or-lt zero a b h k = let e : a ≡ 0 = omega arith in rw (e, bit_or-bitwise) (omega arith)
bit_or-lt (suc w) a b h k = omega (
  arith,
  bit_or_digit a b,
  pow-suc 2 w,
  bit_or-lt w (a / 2) (b / 2) (omega (arith, pow-suc 2 w)) (omega (arith, pow-suc 2 w)),
)

pub bit_xor-lt : (w a b : ℕ) → a < 2 ^ w → b < 2 ^ w → bit_xor a b < 2 ^ w
bit_xor-lt zero a b h k = let e : a ≡ 0 = omega arith in rw (e, bit_xor-bitwise) (omega arith)
bit_xor-lt (suc w) a b h k = omega (
  arith,
  bit_xor_digit a b,
  pow-suc 2 w,
  bit_xor-lt w (a / 2) (b / 2) (omega (arith, pow-suc 2 w)) (omega (arith, pow-suc 2 w)),
)
