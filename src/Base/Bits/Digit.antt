-- ===== src/Base/Bits/Digit.antt =====
-- The native bit operations by their lowest digit, and the bit of a number at a place.
use Prim.Native.Nat.{
  ℕ, zero, suc, ◌+◌, ◌*◌, ◌/◌, ◌%◌, ◌^◌, ◌≤◌, ◌<◌, min, max, digits, bitwise, bit_and, bit_or,
  bit_xor, bit_and-bitwise, bit_or-bitwise, bit_xor-bitwise, differ,
}
use mathlib.Core.Path.{◌≡◌, refl}
use native.Mathlib.Omega.{arith}

-- Bit `i` of `x`, as 0 or 1.
abbrev pub bit : ℕ → ℕ → ℕ
bit x i = x / 2 ^ i % 2

-- The fuel of the library's digit recursion does not matter.
module _ (z : ℕ → ℕ) (f : ℕ → ℕ → ℕ) where
  fuel_irrelevant : (j k u v : ℕ) → u ≤ j → u ≤ k → digits z f j u v ≡ digits z f k u v
  fuel_irrelevant zero zero u v hu hv = refl
  fuel_irrelevant zero (suc k) zero v hu hv = refl
  fuel_irrelevant zero (suc k) (suc u) v hu hv = absurd (omega arith)
  fuel_irrelevant (suc j) zero zero v hu hv = refl
  fuel_irrelevant (suc j) zero (suc u) v hu hv = absurd (omega arith)
  fuel_irrelevant (suc j) (suc k) zero v hu hv = refl
  fuel_irrelevant (suc j) (suc k) (suc u) v hu hv =
      rw (fuel_irrelevant j k (suc u / 2) (v / 2) (omega arith) (omega arith))

  lowest_digit :
      (u v : ℕ)
      → bitwise z f (suc u) v ≡ bitwise z f (suc u / 2) (v / 2) * 2 + f (suc u % 2) (v % 2)
  lowest_digit u v =
      omega (arith, fuel_irrelevant u (suc u / 2) (suc u / 2) (v / 2) (omega arith) (omega arith))

pub bit_and_digit : (u v : ℕ) → bit_and u v ≡ bit_and (u / 2) (v / 2) * 2 + min (u % 2) (v % 2)
bit_and_digit zero v = simp bit_and-bitwise (omega arith)
bit_and_digit (suc u) v = simp bit_and-bitwise (lowest_digit (λ y. 0) min u v)

pub bit_or_digit : (u v : ℕ) → bit_or u v ≡ bit_or (u / 2) (v / 2) * 2 + max (u % 2) (v % 2)
bit_or_digit zero v = simp bit_or-bitwise (omega arith)
bit_or_digit (suc u) v = simp bit_or-bitwise (lowest_digit (λ y. y) max u v)

differ-mod : (u v : ℕ) → differ (u % 2) (v % 2) ≡ (u % 2 + v % 2) % 2
differ-mod u v = go (u % 2) (v % 2) (omega arith) (omega arith)
  where
    go : (x y : ℕ) → x < 2 → y < 2 → differ x y ≡ (x + y) % 2
    go zero y hu hv = omega arith
    go (suc zero) zero hu hv = refl
    go (suc zero) (suc zero) hu hv = refl
    go (suc zero) (suc (suc y)) hu hv = absurd (omega arith)
    go (suc (suc x)) y hu hv = absurd (omega arith)

pub bit_xor_digit : (u v : ℕ) → bit_xor u v ≡ bit_xor (u / 2) (v / 2) * 2 + (u % 2 + v % 2) % 2
bit_xor_digit zero v = simp bit_xor-bitwise (omega arith)
bit_xor_digit (suc u) v =
    simp bit_xor-bitwise (omega (arith, lowest_digit (λ y. y) differ u v, differ-mod (suc u) v))
