-- ===== src/Base/Bits/Table.antt =====
-- Facts about the 32 places of a word, checked at each of them.
use Prim.Native.Nat.{ℕ, zero, suc, ◌*◌, ◌/◌, ◌^◌, bit_and, ◌<◌}
use mathlib.Core.Path.{◌≡◌, refl, ap, ◌∙◌}
use mathlib.Core.Logic.{inl, inr}
use mathlib.Core.Bool.{Bool, true, ◌&&◌}
use native.Mathlib.Nat.{pow-suc, one-le-pow}
use native.Mathlib.Omega.{arith}
use riscv_sym.Base.Tests.{◌==◌, if◌then◌else◌}
use riscv_sym.Base.Bits.Digit.{bit}
use riscv_sym.Base.Bits.Laws.{bit-suc, bit_cases}
use riscv_sym.Base.Bits.Field.{bit_and_field}
use riscv_sym.Base.Word.{ne_zero}

-- Whether `test` holds of each number under `bound`.
unfoldable pub holds_below : (ℕ → Bool) → ℕ → Bool
holds_below test zero = true
holds_below test (suc bound) = holds_below test bound && test bound

pub holds_below_at :
    (test : ℕ → Bool) (bound i : ℕ) → i < bound → holds_below test bound ≡ true → test i ≡ true
unfolding holds_below
holds_below_at test zero i small all = absurd (omega arith)
holds_below_at test (suc bound) i small all = ground (arith, holds_below_at test bound i)

-- A single bit `b << k`.
pub bit_single : (k b i : ℕ) → b < 2 → bit (b * 2 ^ k) i ≡ (if i == k then b else 0)
bit_single zero b zero h = omega arith
bit_single zero b (suc i) h = rw (bit-suc (b * 2 ^ zero) i) (ground (arith, bit_of_zero i))
  where
    bit_of_zero : (i : ℕ) → bit 0 i ≡ 0
    bit_of_zero zero = refl
    bit_of_zero (suc i) = bit-suc 0 i ∙ bit_of_zero i
bit_single (suc k) b zero h = ground (arith, ap (λ (t : ℕ). b * t) (pow-suc 2 k))
bit_single (suc k) b (suc i) h =
    let half : b * 2 ^ suc k / 2 ≡ b * 2 ^ k = omega (arith, ap (λ (t : ℕ). b * t) (pow-suc 2 k)) in
    rw (bit-suc (b * 2 ^ suc k) i, half) (ground (arith, bit_single k b i))

-- `(x & (1 << k)) != 0`.
pub ne_zero-bit_and : (x k : ℕ) → ne_zero (bit_and x (1 * 2 ^ k)) ≡ (bit x k == 1)
ne_zero-bit_and x k = rw (bit_and_field 1 k x) (elim (bit_cases x k) [
  | inl e ↦ rw e (ground arith)
  | inr e ↦ rw e (ground (arith, one-le-pow k 2 (omega arith)))
])
