-- ===== src/Base/Bits/Field.antt =====
-- Fields of a word as arithmetic: `|` of disjoint fields is a sum, `&` with a mask is `%` or `/`.
use Prim.Native.Nat.{
  ℕ, zero, suc, ◌+◌, ◌-◌, ◌*◌, ◌/◌, ◌%◌, ◌^◌, ◌<◌, bit_and, bit_or, bit_or-bitwise,
}
use mathlib.Core.Path.{◌≡◌, refl, sym, ap, ◌∙◌}
use mathlib.Core.WellFounded
use native.Mathlib.Nat.{pow-suc, one-le-pow, div-add-mod, div-add-mod'}
use native.Mathlib.Omega.{arith}
use riscv_sym.Base.Order.{lt_wf}
use riscv_sym.Base.Bits.Digit.{bit_and_digit, bit_or_digit}
use riscv_sym.Base.Bits.Laws.{div-two-pow-suc}

or_zero : (a : ℕ) → bit_or a 0 ≡ a
or_zero a = WellFounded.induction lt_wf {C = λ x. bit_or x 0 ≡ x} a halve
  where
    halve : (x : ℕ) → ((y : ℕ) → y < x → bit_or y 0 ≡ y) → bit_or x 0 ≡ x
    halve zero smaller = refl
    halve (suc x) smaller =
        let half : bit_or (suc x / 2) 0 ≡ suc x / 2 = smaller (suc x / 2) (omega arith) in
        omega (arith, half, bit_or_digit (suc x) 0)

pub bit_or_comm : (a b : ℕ) → bit_or a b ≡ bit_or b a
bit_or_comm a = WellFounded.induction lt_wf {C = λ n. (b : ℕ) → bit_or n b ≡ bit_or b n} a step
  where
    step :
        (n : ℕ)
        → ((m : ℕ) → m < n → (b : ℕ) → bit_or m b ≡ bit_or b m)
        → (b : ℕ) → bit_or n b ≡ bit_or b n
    step zero ih b = bit_or-bitwise 0 b ∙ sym (or_zero b)
    step (suc n) ih b = omega (
      arith,
      bit_or_digit (suc n) b,
      bit_or_digit b (suc n),
      ih (suc n / 2) (omega arith) (b / 2),
    )

double_suc : (x w : ℕ) → x * 2 ^ suc w ≡ x * 2 ^ w * 2
double_suc x w = let twice = pow-suc 2 w in omega (arith, ap (λ (y : ℕ). x * y) twice)

half_mask : (k : ℕ) → (2 ^ suc k - 1) / 2 ≡ 2 ^ k - 1
half_mask k = omega (arith, pow-suc 2 k, one-le-pow k 2 (omega arith))

half_double : (q k : ℕ) → q * 2 ^ suc k / 2 ≡ q * 2 ^ k
half_double q k = omega (arith, double_suc q k)

-- Two fields that do not overlap: `|` adds them.
pub bit_or_high : (w x low : ℕ) → low < 2 ^ w → bit_or (x * 2 ^ w) low ≡ x * 2 ^ w + low
bit_or_high zero x low h =
    let e : low ≡ 0 = omega arith in rw (e, or_zero (x * 2 ^ zero)) (omega arith)
bit_or_high (suc w) x low h = omega (
  arith,
  double_suc x w,
  bit_or_digit (x * 2 ^ suc w) low,
  pow-suc 2 w,
  ap (λ (t : ℕ). bit_or t (low / 2)) (half_double x w),
  bit_or_high w x (low / 2) (omega (arith, pow-suc 2 w)),
)

-- The same with the low field first.
pub bit_or_low : (k q r : ℕ) → r < 2 ^ k → bit_or r (q * 2 ^ k) ≡ q * 2 ^ k + r
bit_or_low k q r h = bit_or_comm r (q * 2 ^ k) ∙ bit_or_high k q r h

-- `x | r` where the low `k` bits of `x` are free and `r` fits there, in either order.
pub bit_or_sum : (k x r : ℕ) → x % 2 ^ k ≡ 0 → r < 2 ^ k → bit_or x r ≡ x + r
bit_or_sum k x r free fits =
    let split : x / 2 ^ k * 2 ^ k ≡ x = omega (arith, div-add-mod' x (2 ^ k)) in
    omega (arith, ap (λ (t : ℕ). bit_or t r) split, bit_or_high k (x / 2 ^ k) r fits)

-- A mask that is shifted left by `k` reads the number from bit `k` up.
pub bit_and_shift : (k x c : ℕ) → bit_and x (c * 2 ^ k) ≡ bit_and (x / 2 ^ k) c * 2 ^ k
bit_and_shift zero x c =
    let same : x / 2 ^ zero ≡ x = omega arith in
    let one : c * 2 ^ zero ≡ c = omega arith in rw (same, one) (omega arith)
bit_and_shift (suc k) x c = omega (
  arith,
  double_suc c k,
  bit_and_digit x (c * 2 ^ suc k),
  ap (λ (t : ℕ). bit_and (x / 2) t) (half_double c k),
  bit_and_shift k (x / 2) c,
  ap (λ (t : ℕ). bit_and t c * 2 ^ suc k) (div-two-pow-suc x k),
  double_suc (bit_and (x / 2 / 2 ^ k) c) k,
)

and_zero : (a : ℕ) → bit_and a 0 ≡ 0
and_zero a = WellFounded.induction lt_wf {C = λ x. bit_and x 0 ≡ 0} a halve
  where
    halve : (x : ℕ) → ((y : ℕ) → y < x → bit_and y 0 ≡ 0) → bit_and x 0 ≡ 0
    halve zero smaller = refl
    halve (suc x) smaller =
        let half : bit_and (suc x / 2) 0 ≡ 0 = smaller (suc x / 2) (omega arith) in
        omega (arith, half, bit_and_digit (suc x) 0)

-- `&` is below what bounds its second operand.
pub bit_and-lt_right : (w a b : ℕ) → b < 2 ^ w → bit_and a b < 2 ^ w
bit_and-lt_right zero a b h = let e : b ≡ 0 = omega arith in rw (e, and_zero a) (omega arith)
bit_and-lt_right (suc w) a b h = omega (
  arith,
  bit_and_digit a b,
  pow-suc 2 w,
  bit_and-lt_right w (a / 2) (b / 2) (omega (arith, pow-suc 2 w)),
)

-- The remainder by `2 ^ (k + 1)`, by the lowest digit.
mod-two-pow-suc : (k x : ℕ) → x % 2 ^ suc k ≡ x / 2 % 2 ^ k * 2 + x % 2
mod-two-pow-suc k x = omega (
  arith,
  div-two-pow-suc x k,
  div-add-mod x (2 ^ suc k),
  div-add-mod (x / 2) (2 ^ k),
  ap (λ (t : ℕ). 2 ^ suc k * t) (div-two-pow-suc x k),
  ap (λ (t : ℕ). t * (x / 2 / 2 ^ k)) (pow-suc 2 k),
)

-- A mask of `k` ones is the remainder by `2 ^ k`.
pub bit_and_low : (k x : ℕ) → bit_and x (2 ^ k - 1) ≡ x % 2 ^ k
bit_and_low zero x = omega (arith, and_zero x)
bit_and_low (suc k) x = omega (
  arith,
  one-le-pow k 2 (omega arith),
  pow-suc 2 k,
  bit_and_digit x (2 ^ suc k - 1),
  ap (λ (t : ℕ). bit_and (x / 2) t) (half_mask k),
  bit_and_low k (x / 2),
  mod-two-pow-suc k x,
)

-- A mask of `n` ones from bit `k` up, the form in which the code names a field in place.
pub bit_and_field : (n k x : ℕ) → bit_and x ((2 ^ n - 1) * 2 ^ k) ≡ x / 2 ^ k % 2 ^ n * 2 ^ k
bit_and_field n k x =
    bit_and_shift k x (2 ^ n - 1) ∙ ap (λ (t : ℕ). t * 2 ^ k) (bit_and_low n (x / 2 ^ k))

-- `x | (c << k)`, where the two may overlap.
pub bit_or_shift : (k x c : ℕ) → bit_or x (c * 2 ^ k) ≡ bit_or (x / 2 ^ k) c * 2 ^ k + x % 2 ^ k
bit_or_shift zero x c =
    let same : x / 2 ^ zero ≡ x = omega arith in
    let one : c * 2 ^ zero ≡ c = omega arith in rw (same, one) (omega arith)
bit_or_shift (suc k) x c = omega (
  arith,
  double_suc c k,
  bit_or_digit x (c * 2 ^ suc k),
  ap (λ (t : ℕ). bit_or (x / 2) t) (half_double c k),
  bit_or_shift k (x / 2) c,
  ap (λ (t : ℕ). bit_or t c * 2 ^ suc k) (div-two-pow-suc x k),
  double_suc (bit_or (x / 2 / 2 ^ k) c) k,
  mod-two-pow-suc k x,
)
