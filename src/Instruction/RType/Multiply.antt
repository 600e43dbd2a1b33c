-- ===== src/Instruction/RType/Multiply.antt =====
-- core/instruction/RTypeInstruction.cpp: MULH and MULHSU against the exact product.
use riscv_sym.Base.{
  ℕ, ◌∙◌, zero, suc, ◌+◌, ◌%◌, ◌^◌, ◌*◌, ◌-◌, ◌≤◌, ◌<◌, ◌≡◌, ltb, u32, arith, refl, ap, Bool, true,
  false, ◌>>>◌,
}
use riscv_sym.Base.Int.{ℤ, pos, negsuc, int32, to_word, ◌*ℤ◌, neg_ℕ}
use native.Mathlib.Nat.{mul_comm, mul-le-mul}
use riscv_sym.Instruction.RType.{mulh, mulhsu}

-- `x` is -p in 64 bits.
to_word-neg64 : (p : ℕ) → p < 2 ^ 64 → (to_word 64 (neg_ℕ p) + p) % 2 ^ 64 ≡ 0
unfolding to_word
to_word-neg64 zero h = refl
to_word-neg64 (suc p) h = omega arith

-- The low half of -a' times b is that of a times b, where a is -a' in 32 bits.
neg_pos_low :
    (a a' b : ℕ)
    → a + a' ≡ 2 ^ 32
    → b < 2 ^ 32
    → a' ≤ 2 ^ 31
    → to_word 64 (neg_ℕ (a' * b)) % 2 ^ 32 ≡ a * b % 2 ^ 32
neg_pos_low a a' b e hb ha =
    let small : a' * b ≤ 2 ^ 31 * 2 ^ 32 = mul-le-mul {m₂ = 2 ^ 32} ha (omega arith) in
    omega (arith, to_word-neg64 (a' * b) (omega (arith, small)), ap (λ (t : ℕ). t * b) e)

neg_neg_low :
    (a a' b b' : ℕ) → a + a' ≡ 2 ^ 32 → b + b' ≡ 2 ^ 32 → a' * b' % 2 ^ 32 ≡ a * b % 2 ^ 32
neg_neg_low a a' b b' e f = omega (arith, ap (λ (t : ℕ). t * b') e, ap (λ (t : ℕ). a * t) f)

to_word-lt : (z : ℤ) → to_word 64 z < 2 ^ 64
unfolding to_word
to_word-lt (pos n) = omega arith
to_word-lt (negsuc n) = omega arith

to_word-pos : (n : ℕ) → to_word 64 (pos n) % 2 ^ 32 ≡ n % 2 ^ 32
unfolding to_word
to_word-pos n = omega arith

module _ (a b : ℕ) (ha : a < 2 ^ 32) (hb : b < 2 ^ 32) where
  signed_low : to_word 64 (int32 a *ℤ int32 b) % 2 ^ 32 ≡ a * b % 2 ^ 32
  signed_low = go (ltb a (2 ^ 31)) (ltb b (2 ^ 31)) refl refl
    where
      go :
          (x y : Bool)
          → ltb a (2 ^ 31) ≡ x
          → ltb b (2 ^ 31) ≡ y
          → to_word 64 (int32 a *ℤ int32 b) % 2 ^ 32 ≡ a * b % 2 ^ 32
      go true true ex ey = unfold int32 ◌*ℤ◌ in rw (ex, ey) (to_word-pos (a * b))
      go true false ex ey =
          unfold int32 ◌*ℤ◌ in
          rw (ex, ey, mul_comm a (suc (2 ^ 32 - 1 - b)), mul_comm a b)
            (neg_pos_low b (suc (2 ^ 32 - 1 - b)) a (ground arith) ha (ground arith))
      go false true ex ey =
          unfold int32 ◌*ℤ◌ in
          rw (ex, ey) (neg_pos_low a (suc (2 ^ 32 - 1 - a)) b (ground arith) hb (ground arith))
      go false false ex ey =
          unfold int32 ◌*ℤ◌ in
          rw (ex, ey)
            (to_word-pos (suc (2 ^ 32 - 1 - a) * suc (2 ^ 32 - 1 - b))
              ∙ neg_neg_low a (suc (2 ^ 32 - 1 - a)) b (suc (2 ^ 32 - 1 - b)) (ground arith)
                  (ground arith))

  mixed_low : to_word 64 (int32 a *ℤ pos b) % 2 ^ 32 ≡ a * b % 2 ^ 32
  mixed_low = go (ltb a (2 ^ 31)) refl
    where
      go : (x : Bool) → ltb a (2 ^ 31) ≡ x → to_word 64 (int32 a *ℤ pos b) % 2 ^ 32 ≡ a * b % 2 ^ 32
      go true ex = unfold int32 ◌*ℤ◌ in rw (ex) (to_word-pos (a * b))
      go false ex =
          unfold int32 ◌*ℤ◌ in
          rw (ex) (neg_pos_low a (suc (2 ^ 32 - 1 - a)) b (ground arith) hb (ground arith))

halves : (z w : ℕ) → z < 2 ^ 64 → z % 2 ^ 32 ≡ w % 2 ^ 32 → u32 (z >>> 32) * 2 ^ 32 + u32 w ≡ z
halves z w h e = omega arith

-- For words, MULH and MULHSU give the upper half of the exact product of two signed numbers, and
-- of a signed and an unsigned one, whose lower half is that of MUL.
pub mulh-product :
    (a b : ℕ)
    → a < 2 ^ 32
    → b < 2 ^ 32
    → (mulh a b * 2 ^ 32 + u32 (a * b) ≡ to_word 64 (int32 a *ℤ int32 b))
      × (mulhsu a b * 2 ^ 32 + u32 (a * b) ≡ to_word 64 (int32 a *ℤ pos b))
unfolding mulh mulhsu
mulh-product a b ha hb = (
  halves _ (a * b) (to_word-lt (int32 a *ℤ int32 b)) (signed_low a b ha hb),
  halves _ (a * b) (to_word-lt (int32 a *ℤ pos b)) (mixed_low a b ha hb),
)
