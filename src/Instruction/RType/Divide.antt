-- ===== src/Instruction/RType/Divide.antt =====
-- core/instruction/RTypeInstruction.cpp: the laws that tie the halves of a product, and a quotient
-- with its remainder.
use riscv_sym.Base.{
  ℕ, zero, ◌==◌, ◌&&◌, not, Bool, if◌then◌else◌, ◌≢◌, suc, ◌+◌, ◌/◌, ◌%◌, ◌^◌, ◌*◌, ◌-◌, ◌≤◌, ◌<◌,
  ◌≡◌, ltb, u32, arith, refl, ap, ◌⊎◌, inl, inr, Bool-cases,
}
use riscv_sym.Base.Int.{pos, int32, to_word, ◌/ℤ◌, ◌%ℤ◌, neg_ℕ}
use native.Mathlib.Nat.{div-add-mod', div-le_self, mod-le}
use riscv_sym.Instruction.RType.{div, divu, rem, remu}

recompose : (a b : ℕ) → a / b * b + a % b ≡ a
recompose a b = div-add-mod' a b

-- DIVU and REMU recompose the dividend, and the remainder is below a divisor other than 0.
pub divu-remu :
    (a b : ℕ) → a < 2 ^ 32 → (u32 (divu a b * b + remu a b) ≡ a) × ((b ≡ 0) ⊎ (remu a b < b))
unfolding divu remu
divu-remu a b ha = (ground (arith, recompose a b), ground arith)

-- `x` is -q as a word.
abbrev IsNegative : ℕ → ℕ → Type 0
IsNegative x q = (x + q ≡ 2 ^ 32) ⊎ ((x ≡ 0) × (q ≡ 0))

to_word-neg : (q : ℕ) → q ≤ 2 ^ 31 → IsNegative (to_word 32 (neg_ℕ q)) q
unfolding to_word
to_word-neg zero h = inr (refl, refl)
to_word-neg (suc q) h = inl (omega arith)

-- A product with a negative word, on the left and on the right.
neg_mul : (x q b : ℕ) → IsNegative x q → u32 (x * b + q * b) ≡ 0
neg_mul x q b (inl e) = omega (arith, ap (λ (t : ℕ). t * b) e)
neg_mul x q b (inr (e, f)) = rw (e, f) (omega arith)

mul_neg : (q b b' : ℕ) → b + b' ≡ 2 ^ 32 → u32 (q * b + q * b') ≡ 0
mul_neg q b b' e = omega (arith, ap (λ (t : ℕ). q * t) e)

-- The four cases of the signs, for magnitudes of at most 2 ^ 31.
module _ (a b a' b' : ℕ) (ha : a < 2 ^ 32) (hb : b < 2 ^ 32) where
  pos_neg : a ≤ 2 ^ 31 → b + b' ≡ 2 ^ 32 → u32 (to_word 32 (neg_ℕ (a / b')) * b + a % b') ≡ a
  pos_neg la e =
      let q : ℕ = a / b' in
      let x : ℕ = to_word 32 (neg_ℕ q) in
      let n = to_word-neg q (omega (arith, div-le_self a b')) in
      omega (arith, neg_mul x q b n, mul_neg q b b' e, recompose a b')

  neg_pos :
      a' ≤ 2 ^ 31
      → a + a' ≡ 2 ^ 32
      → u32 (to_word 32 (neg_ℕ (a' / b)) * b + to_word 32 (neg_ℕ (a' % b))) ≡ a
  neg_pos la e =
      let q : ℕ = a' / b in
      let x : ℕ = to_word 32 (neg_ℕ q) in
      let n = to_word-neg q (omega (arith, div-le_self a' b)) in
      let r = to_word-neg (a' % b) (omega (arith, mod-le a' b)) in
      omega (arith, neg_mul x q b n, r, recompose a' b)

  neg_neg :
      a' ≤ 2 ^ 31
      → a + a' ≡ 2 ^ 32
      → b + b' ≡ 2 ^ 32
      → u32 (u32 (a' / b') * b + to_word 32 (neg_ℕ (a' % b'))) ≡ a
  neg_neg la e f =
      let q : ℕ = a' / b' in
      let same : u32 q ≡ q = omega (arith, div-le_self a' b') in
      let r = to_word-neg (a' % b') (omega (arith, mod-le a' b')) in
      rw same (omega (arith, mul_neg q b b' f, r, recompose a' b'))

small : (x : ℕ) → x < 2 ^ 32 → u32 x ≡ x
small x h = omega arith

-- The quotient and the remainder as words, by the signs of the operands.
signed_recompose :
    (a b : ℕ)
    → a < 2 ^ 32
    → b < 2 ^ 32
    → u32 (to_word 32 (int32 a /ℤ int32 b) * b + to_word 32 (int32 a %ℤ int32 b)) ≡ a
unfolding int32 ◌/ℤ◌ ◌%ℤ◌ to_word
signed_recompose a b ha hb =
    let a' : ℕ = suc (2 ^ 32 - 1 - a) in
    let b' : ℕ = suc (2 ^ 32 - 1 - b) in
    elim (Bool-cases (ltb a (2 ^ 31))) [
      | inl pa ↦ elim (Bool-cases (ltb b (2 ^ 31))) [
        | inl pb ↦ rw (pa, pb) (pos_pos a b ha)
        | inr nb ↦
            rw (pa, nb)
              (rw (word_pos (a % b') (omega (arith, mod-le a b')))
                (pos_neg a b a' b' ha hb (ground arith) (omega arith)))
      ]
      | inr na ↦ elim (Bool-cases (ltb b (2 ^ 31))) [
        | inl pb ↦ rw (na, pb) (neg_pos a b a' b' ha hb (ground arith) (omega arith))
        | inr nb ↦ rw (na, nb) (neg_neg a b a' b' ha hb (ground arith) (omega arith) (omega arith))
      ]
    ]
  where
    word_pos : (x : ℕ) → x < 2 ^ 32 → to_word 32 (pos x) ≡ x
    word_pos x h = unfold to_word in omega arith

    pos_pos :
        (a b : ℕ) → a < 2 ^ 32 → u32 (to_word 32 (pos (a / b)) * b + to_word 32 (pos (a % b))) ≡ a
    pos_pos a b h =
        rw
          (
            word_pos (a / b) (omega (arith, div-le_self a b)),
            word_pos (a % b) (omega (arith, mod-le a b)),
          )
          (omega (arith, recompose a b))

-- The magnitude of a word that is read with its sign, and the word of a magnitude with a sign.
abbrev pub magnitude : ℕ → ℕ
magnitude x = if ltb x (2 ^ 31) then x else 2 ^ 32 - x

abbrev pub is_positive : ℕ → Bool
is_positive x = ltb x (2 ^ 31)

abbrev pub same_sign : ℕ → ℕ → Bool
same_sign a b = if is_positive a then is_positive b else not (is_positive b)

abbrev pub signed : Bool → ℕ → ℕ
signed positive n = if positive then n else (2 ^ 32 - n) % 2 ^ 32

word_of_pos : (n : ℕ) → n < 2 ^ 32 → to_word 32 (pos n) ≡ n
unfolding to_word
word_of_pos n h = omega arith

word_of_neg : (n : ℕ) → n ≤ 2 ^ 31 → to_word 32 (neg_ℕ n) ≡ (2 ^ 32 - n) % 2 ^ 32
unfolding to_word
word_of_neg zero h = refl
word_of_neg (suc n) h = omega arith

-- The quotient and the remainder of the magnitudes, with their signs.
signed_parts :
    (a b : ℕ)
    → a < 2 ^ 32
    → b < 2 ^ 32
    → (to_word 32 (int32 a /ℤ int32 b) ≡ signed (same_sign a b) (magnitude a / magnitude b))
      × (to_word 32 (int32 a %ℤ int32 b) ≡ signed (is_positive a) (magnitude a % magnitude b))
unfolding int32 ◌/ℤ◌ ◌%ℤ◌
signed_parts a b ha hb =
    let a' : ℕ = suc (2 ^ 32 - 1 - a) in
    let b' : ℕ = suc (2 ^ 32 - 1 - b) in
    let ea : a' ≡ 2 ^ 32 - a = omega arith in
    let eb : b' ≡ 2 ^ 32 - b = omega arith in
    elim (Bool-cases (ltb a (2 ^ 31))) [
      | inl pa ↦ elim (Bool-cases (ltb b (2 ^ 31))) [
        | inl pb ↦
            rw (pa, pb)
              (
                word_of_pos (a / b) (omega (arith, div-le_self a b)),
                word_of_pos (a % b) (omega (arith, mod-le a b)),
              )
        | inr nb ↦
            rw (pa, nb, ← eb)
              (
                word_of_neg (a / b') (ground (arith, div-le_self a b')),
                word_of_pos (a % b') (omega (arith, mod-le a b')),
              )
      ]
      | inr na ↦ elim (Bool-cases (ltb b (2 ^ 31))) [
        | inl pb ↦
            rw (na, pb, ← ea)
              (
                word_of_neg (a' / b) (ground (arith, div-le_self a' b)),
                word_of_neg (a' % b) (ground (arith, mod-le a' b)),
              )
        | inr nb ↦
            rw (na, nb, ← ea, ← eb)
              (
                word_of_pos (a' / b') (ground (arith, div-le_self a' b')),
                word_of_neg (a' % b') (ground (arith, mod-le a' b')),
              )
      ]
    ]

-- DIV and REM of words recompose the dividend modulo 2 ^ 32. By a divisor of 0 the quotient is 2 ^
-- 32 - 1 and the remainder the dividend. By any other divisor, in the overflow too, they are the
-- quotient and the remainder of the magnitudes, the quotient negative exactly if the signs differ
-- and the remainder with the sign of the dividend.
pub div-rem :
    (a b : ℕ)
    → a < 2 ^ 32
    → b < 2 ^ 32
    → (u32 (div a b * b + rem a b) ≡ a)
      × (((b ≡ 0) × (div a b ≡ 2 ^ 32 - 1) × (rem a b ≡ a))
          ⊎ ((b ≢ 0)
              × (div a b ≡ signed (same_sign a b) (magnitude a / magnitude b))
              × (rem a b ≡ signed (is_positive a) (magnitude a % magnitude b))))
unfolding div rem
div-rem a b ha hb = (
  ground (arith, signed_recompose a b ha hb),
  elim (Bool-cases (b == 0)) [
    | inl z ↦ inl (ground arith, rw z refl, rw z refl)
    | inr nz ↦ elim (Bool-cases (a == 2 ^ 31 && b == 0xffff_ffff)) [
      | inl over ↦
          let ea : a ≡ 2 ^ 31 = ground arith in
          let eb : b ≡ 0xffff_ffff = ground arith in
          inr ((λ e. ground arith), rw (ea, eb) refl, rw (ea, eb) refl)
      | inr fits ↦
          let (q, r) = signed_parts a b ha hb in
          inr ((λ e. ground arith), rw (nz, fits) q, rw (nz, fits) r)
    ]
  ],
)
