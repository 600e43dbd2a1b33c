-- ===== src/Assembler/Decimal.antt =====
-- Decimal numbers as a printer writes them, and `stol` of core/AssemblyCompiler.cpp on them.
use riscv_sym.Base.{
  ℕ, zero, suc, ◌+◌, ◌/◌, ◌%◌, ◌^◌, ◌≤◌, ◌<◌, ◌==◌, if◌then◌else◌, true, false, Option, some, [],
  ◌∷◌, ◌≡◌, refl, arith, ap, ◌∙◌, lt_wf, ◌⊎◌, inl, inr, sym, ◌≢◌,
}
use riscv_sym.Base.Int.{ℤ, pos, negsuc}
use mathlib.Core.Logic.{ite, dite}
use mathlib.Core.Path.{subst}
use mathlib.Core.List.{cons-ne-nil}
use riscv_sym.Base.Lists.{All}
use riscv_sym.Assembler.Print.{IsPlain, IsOperand}
use mathlib.Core.WellFounded
use mathlib.Core.WellFounded.{Acc, Acc-prop}
use native.Mathlib.Decide.{dec_lt}
use riscv_sym.Assembler.Text.{
  Text, is_space, skip_spaces, digit_value, scan_digits, magnitude, has_hex_prefix, starts_with,
  drop_one, unsigned_part, parse_number, to_long, stol,
}

tenth_lt : {n : ℕ} → 0 < n → n / 10 < n
tenth_lt h = omega arith

-- The digits of `n` before `out`, last digit first.
put_digits : (n : ℕ) → Acc ◌<◌ n → Text → Text
put_digits n (Acc.intro _ below) out =
    dite (dec_lt 0 n) (λ h. put_digits (n / 10) (below (n / 10) (tenth_lt h)) ((48 + n % 10) ∷ out))
      (λ _. out)

pub digits : ℕ → Text → Text
digits n = put_digits n (lt_wf.apply n)

unfoldable pub decimal : ℕ → Text
decimal n = if n == 0 then 48 ∷ [] else digits n []

unfoldable pub int_text : ℤ → Text
int_text (pos n) = decimal n
int_text (negsuc n) = b'-' ∷ decimal (suc n)

put_digits_round :
    (n : ℕ) (w : Acc ◌<◌ n) (w' : Acc ◌<◌ (n / 10)) (out : Text)
    → put_digits n w out ≡ ite (dec_lt 0 n) (put_digits (n / 10) w' ((48 + n % 10) ∷ out)) out
unfolding put_digits
put_digits_round n (Acc.intro _ below) w' out = λ i.
    dite (dec_lt 0 n)
      (λ h. put_digits (n / 10) (Acc-prop (below (n / 10) (tenth_lt h)) w' i) ((48 + n % 10) ∷ out))
      (λ _. out)

digits_round :
    (n : ℕ) (out : Text)
    → digits n out ≡ ite (dec_lt 0 n) (digits (n / 10) ((48 + n % 10) ∷ out)) out
unfolding digits
digits_round n = put_digits_round n _ _

abbrev first : Text → ℕ
first [] = 0
first (c ∷ s) = c

abbrev IsLeading : ℕ → Type 0
IsLeading c = (49 ≤ c) × (c ≤ 57)

scan_digits_last :
    (n : ℕ) (out : Text) → scan_digits 10 ((48 + n % 10) ∷ out) (n / 10) ≡ scan_digits 10 out n
unfolding scan_digits digit_value
scan_digits_last n out = ground arith

scan_digits-digits : (n : ℕ) (out : Text) → scan_digits 10 (digits n out) 0 ≡ scan_digits 10 out n
scan_digits-digits n =
    WellFounded.induction lt_wf
      {C = λ m. (out : Text) → scan_digits 10 (digits m out) 0 ≡ scan_digits 10 out m} n
      λ m ih out. grind (arith, digits_round m out, scan_digits_last m out, ih (m / 10))

first-digits : (n : ℕ) (out : Text) → 0 < n → IsLeading (first (digits n out))
first-digits n =
    WellFounded.induction lt_wf {C = λ m. (out : Text) → 0 < m → IsLeading (first (digits m out))} n
      λ m ih out h.
        grind (arith, digits_round m out, ih (m / 10), digits_round 0 ((48 + m % 10) ∷ out))

-- Text that starts with a digit other than 0 is read in base 10.
magnitude-scan_digits :
    (s : Text) → IsLeading (first s) → magnitude 10 s ≡ some (scan_digits 10 s 0)
unfolding magnitude scan_digits digit_value
magnitude-scan_digits [] h = ground arith
magnitude-scan_digits (c ∷ s) h = ground arith

unsigned_part-magnitude : (s : Text) → IsLeading (first s) → unsigned_part 0 s ≡ magnitude 10 s
unfolding unsigned_part has_hex_prefix starts_with
unsigned_part-magnitude [] h = ground arith
unsigned_part-magnitude (c ∷ []) h = ground arith
unsigned_part-magnitude (c ∷ d ∷ []) h = ground arith
unsigned_part-magnitude (c ∷ d ∷ e ∷ s) h = ground arith

unsigned_part-digits : (n : ℕ) → 0 < n → unsigned_part 0 (digits n []) ≡ some n
unfolding scan_digits
unsigned_part-digits n h =
    let l = first-digits n [] h in
    unsigned_part-magnitude (digits n []) l
    ∙ magnitude-scan_digits (digits n []) l
    ∙ ap some (scan_digits-digits n [])

parse_number-leading :
    (s : Text) → IsLeading (first s) → parse_number 0 s ≡ (false, unsigned_part 0 s)
unfolding parse_number skip_spaces is_space starts_with
parse_number-leading [] h = ground arith
parse_number-leading (c ∷ s) h = ground arith

-- What a `long` holds, but for -2 ^ 63.
abbrev pub InLong : ℤ → Type 0
InLong (pos n) = n < 2 ^ 63
InLong (negsuc n) = suc n < 2 ^ 63

decimal_positive : (n : ℕ) → 0 < n → decimal n ≡ digits n []
unfolding decimal
decimal_positive n h = ground arith

parse_number-minus : (s : Text) → parse_number 0 (b'-' ∷ s) ≡ (true, unsigned_part 0 s)
unfolding parse_number skip_spaces is_space starts_with drop_one
parse_number-minus s = refl

parse_number-int_text : (n : ℕ) → 0 < n → parse_number 0 (decimal n) ≡ (false, some n)
parse_number-int_text n h =
    ap (parse_number 0) (decimal_positive n h)
    ∙ parse_number-leading (digits n []) (first-digits n [] h)
    ∙ ap (λ (o : Option ℕ). (false, o)) (unsigned_part-digits n h)

unsigned_part-decimal : (n : ℕ) → 0 < n → unsigned_part 0 (decimal n) ≡ some n
unsigned_part-decimal n h = ap (unsigned_part 0) (decimal_positive n h) ∙ unsigned_part-digits n h

-- A printed number is read back in C's notation.
pub stol-int_text : (v : ℤ) → InLong v → stol (int_text v) 0 ≡ some v
unfolding stol int_text to_long
stol-int_text (pos zero) h =
    unfold decimal parse_number skip_spaces is_space starts_with unsigned_part has_hex_prefix
      magnitude digit_value scan_digits in
    refl
stol-int_text (pos (suc n)) h =
    ap to_long (parse_number-int_text (suc n) (omega arith)) ∙ ground arith
stol-int_text (negsuc n) h =
    ap to_long (
      parse_number-minus (decimal (suc n))
      ∙ ap (λ (o : Option ℕ). (true, o)) (unsigned_part-decimal (suc n) (omega arith)))
    ∙ ground arith

digits_positive :
    (n : ℕ) (out : Text) → 0 < n → digits n out ≡ digits (n / 10) ((48 + n % 10) ∷ out)
digits_positive n out h = ground (arith, digits_round n out)

digits_zero : (out : Text) → digits 0 out ≡ out
digits_zero out = ground (arith, digits_round 0 out)

digits-IsPlain : (n : ℕ) (out : Text) → All IsPlain out → All IsPlain (digits n out)
digits-IsPlain n =
    WellFounded.induction lt_wf
      {C = λ m. (out : Text) → All IsPlain out → All IsPlain (digits m out)} n
      λ m ih out h. elim (positive m) [
        | inl e ↦
            subst (λ x. All IsPlain (digits x out)) (sym e)
              (subst (All IsPlain) (sym (digits_zero out)) h)
        | inr lt ↦
            subst (All IsPlain) (sym (digits_positive m out lt))
              (ih (m / 10) (tenth_lt lt) ((48 + m % 10) ∷ out) (ground arith, h))
      ]
  where
    positive : (m : ℕ) → (m ≡ 0) ⊎ (0 < m)
    positive m = ground arith

digits-IsOperand : (n : ℕ) → 0 < n → IsOperand (digits n [])
digits-IsOperand n h = (go (digits n []) (first-digits n [] h), digits-IsPlain n [] tt)
  where
    go : (s : Text) → IsLeading (first s) → s ≢ []
    go [] h = absurd (omega arith)
    go (c ∷ s) h = cons-ne-nil c s

pub int_text-IsOperand : (v : ℤ) → IsOperand (int_text v)
unfolding int_text decimal
int_text-IsOperand (pos zero) = ground arith
int_text-IsOperand (pos (suc n)) =
    subst IsOperand (sym (decimal_positive (suc n) (omega arith)))
      (digits-IsOperand (suc n) (omega arith))
int_text-IsOperand (negsuc n) =
    let h =
      subst IsOperand (sym (decimal_positive (suc n) (omega arith)))
        (digits-IsOperand (suc n) (omega arith)) in
    (cons-ne-nil b'-' (decimal (suc n)), (ground arith, h.1))
