-- ===== src/Assembler/Print.antt =====
-- The layout of a line of assembly as a printer writes it, and `AssemblyInstruction` of
-- core/AssemblyCompiler.cpp on it.
use riscv_sym.Base.{ℕ, false, List, [], ◌∷◌, ◌++◌, map, ◌≡◌, ◌≢◌, refl, ap, ◌∙◌, arith}
use riscv_sym.Base.Lists.{All}
use riscv_sym.Assembler.Text.{Text, is_empty, is_space, skip_spaces}
use riscv_sym.Assembler.Line.{
  word, after_word, split_commas, is_blank, trim_start, trim_end, trim, keep_filled, parse,
}

-- A comma and a space between two operands.
unfoldable pub print_operands : List Text → Text
print_operands [] = []
print_operands (o ∷ []) = o
print_operands (o ∷ o' ∷ os) = o ++ (b',' ∷ b' ' ∷ print_operands (o' ∷ os))

unfoldable pub print_line : Text → List Text → Text
print_line name operands = name ++ (b' ' ∷ print_operands operands)

abbrev pub IsPlain : ℕ → Type 0
IsPlain c = (c ≢ b',') × (c ≢ b' ') × (c ≢ 9)

abbrev pub IsOperand : Text → Type 0
IsOperand o = (o ≢ []) × All IsPlain o

abbrev pub IsName : Text → Type 0
IsName s = (s ≢ []) × All (λ c. is_space c ≡ false) s

word-append : (s t : Text) → All (λ c. is_space c ≡ false) s → word (s ++ (b' ' ∷ t)) ≡ s
unfolding word is_space
word-append [] t h = refl
word-append (c ∷ s) t (hc, h) = ground (arith, word-append s t h)

after_word-append :
    (s t : Text) → All (λ c. is_space c ≡ false) s → after_word (s ++ (b' ' ∷ t)) ≡ b' ' ∷ t
unfolding after_word is_space
after_word-append [] t h = refl
after_word-append (c ∷ s) t (hc, h) = ground (arith, after_word-append s t h)

skip_spaces-name : (s t : Text) → IsName s → skip_spaces (s ++ t) ≡ s ++ t
unfolding skip_spaces
skip_spaces-name [] t (h, _) = absurd (h refl)
skip_spaces-name (c ∷ s) t (_, (hc, _)) = ground (arith)

split_commas-append :
    (o t : Text) → All (λ c. c ≢ b',') o → split_commas (o ++ (b',' ∷ t)) ≡ o ∷ split_commas t
unfolding split_commas
split_commas-append [] t h = refl
split_commas-append (c ∷ o) t (hc, h) = ground (arith, split_commas-append o t h)

split_commas-plain : (o : Text) → All (λ c. c ≢ b',') o → split_commas o ≡ o ∷ []
unfolding split_commas
split_commas-plain [] h = refl
split_commas-plain (c ∷ o) (hc, h) = ground (arith, split_commas-plain o h)

no_commas : (o : Text) → All IsPlain o → All (λ c. c ≢ b',') o
no_commas [] h = h
no_commas (c ∷ o) (hc, h) = (hc.0, no_commas o h)

trim_end-plain : (o : Text) → All IsPlain o → trim_end o ≡ o
unfolding trim_end is_blank
trim_end-plain [] h = refl
trim_end-plain (c ∷ o) (hc, h) = ground (arith, trim_end-plain o h)

trim-spaced : (o : Text) → IsOperand o → trim (b' ' ∷ o) ≡ o
unfolding trim trim_start is_blank
trim-spaced [] (h, _) = absurd (h refl)
trim-spaced (c ∷ o) (_, (hc, h)) = ground (arith, trim_end-plain (c ∷ o) (hc, h))

abbrev spaced : Text → Text
spaced o = b' ' ∷ o

space_plain : ◌≢◌ {A = ℕ} b' ' b','
space_plain = omega arith

split_commas-print :
    (o : Text) (os : List Text)
    → All IsOperand (o ∷ os)
    → split_commas (b' ' ∷ print_operands (o ∷ os)) ≡ map spaced (o ∷ os)
unfolding print_operands
split_commas-print o [] (h, _) = split_commas-plain (b' ' ∷ o) (space_plain, no_commas o h.1)
split_commas-print o (o' ∷ os) (h, hs) =
    split_commas-append (b' ' ∷ o) (b' ' ∷ print_operands (o' ∷ os)) (space_plain, no_commas o h.1)
    ∙ ap (λ (r : List Text). (b' ' ∷ o) ∷ r) (split_commas-print o' os hs)

keep_filled-spaced :
    (os : List Text) → All IsOperand os → keep_filled (map trim (map spaced os)) ≡ os
unfolding keep_filled is_empty
keep_filled-spaced [] h = refl
keep_filled-spaced ([] ∷ os) (h, _) = absurd (h.0 refl)
keep_filled-spaced ((c ∷ o) ∷ os) (h, hs) =
    ground (arith, trim-spaced (c ∷ o) h, keep_filled-spaced os hs)

operands_read :
    (os : List Text)
    → All IsOperand os
    → keep_filled (map trim (split_commas (b' ' ∷ print_operands os))) ≡ os
unfolding print_operands split_commas keep_filled trim trim_start trim_end is_blank is_empty
operands_read [] h = refl
operands_read (o ∷ os) h =
    ap (λ (r : List Text). keep_filled (map trim r)) (split_commas-print o os h)
    ∙ keep_filled-spaced (o ∷ os) h

-- A name without white space and operands that are not empty and have no comma, space or tab,
-- printed with a comma and a space between the operands, are read back.
pub parse-print_line :
    (name : Text) (operands : List Text)
    → IsName name
    → All IsOperand operands
    → parse (print_line name operands) ≡ record { instruction_name = name; operands = operands }
unfolding parse print_line
parse-print_line name operands hn ho =
    let t : Text = b' ' ∷ print_operands operands in
    let e : skip_spaces (name ++ t) ≡ name ++ t = skip_spaces-name name t hn in
    rw
      (
        e,
        word-append name (print_operands operands) hn.1,
        after_word-append name (print_operands operands) hn.1,
        operands_read operands ho,
      )
      refl
