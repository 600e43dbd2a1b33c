-- ===== src/Assembler/Line.antt =====
-- core/AssemblyCompiler.cpp, `AssemblyInstruction`: a line's name and operands.
use riscv_sym.Base.{ℕ, ◌==◌, if◌then◌else◌, Bool, List, [], ◌∷◌, ◌&&◌, ◌||◌, map, ◌≡◌, refl}
use riscv_sym.Assembler.Text.{Text, is_empty, is_space, skip_spaces, codes}

pub record AssemblyInstruction : Type 0 where
  pub instruction_name : Text
  pub operands : List Text

-- `iss >> instructionName` behind the leading white space: what it reads, and what it leaves.
unfoldable pub word : Text → Text
word [] = []
word (c ∷ s) = let rest = word s in if is_space c then [] else c ∷ rest

unfoldable pub after_word : Text → Text
after_word [] = []
after_word (c ∷ s) = let rest = after_word s in if is_space c then c ∷ s else rest

abbrev pub put_first : ℕ → List Text → List Text
put_first c [] = (c ∷ []) ∷ []
put_first c (piece ∷ pieces) = (c ∷ piece) ∷ pieces

-- `getline` up to each comma.
unfoldable pub split_commas : Text → List Text
split_commas [] = [] ∷ []
split_commas (c ∷ s) =
    let rest = split_commas s in if c == b',' then [] ∷ rest else put_first c rest

unfoldable pub is_blank : ℕ → Bool
is_blank c = c == b' ' || c == 9

unfoldable pub trim_start : Text → Text
trim_start [] = []
trim_start (c ∷ s) = let rest = trim_start s in if is_blank c then rest else c ∷ s

unfoldable pub trim_end : Text → Text
trim_end [] = []
trim_end (c ∷ s) = let rest = trim_end s in if is_blank c && is_empty rest then [] else c ∷ rest

unfoldable pub trim : Text → Text
trim s = trim_end (trim_start s)

unfoldable pub keep_filled : List Text → List Text
keep_filled [] = []
keep_filled (operand ∷ operands) =
    let rest = keep_filled operands in if is_empty operand then rest else operand ∷ rest

unfoldable pub parse : Text → AssemblyInstruction
parse line =
    let s = skip_spaces line in
    record {
      instruction_name = word s;
      operands = keep_filled (map trim (split_commas (after_word s)));
    }

spaced_line : parse (codes " add  x1 ,, x2,\tx3 ") ≡ record {
  instruction_name = codes "add";
  operands = codes "x1" ∷ codes "x2" ∷ codes "x3" ∷ [];
}
unfolding parse word keep_filled skip_spaces split_commas is_space after_word is_empty trim trim_end
    trim_start is_blank
spaced_line = refl
