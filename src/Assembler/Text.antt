-- ===== src/Assembler/Text.antt =====
-- The texts core/AssemblyCompiler.cpp reads, as lists of bytes, and what it takes from the
-- standard library of C++: `isspace`, `tolower`, `find`, `stoul`, `stol` and `stoi`, with a `long`
-- of 64 bits. `none` is an exception of theirs, and text after the digits is ignored.
use Prim.Native.Char.{code}
use Prim.Native.String.{String}
use riscv_sym.Base.{
  ℕ, suc, ◌+◌, ◌-◌, ◌*◌, ◌%◌, ◌^◌, ◌==◌, ltb, leb, if◌then◌else◌, Bool, true, false, Option, none,
  some, List, [], ◌∷◌, ◌&&◌, ◌||◌, ◌≡◌, refl,
}
use riscv_sym.Base.Int.{ℤ, pos, negsuc, neg_ℕ, lt_ℤ}

abbrev pub Text : Type 0
Text = List ℕ

abbrev pub codes : String → Text
codes String.[] = []
codes (String.◌∷◌ c s) = code c ∷ codes s

unfoldable pub is_empty : Text → Bool
is_empty [] = true
is_empty (c ∷ s) = false

unfoldable pub same_text : Text → Text → Bool
same_text [] [] = true
same_text [] (d ∷ t) = false
same_text (c ∷ s) [] = false
same_text (c ∷ s) (d ∷ t) = c == d && same_text s t

-- `isspace` of the "C" locale: a space, or one of \t \n \v \f \r.
unfoldable pub is_space : ℕ → Bool
is_space c = c == 32 || (leb 9 c && leb c 13)

unfoldable pub to_lower : ℕ → ℕ
to_lower c = if leb b'A' c && leb c b'Z' then c + 32 else c

unfoldable pub skip_spaces : Text → Text
skip_spaces [] = []
skip_spaces (c ∷ s) = let rest = skip_spaces s in if is_space c then rest else c ∷ s

-- `find`: the index of the first `c`.
unfoldable pub find : ℕ → Text → Option ℕ
find c [] = none
find c (d ∷ s) =
    let rest = find c s in
    if c == d then some 0 else elim rest [ some i ↦ some (suc i) | none ↦ none ]

-- The value of a digit; 36, which no base has, for any other byte.
unfoldable pub digit_value : ℕ → ℕ
digit_value c =
    if leb b'0' c && leb c b'9'
    then c - b'0'
    else if leb b'a' c && leb c b'z'
    then c - b'a' + 10
    else if leb b'A' c && leb c b'Z'
    then c - b'A' + 10
    else 36

unfoldable pub scan_digits : ℕ → Text → ℕ → ℕ
scan_digits base [] n = n
scan_digits base (c ∷ s) n =
    let rest = scan_digits base s (n * base + digit_value c) in
    if ltb (digit_value c) base then rest else n

-- At least one digit is needed.
unfoldable pub magnitude : ℕ → Text → Option ℕ
magnitude base [] = none
magnitude base (c ∷ s) =
    if ltb (digit_value c) base then some (scan_digits base s (digit_value c)) else none

unfoldable pub has_hex_prefix : Text → Bool
has_hex_prefix (c ∷ x ∷ d ∷ s) = c == b'0' && (x == b'x' || x == b'X') && ltb (digit_value d) 16
has_hex_prefix _ = false

unfoldable pub drop_two : Text → Text
drop_two (c ∷ d ∷ s) = s
drop_two s = s

unfoldable pub starts_with : ℕ → Text → Bool
starts_with d [] = false
starts_with d (c ∷ s) = c == d

unfoldable pub drop_one : Text → Text
drop_one [] = []
drop_one (c ∷ s) = s

-- Base 0 is C's notation: 0x for base 16, a leading 0 for base 8, or else base 10.
unfoldable pub unsigned_part : ℕ → Text → Option ℕ
unsigned_part base s =
    if base == 0
    then (if has_hex_prefix s
        then magnitude 16 (drop_two s)
        else if starts_with b'0' s
        then magnitude 8 s
        else magnitude 10 s)
    else magnitude base s

-- `true` is a minus sign.
unfoldable pub parse_number : ℕ → Text → Bool × Option ℕ
parse_number base text =
    let s = skip_spaces text in
    if starts_with b'-' s
    then (true, unsigned_part base (drop_one s))
    else if starts_with b'+' s
    then (false, unsigned_part base (drop_one s))
    else (false, unsigned_part base s)

-- The number wraps around behind a minus sign.
unfoldable pub to_unsigned_long : Bool × Option ℕ → Option ℕ
to_unsigned_long (negative, none) = none
to_unsigned_long (negative, some n) =
    if leb (2 ^ 64) n then none else some (if negative then (2 ^ 64 - n) % 2 ^ 64 else n)

unfoldable pub to_long : Bool × Option ℕ → Option ℤ
to_long (negative, none) = none
to_long (true, some n) = if ltb (2 ^ 63) n then none else some (neg_ℕ n)
to_long (false, some n) = if leb (2 ^ 63) n then none else some (pos n)

unfoldable pub stoul : Text → ℕ → Option ℕ
stoul text base = to_unsigned_long (parse_number base text)

unfoldable pub stol : Text → ℕ → Option ℤ
stol text base = to_long (parse_number base text)

-- `stoi` in base 10.
unfoldable pub stoi : Text → Option ℤ
stoi text = elim (stol text 10) [
  | some n ↦ if lt_ℤ n (negsuc (2 ^ 31 - 1)) || lt_ℤ (pos (2 ^ 31 - 1)) n then none else some n
  | none ↦ none
]

octal : stol (codes "010") 0 ≡ some (pos 8)
unfolding stol to_long parse_number starts_with skip_spaces is_space unsigned_part has_hex_prefix
    magnitude digit_value scan_digits
octal = refl

hexadecimal : stol (codes " -0x1Fg") 0 ≡ some (negsuc 30)
unfolding stol to_long parse_number starts_with skip_spaces is_space unsigned_part has_hex_prefix
    drop_one digit_value magnitude drop_two scan_digits
hexadecimal = refl

no_digits : stoul (codes "x1") 10 ≡ none
unfolding stoul to_unsigned_long parse_number starts_with skip_spaces is_space unsigned_part
    magnitude digit_value
no_digits = refl

wraps : stoul (codes "-1") 0 ≡ some (2 ^ 64 - 1)
unfolding stoul to_unsigned_long parse_number starts_with skip_spaces is_space unsigned_part
    has_hex_prefix drop_one magnitude digit_value scan_digits
wraps = refl
