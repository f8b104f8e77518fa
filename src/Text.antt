-- ===== src/Text.antt =====
-- Text as a list of bytes, and what the program takes from the C and C++ libraries to read and
-- write it: number formatting, `atoi`, white space, C strings.
pub mod Numbers
pub mod Space
pub mod Holds
pub mod Lines
pub mod OneLine
pub mod Trim
mod Tests
use Prim.Native.Char.{code}
use Prim.Native.String.{String}
use cphf.Base.{
  ℕ, zero, suc, ◌+◌, ◌-◌, ◌*◌, ◌/◌, ◌%◌, ◌^◌, ◌≡◌, refl, Bool, true, false, ◌&&◌, ◌||◌, List, [],
  ◌∷◌, ◌++◌, Option, none, some, ltb, leb, ◌==◌, if◌then◌else◌, length, replicate, arith,
}

abbrev pub Text : Type 0
Text = List ℕ

-- The bytes of an ASCII literal.
abbrev pub codes : String → Text
codes String.[] = []
codes (String.◌∷◌ c s) = code c ∷ codes s

-- Equality of texts, `std::string::operator==`.
unfoldable pub same : Text → Text → Bool
same [] [] = true
same [] (d ∷ t) = false
same (c ∷ s) [] = false
same (c ∷ s) (d ∷ t) = c == d && same s t

-- Does the text hold the byte? (`std::string::find(char, 0) != npos`)
unfoldable pub holds : Text → ℕ → Bool
holds [] c = false
holds (d ∷ s) c = d == c || holds s c

unfoldable pub begins : Text → Text → Bool
begins s [] = true
begins [] (d ∷ t) = false
begins (c ∷ s) (d ∷ t) = c == d && begins s t

-- `s.find(t, 0) != npos` for a text `t`.
unfoldable pub contains : Text → Text → Bool
unfolding begins
contains [] t = begins [] t
contains (c ∷ s) t = begins (c ∷ s) t || contains s t

-- The text that a C function sees: it ends at the first NUL.
unfoldable pub c_str : Text → Text
c_str [] = []
c_str (c ∷ s) = if c == 0 then [] else c ∷ c_str s

-- `isspace` in the C locale: tab to carriage return, and blank.
abbrev pub is_space : ℕ → Bool
is_space c = (leb 9 c && leb c 13) || c == b' '

abbrev pub is_digit : ℕ → Bool
is_digit c = leb b'0' c && leb c b'9'

-- `printf("%-<width>s")`: padded with blanks on the right.
unfoldable pub pad_right : ℕ → Text → Text
pad_right width s = s ++ replicate (width - length s) b' '

-- The digit of a number below 16.
abbrev pub digit : ℕ → ℕ
digit d = if ltb d 10 then b'0' + d else b'a' + (d - 10)

-- The digits of a number to a base, before those of `out`. The fuel bounds their number.
unfoldable pub digits : ℕ → ℕ → ℕ → Text → Text
digits base zero n out = out
digits base (suc fuel) n out =
    let more = digits base fuel (n / base) (digit (n % base) ∷ out) in
    if ltb n base then digit n ∷ out else more

-- `<<` of an unsigned number.
unfoldable pub decimal : ℕ → Text
unfolding digits
decimal n = digits 10 (suc n) n []

-- `<<` of an unsigned number under `hex` and `showbase`: zero has no prefix.
unfoldable pub hexadecimal : ℕ → Text
unfolding digits
hexadecimal n = if n == 0 then codes "0" else b'0' ∷ b'x' ∷ digits 16 (suc n) n []

-- The number that a run of decimal digits adds to `n`, and the text behind it.
unfoldable pub read_digits : ℕ → Text → ℕ × Text
read_digits n [] = (n, [])
read_digits n (c ∷ s) =
    let more = read_digits (n * 10 + (c - b'0')) s in if is_digit c then more else (n, c ∷ s)

-- The bit pattern of `± n` as an `int`; out of range `atoi` is undefined.
abbrev int_of : Bool → ℕ → Option ℕ
int_of false n = if ltb n (2 ^ 31) then some n else none
int_of true n = if leb n (2 ^ 31) then some ((2 ^ 32 - n) % 2 ^ 32) else none

abbrev unsigned_part : Text → Text
unsigned_part [] = []
unsigned_part (c ∷ s) = if c == b'-' || c == b'+' then s else c ∷ s

abbrev is_negative : Text → Bool
is_negative [] = false
is_negative (c ∷ s) = c == b'-'

unfoldable pub skip_space : Text → Text
skip_space [] = []
skip_space (c ∷ s) = let rest = skip_space s in if is_space c then rest else c ∷ s

-- `atoi`: white space, a sign, digits; 0 where there is no digit.
unfoldable pub atoi : Text → Option ℕ
unfolding skip_space read_digits
atoi s = let t = skip_space s in int_of (is_negative t) ((read_digits 0 (unsigned_part t)).0)
