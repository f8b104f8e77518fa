-- ===== src/Text/Numbers.antt =====
-- Numbers are read back from their decimal digits.
use native.Mathlib.Nat.{pow-suc}
use cphf.Base.{
  ℕ, zero, suc, ◌+◌, ◌-◌, ◌*◌, ◌/◌, ◌%◌, ◌^◌, ◌≤◌, ◌<◌, ◌≡◌, refl, true, false, [], ◌∷◌, ◌++◌, some,
  All, length, replicate, arith, ◌∙◌,
}
use cphf.Text.{
  Text, is_digit, digit, digits, decimal, read_digits, atoi, skip_space, unsigned_part, is_negative,
  c_str,
}

abbrev pub IsDigits : Text → Type 0
IsDigits = All (λ c. is_digit c ≡ true)

digit_of : (d : ℕ) → d < 10 → (is_digit (digit d) ≡ true) × (digit d - b'0' ≡ d)
digit_of d h = ground arith

read_digit :
    (m d : ℕ) (s : Text) → d < 10 → read_digits m (digit d ∷ s) ≡ read_digits (m * 10 + d) s
unfolding read_digits
read_digit m d s h = rw ((digit_of d h).0, (digit_of d h).1)

read_digits-digits :
    (fuel n : ℕ) (out : Text) → n < fuel → read_digits 0 (digits 10 fuel n out) ≡ read_digits n out
unfolding digits
read_digits-digits zero n out h = elim h [ ]
read_digits-digits (suc fuel) n out h = ground (
  arith,
  read_digit 0 n out,
  read_digit (n / 10) (n % 10) out,
  read_digits-digits fuel (n / 10) (digit (n % 10) ∷ out),
)

digits-append :
    (fuel n : ℕ) (out rest : Text) → digits 10 fuel n out ++ rest ≡ digits 10 fuel n (out ++ rest)
unfolding digits
digits-append zero n out rest = refl
digits-append (suc fuel) n out rest =
    ground (arith, digits-append fuel (n / 10) (digit (n % 10) ∷ out) rest)

-- A text that does not go on with a digit.
abbrev pub IsStop : Text → Type 0
IsStop [] = Unit
IsStop (c ∷ s) = is_digit c ≡ false

read_digits-IsStop : (n : ℕ) (s : Text) → IsStop s → read_digits n s ≡ (n, s)
unfolding read_digits
read_digits-IsStop n [] h = refl
read_digits-IsStop n (c ∷ s) h = rw h

-- The digits of a number before other text, read back.
pub read_digits-decimal_append :
    (n : ℕ) (rest : Text) → IsStop rest → read_digits 0 (decimal n ++ rest) ≡ (n, rest)
unfolding decimal
read_digits-decimal_append n rest h =
    rw (digits-append (suc n) n [] rest)
      (read_digits-digits (suc n) n rest (omega arith) ∙ read_digits-IsStop n rest h)

-- Zeros in front do not count.
pub read_digits_zeros : (k : ℕ) (s : Text) → read_digits 0 (replicate k b'0' ++ s) ≡ read_digits 0 s
unfolding read_digits
read_digits_zeros zero s = refl
read_digits_zeros (suc k) s = read_digits_zeros k s

-- The digits of a number, read back.
pub read_digits-decimal : (n : ℕ) → (read_digits 0 (decimal n)) ≡ (n, [])
unfolding decimal
read_digits-decimal n = read_digits-digits (suc n) n [] (omega arith) ∙ (unfold read_digits in refl)

digits-IsDigits :
    (fuel n : ℕ) (out : Text) → IsDigits out → n < fuel → IsDigits (digits 10 fuel n out)
unfolding digits
digits-IsDigits zero n out h k = h
digits-IsDigits (suc fuel) n out h k =
    ground
      (arith, digit_of n, digit_of (n % 10), digits-IsDigits fuel (n / 10) (digit (n % 10) ∷ out))

pub decimal-IsDigits : (n : ℕ) → IsDigits (decimal n)
unfolding decimal
decimal-IsDigits n = digits-IsDigits (suc n) n [] tt (omega arith)

length-digits :
    (k fuel n : ℕ) (out : Text)
    → n < 10 ^ suc k
    → length (digits 10 fuel n out) ≤ suc k + length out
unfolding digits
length-digits k zero n out h = omega arith
length-digits zero (suc fuel) n out h = ground arith
length-digits (suc k) (suc fuel) n out h =
    ground (arith, pow-suc 10 (suc k), length-digits k fuel (n / 10) (digit (n % 10) ∷ out))

-- A number below 10^(k+1) has at most k+1 digits.
pub length-decimal : (k n : ℕ) → n < 10 ^ suc k → length (decimal n) ≤ suc k
unfolding decimal
length-decimal k n h = omega (arith, length-digits k (suc n) n [] h)

digits_longer : (fuel n : ℕ) (out : Text) → n < fuel → length out < length (digits 10 fuel n out)
unfolding digits
digits_longer zero n out h = elim h [ ]
digits_longer (suc fuel) n out h =
    ground (arith, digits_longer fuel (n / 10) (digit (n % 10) ∷ out))

-- A number has a digit.
pub length-decimal_pos : (n : ℕ) → 0 < length (decimal n)
unfolding decimal
length-decimal_pos n = digits_longer (suc n) n [] (omega arith)

-- Digits are neither white space nor signs, nor NUL.
skip_space-digits : (s : Text) → IsDigits s → skip_space s ≡ s
unfolding skip_space
skip_space-digits [] h = refl
skip_space-digits (c ∷ s) h = ground arith

unsigned_part-digits : (s : Text) → IsDigits s → (unsigned_part s ≡ s) × (is_negative s ≡ false)
unsigned_part-digits [] h = (refl, refl)
unsigned_part-digits (c ∷ s) h = ground arith

pub c_str-digits : (s : Text) → IsDigits s → c_str s ≡ s
unfolding c_str
c_str-digits [] h = refl
c_str-digits (c ∷ s) h = ground (arith, c_str-digits s h.1)

-- `atoi` undoes the formatting of every number that an `int` holds.
pub atoi-decimal : (n : ℕ) → n < 2 ^ 31 → atoi (decimal n) ≡ some n
unfolding atoi
atoi-decimal n h =
    rw
      (
        skip_space-digits _ (decimal-IsDigits n),
        (unsigned_part-digits _ (decimal-IsDigits n)).0,
        (unsigned_part-digits _ (decimal-IsDigits n)).1,
        read_digits-decimal n,
      )
      (ground arith)
