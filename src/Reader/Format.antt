-- ===== src/Reader/Format.antt =====
-- What is shown of a number: `format` and `readETime` of src/CPHFReader.cpp.

use cphf.Base.{
  ℕ, ◌+◌, ◌*◌, ◌-◌, ◌/◌, ◌%◌, ◌^◌, ◌≤◌, ◌<◌, ◌≡◌, refl, ◌∙◌, true, [], ◌∷◌, ◌++◌, ltb, length,
  take_all, length-append, replicate, arith, append-nil, append_assoc, drop, length-replicate,
}
use cphf.Base.Int.{pos}
use cphf.Text.{Text, codes, decimal, read_digits}
use cphf.Text.Numbers.{
  IsStop, read_digits-decimal, read_digits-decimal_append, read_digits_zeros, length-decimal,
}
use cphf.Env.{Env}
use cphf.Reader.{format, print_int, print_two, read_etime}

-- What is shown reads back as the number modulo 2^32: exactly the number where it has 32 bits, and
-- a smaller one where it has more, whatever width the member of the source has.
pub read_digits-format : (n : ℕ) → read_digits 0 (format n) ≡ (n % 2 ^ 32, [])
unfolding format
read_digits-format n = read_digits-decimal (n % 2 ^ 32)

length-print_two : (n : ℕ) → n < 100 → length (print_two (pos n)) ≡ 2
unfolding print_two
length-print_two n h = omega (
  arith,
  length-append (replicate (2 - length (decimal n)) b'0') (decimal n),
  length-replicate {A = ℕ} (2 - length (decimal n)) b'0',
  length-decimal 1 n h,
)

-- Reading such a time back: hours, minutes and seconds.
unfoldable pub seconds_of : Text → ℕ
seconds_of s =
    let (hours, s₁) = read_digits 0 s in
    let (minutes, s₂) = read_digits 0 (drop 1 s₁) in
    let (seconds, s₃) = read_digits 0 (drop 1 s₂) in hours * 3600 + minutes * 60 + seconds

abbrev clock : ℕ → ℕ → ℕ → Text
clock hours minutes seconds =
    print_int (pos hours) ++ b':' ∷ (print_two (pos minutes) ++ b':' ∷ print_two (pos seconds))

length-clock :
    (hours minutes seconds : ℕ)
    → hours < 10 ^ 6
    → minutes < 100
    → seconds < 100
    → length (clock hours minutes seconds) ≤ 12
unfolding print_int
length-clock hours minutes seconds h m s = omega (
  arith,
  length-append (decimal hours)
      (b':' ∷ (print_two (pos minutes) ++ b':' ∷ print_two (pos seconds))),
  length-append (print_two (pos minutes)) (b':' ∷ print_two (pos seconds)),
  length-decimal 5 hours h,
  length-print_two minutes m,
  length-print_two seconds s,
)

read_digits-print_two :
    (n : ℕ) (rest : Text) → IsStop rest → read_digits 0 (print_two (pos n) ++ rest) ≡ (n, rest)
unfolding print_two
read_digits-print_two n rest h =
    rw (append_assoc (replicate (2 - length (decimal n)) b'0') (decimal n) rest) (
      read_digits_zeros (2 - length (decimal n)) (decimal n ++ rest)
      ∙ read_digits-decimal_append n rest h)

seconds_of-clock :
    (hours minutes seconds : ℕ)
    → seconds_of (clock hours minutes seconds) ≡ hours * 3600 + minutes * 60 + seconds
unfolding seconds_of print_int
seconds_of-clock hours minutes seconds =
    rw
      (
        read_digits-decimal_append hours _ refl,
        read_digits-print_two minutes _ refl,
        ← append-nil (print_two (pos seconds)),
        read_digits-print_two seconds [] tt,
      )
      refl

clock_shape :
    (hours minutes seconds : ℕ)
    → print_int (pos hours)
        ++ codes ":"
        ++ print_two (pos minutes)
        ++ codes ":"
        ++ print_two (pos seconds)
      ≡ clock hours minutes seconds
clock_shape hours minutes seconds = simp append_assoc

-- A CPU time that fits an `int` in seconds is shown whole, never cut at the end of the buffer, and
-- reads back as the number of seconds.
pub seconds_of-read_etime :
    (env : Env) (t : ℕ)
    → t < 2 ^ 63
    → t / env.clock_ticks < 2 ^ 31
    → seconds_of (read_etime env t) ≡ t / env.clock_ticks
unfolding read_etime
seconds_of-read_etime env t h k =
    let sec = t / env.clock_ticks in
    let e₁ : ltb t (2 ^ 63) ≡ true = ground arith in
    let e₂ : sec % 2 ^ 32 ≡ sec = omega arith in
    let e₃ : ltb sec (2 ^ 31) ≡ true = ground arith in
    rw (e₁, e₂, e₃)
      (rw (clock_shape (sec / 3600) (sec % 3600 / 60) (sec % 3600 % 60)) (
        rw
          (take_all 12 (clock (sec / 3600) (sec % 3600 / 60) (sec % 3600 % 60))
            (length-clock _ _ _ (omega arith) (omega arith) (omega arith)))
          (seconds_of-clock (sec / 3600) (sec % 3600 / 60) (sec % 3600 % 60) ∙ omega arith)))
