-- ===== src/Reader/Device/Words.antt =====
-- Extraction from a stream, on text that holds what is looked for.
use cphf.Base.{
  ℕ, ◌^◌, ◌<◌, ◌≡◌, ◌≢◌, refl, ap, true, false, [], ◌∷◌, ◌++◌, some, ltb, ◌==◌, arith, length, All,
}
use cphf.Text.Space.{skip_space_stays, skip_space_skips, blanks, skip_space-blanks}
use cphf.Text.{Text, decimal, is_space, skip_space, read_digits}
use cphf.Text.Numbers.{
  IsDigits, IsStop, decimal-IsDigits, length-decimal_pos, read_digits-decimal_append,
}
use cphf.Reader.Device.{
  take_word, read_word, read_char, read_magnitude, read_signed, read_number, read_minors,
}

abbrev pub IsVisible : Text → Type 0
IsVisible = All (λ c. is_space c ≡ false)

abbrev pub IsWord : Text → Type 0
IsWord w = (0 < length w) × IsVisible w

-- A kind is never so short, nor starts so, that it would be taken for a part of a range.
abbrev pub IsKind : Text → Type 0
IsKind [] = ⊥
IsKind (c ∷ w) = (c ≢ b'-') × (is_space c ≡ false) × IsWord w

pub take_word-append :
    (w : Text) (c : ℕ) (rest : Text)
    → IsVisible w
    → is_space c ≡ true
    → take_word (w ++ c ∷ rest) ≡ (w, c ∷ rest)
unfolding take_word
take_word-append [] c rest h s = rw s
take_word-append (d ∷ w) c rest h s = rw (take_word-append w c rest h.1 s, h.0)

pub read_word-append :
    (w : Text) (c : ℕ) (rest : Text)
    → IsWord w
    → is_space c ≡ true
    → read_word (w ++ c ∷ rest) ≡ some (w, c ∷ rest)
unfolding read_word skip_space
read_word-append [] c rest h s = absurd (omega arith)
read_word-append (d ∷ w) c rest h s =
    rw (read_word, skip_space_stays d (w ++ c ∷ rest) h.1.0)
      (ap some (take_word-append (d ∷ w) c rest h.1 s))

-- White space before a value is skipped.
pub read_word-space : (c : ℕ) (s : Text) → is_space c ≡ true → read_word (c ∷ s) ≡ read_word s
unfolding read_word skip_space
read_word-space c s h = rw (read_word, skip_space_skips c s h)

pub read_word-blanks : (more : ℕ) (s : Text) → read_word (blanks more s) ≡ read_word s
unfolding read_word
read_word-blanks more s = rw (read_word, skip_space-blanks more s)

read_number-blanks : (more : ℕ) (s : Text) → read_number (blanks more s) ≡ read_number s
unfolding read_number
read_number-blanks more s = rw (read_number, skip_space-blanks more s)

read_number-digits :
    (t rest : Text) (n : ℕ)
    → IsDigits t
    → 0 < length t
    → read_digits 0 (t ++ rest) ≡ (n, rest)
    → n < 2 ^ 64
    → read_number (t ++ rest) ≡ some (n, rest)
unfolding read_number read_signed read_magnitude skip_space
read_number-digits [] rest n h p e k = absurd (omega arith)
read_number-digits (c ∷ t) rest n h p e k =
    let space : is_space c ≡ false = ground (arith, h.0) in
    let minus : (c == b'-') ≡ false = ground (arith, h.0) in
    let plus : (c == b'+') ≡ false = ground (arith, h.0) in
    let fits : ltb n (2 ^ 64) ≡ true = ground arith in
    rw (
      read_number,
      skip_space_stays c (t ++ rest) space,
      read_signed,
      minus,
      plus,
      read_magnitude,
      e,
      h.0,
      fits,
    )

read_number-decimal :
    (n : ℕ) (rest : Text)
    → n < 2 ^ 64
    → IsStop rest
    → read_number (decimal n ++ rest) ≡ some (n, rest)
read_number-decimal n rest k stop =
    read_number-digits (decimal n) rest n (decimal-IsDigits n) (length-decimal_pos n)
      (read_digits-decimal_append n rest stop) k

read_char_stays : (c : ℕ) (s : Text) → is_space c ≡ false → read_char (c ∷ s) ≡ some (c, s)
unfolding read_char
read_char_stays c s h = rw (read_char, skip_space_stays c s h)

read_char-blanks : (more : ℕ) (s : Text) → read_char (blanks more s) ≡ read_char s
unfolding read_char
read_char-blanks more s = rw (read_char, skip_space-blanks more s)

-- The numbers of a line, with one minor number and with a range of them, and with any blanks.
pub read_minors_one :
    (label kind rest : Text) (a b c major n : ℕ)
    → major < 2 ^ 64
    → n < 2 ^ 64
    → IsKind kind
    → read_minors label
        (blanks a (decimal major ++ blanks b (decimal n ++ blanks c (kind ++ b'\n' ∷ rest))))
      ≡ some (
        record { label = label; major = major; minors = record { min = n; max = n } },
        b'\n' ∷ rest,
      )
unfolding read_minors
read_minors_one label [] rest a b c major n h k g = elim g [ ]
read_minors_one label (d ∷ kind) rest a b c major n h k g =
    let minus : (d == b'-') ≡ false = ground (arith, g.0) in
    let end = d ∷ kind ++ b'\n' ∷ rest in
    rw (
      read_minors,
      read_number-blanks a (decimal major ++ blanks b (decimal n ++ blanks c end)),
      read_number-decimal major (blanks b (decimal n ++ blanks c end)) h refl,
      read_number-blanks b (decimal n ++ blanks c end),
      read_number-decimal n (blanks c end) k refl,
      read_char-blanks c end,
      read_char_stays d (kind ++ b'\n' ∷ rest) g.1,
      minus,
      read_word-append kind b'\n' rest g.2 refl,
    )

pub kind-IsWord : (kind : Text) → IsKind kind → IsWord kind
kind-IsWord [] g = elim g [ ]
kind-IsWord (c ∷ kind) g = (omega arith, (g.1, g.2.1))

pub read_minors_range :
    (label kind rest : Text) (a b c major min max : ℕ)
    → major < 2 ^ 64
    → min < 2 ^ 64
    → max < 2 ^ 64
    → IsWord kind
    → read_minors label (
        blanks a (
          decimal major
          ++ blanks b (decimal min ++ b'-' ∷ (decimal max ++ blanks c (kind ++ b'\n' ∷ rest)))))
      ≡ some (
        record { label = label; major = major; minors = record { min = min; max = max } },
        b'\n' ∷ rest,
      )
unfolding read_minors
read_minors_range label kind rest a b c major min max h k m g =
    let after = blanks c (kind ++ b'\n' ∷ rest) in
    let range = decimal min ++ b'-' ∷ (decimal max ++ after) in
    rw (
      read_minors,
      read_number-blanks a (decimal major ++ blanks b range),
      read_number-decimal major (blanks b range) h refl,
      read_number-blanks b range,
      read_number-decimal min (b'-' ∷ (decimal max ++ after)) k refl,
      read_number-decimal max after m refl,
      read_word-blanks c (kind ++ b'\n' ∷ rest),
      read_word-append kind b'\n' rest g refl,
    )
