-- ===== src/Proc/Stat/Values.antt =====
-- A directive of `fscanf`, as src/ProcReader.cpp uses it, on text that holds a value for it.
use Prim.Native.Nat.{min}
use cphf.Base.{
  ℕ, ◌-◌, ◌^◌, ◌<◌, ◌≤◌, ◌≡◌, refl, ap, ◌∙◌, Bool, true, false, [], ◌∷◌, ◌++◌, ◌==◌, arith, length,
  ltb,
}
use cphf.Text.Space.{skip_space_stays}
use cphf.Text.{Text, decimal, is_space, skip_space, read_digits}
use cphf.Text.Numbers.{
  IsDigits, IsStop, decimal-IsDigits, length-decimal_pos, read_digits-decimal_append,
}
use cphf.Reader.Device.Words.{IsWord, take_word-append}
use cphf.Proc.Stat.{
  ProcInfo, Directive, skip, skip_word, character, int, long, scan_step, scan_number,
  scan_magnitude, signed_pattern, pass, store, int_pattern, long_pattern, stepped, unsigned_long,
  unsigned_pattern, scanned,
}

-- What a directive reads: a number, below 0 or not, a word, or a character.
abbrev pub Value : Directive → Type 0
Value skip = Bool × ℕ
Value skip_word = Text
Value (character set) = ℕ
Value (int set) = Bool × ℕ
Value (long set) = Bool × ℕ
Value (unsigned_long set) = Bool × ℕ

abbrev pub print_number : Bool → ℕ → Text
print_number true n = b'-' ∷ decimal n
print_number false n = decimal n

unfoldable pub print_value : (d : Directive) → Value d → Text
print_value skip (negative, n) = print_number negative n
print_value skip_word w = w
print_value (character set) c = c ∷ []
print_value (int set) (negative, n) = print_number negative n
print_value (long set) (negative, n) = print_number negative n
print_value (unsigned_long set) (negative, n) = print_number negative n

-- A number fits a signed type, of which the least value is that far below 0.
abbrev pub Fits : ℕ → Bool × ℕ → Type 0
Fits half (true, n) = n ≤ half
Fits half (false, n) = n < half

abbrev pub IsValue : (d : Directive) → Value d → Type 0
IsValue skip v = v.1 < 2 ^ 64
IsValue skip_word w = IsWord w
IsValue (character set) c = is_space c ≡ false
IsValue (int set) v = Fits (2 ^ 31) v
IsValue (long set) v = Fits (2 ^ 63) v
IsValue (unsigned_long set) v = v.1 < 2 ^ 64

-- The record that a value is stored in, and whether it counts.
unfoldable pub stored : (d : Directive) → Value d → ProcInfo → ProcInfo
stored skip v info = info
stored skip_word w info = info
stored (character set) c info = set c info
stored (int set) (negative, n) info = set (signed_pattern 32 negative n) info
stored (long set) (negative, n) info = set (signed_pattern 64 negative n) info
stored (unsigned_long set) (negative, n) info = set (signed_pattern 64 negative n) info

unfoldable pub counted : Directive → ℕ
counted skip = 0
counted skip_word = 0
counted (character set) = 1
counted (int set) = 1
counted (long set) = 1
counted (unsigned_long set) = 1

-- White space comes next.
abbrev pub IsEnd : Text → Type 0
IsEnd [] = ⊥
IsEnd (c ∷ s) = is_space c ≡ true

end-IsStop : (s : Text) → IsEnd s → IsStop s
end-IsStop [] h = tt
end-IsStop (c ∷ s) h = ground (arith, h)

scan_magnitude-digits :
    (negative : Bool) (t rest : Text) (n : ℕ)
    → IsDigits t
    → 0 < length t
    → read_digits 0 (t ++ rest) ≡ (n, rest)
    → scan_magnitude negative (t ++ rest) ≡ scanned negative n rest
unfolding scan_magnitude
scan_magnitude-digits negative [] rest n h p e = absurd (omega arith)
scan_magnitude-digits negative (c ∷ t) rest n h p e = rw (scan_magnitude, e, h.0)

scan_magnitude-decimal :
    (negative : Bool) (n : ℕ) (rest : Text)
    → IsEnd rest
    → scan_magnitude negative (decimal n ++ rest) ≡ scanned negative n rest
scan_magnitude-decimal negative n rest end =
    scan_magnitude-digits negative (decimal n) rest n (decimal-IsDigits n) (length-decimal_pos n)
      (read_digits-decimal_append n rest (end-IsStop rest end))

unsigned :
    (t rest : Text)
    → IsDigits t
    → 0 < length t
    → scan_number (t ++ rest) ≡ scan_magnitude false (t ++ rest)
unfolding scan_number
unsigned [] rest h p = absurd (omega arith)
unsigned (c ∷ t) rest h p =
    let minus : (c == b'-') ≡ false = ground (arith, h.0) in
    let plus : (c == b'+') ≡ false = ground (arith, h.0) in rw (scan_number, minus, plus)

scan_number-print_number :
    (negative : Bool) (n : ℕ) (rest : Text)
    → IsEnd rest
    → scan_number (print_number negative n ++ rest) ≡ scanned negative n rest
unfolding scan_number
scan_number-print_number true n rest end = scan_magnitude-decimal true n rest end
scan_number-print_number false n rest end =
    unsigned (decimal n) rest (decimal-IsDigits n) (length-decimal_pos n)
    ∙ scan_magnitude-decimal false n rest end

-- A number that fits its type is stored as it is.
int_pattern-Fits :
    (negative : Bool) (n : ℕ)
    → Fits (2 ^ 31) (negative, n)
    → int_pattern negative n ≡ signed_pattern 32 negative n
unfolding int_pattern
int_pattern-Fits true n h = let same : min n (2 ^ 63) ≡ n = omega arith in rw same
int_pattern-Fits false n h = let same : min n (2 ^ 63 - 1) ≡ n = omega arith in rw same

long_pattern-Fits :
    (negative : Bool) (n : ℕ)
    → Fits (2 ^ 63) (negative, n)
    → long_pattern negative n ≡ signed_pattern 64 negative n
unfolding long_pattern
long_pattern-Fits true n h = let same : min n (2 ^ 63) ≡ n = omega arith in rw same
long_pattern-Fits false n h = let same : min n (2 ^ 63 - 1) ≡ n = omega arith in rw same

unsigned_pattern-fits :
    (negative : Bool) (n : ℕ)
    → n < 2 ^ 64
    → unsigned_pattern negative n ≡ signed_pattern 64 negative n
unfolding unsigned_pattern
unsigned_pattern-fits negative n h = let fits : ltb n (2 ^ 64) ≡ true = ground arith in rw fits

store-print_number :
    (pattern_of : Bool → ℕ → ℕ) (set : ℕ → ProcInfo → ProcInfo) (negative : Bool) (n v : ℕ)
    (rest : Text) (info : ProcInfo)
    → IsEnd rest
    → pattern_of negative n ≡ v
    → store pattern_of set info (scan_number (print_number negative n ++ rest))
      ≡ stepped (set v info) 1 rest
store-print_number pattern_of set negative n v rest info end e =
    ap (store pattern_of set info) (scan_number-print_number negative n rest end)
    ∙ ap (λ v. stepped (set v info) 1 rest) e

pass_word-append :
    (w rest : Text) (info : ProcInfo)
    → IsWord w
    → IsEnd rest
    → scan_step skip_word (w ++ rest) info ≡ stepped info 0 rest
unfolding scan_step
pass_word-append [] rest info h end = absurd (omega arith)
pass_word-append (c ∷ w) [] info h end = elim end [ ]
pass_word-append (c ∷ w) (d ∷ rest) info h end =
    ap (λ (x : Text × Text). stepped info 0 x.1) (take_word-append (c ∷ w) d rest h.1 end)

-- A value is read whole, and goes where the directive says.
pub scan_step-print_value :
    (d : Directive) (v : Value d) (rest : Text) (info : ProcInfo)
    → IsValue d v
    → IsEnd rest
    → scan_step d (print_value d v ++ rest) info ≡ stepped (stored d v info) (counted d) rest
unfolding scan_step print_value stored counted
scan_step-print_value skip (negative, n) rest info h end =
    ap (pass info) (scan_number-print_number negative n rest end)
scan_step-print_value skip_word w rest info h end = pass_word-append w rest info h end
scan_step-print_value (character set) c rest info h end = refl
scan_step-print_value (int set) (negative, n) rest info h end =
    store-print_number int_pattern set negative n (signed_pattern 32 negative n) rest info end
      (int_pattern-Fits negative n h)
scan_step-print_value (long set) (negative, n) rest info h end =
    store-print_number long_pattern set negative n (signed_pattern 64 negative n) rest info end
      (long_pattern-Fits negative n h)
scan_step-print_value (unsigned_long set) (negative, n) rest info h end =
    store-print_number unsigned_pattern set negative n (signed_pattern 64 negative n) rest info end
      (unsigned_pattern-fits negative n h)

number_stays : (t rest : Text) → IsDigits t → 0 < length t → skip_space (t ++ rest) ≡ t ++ rest
number_stays [] rest h p = absurd (omega arith)
number_stays (c ∷ t) rest h p = skip_space_stays c (t ++ rest) (ground (arith, h.0))

word_stays : (w rest : Text) → IsWord w → skip_space (w ++ rest) ≡ w ++ rest
word_stays [] rest h = absurd (omega arith)
word_stays (c ∷ w) rest h = skip_space_stays c (w ++ rest) h.1.0

print_number_stays :
    (negative : Bool) (n : ℕ) (rest : Text)
    → skip_space (print_number negative n ++ rest) ≡ print_number negative n ++ rest
print_number_stays true n rest = skip_space_stays b'-' (decimal n ++ rest) refl
print_number_stays false n rest =
    number_stays (decimal n) rest (decimal-IsDigits n) (length-decimal_pos n)

-- No value starts with white space.
pub skip_space-print_value :
    (d : Directive) (v : Value d) (rest : Text)
    → IsValue d v
    → skip_space (print_value d v ++ rest) ≡ print_value d v ++ rest
unfolding print_value
skip_space-print_value skip (negative, n) rest h = print_number_stays negative n rest
skip_space-print_value skip_word w rest h = word_stays w rest h
skip_space-print_value (character set) c rest h = skip_space_stays c rest h
skip_space-print_value (int set) (negative, n) rest h = print_number_stays negative n rest
skip_space-print_value (long set) (negative, n) rest h = print_number_stays negative n rest
skip_space-print_value (unsigned_long set) (negative, n) rest h = print_number_stays negative n rest
