-- ===== src/Reader/OneLine.antt =====
-- The values that the functions of src/CPHFReader.cpp make have no newline, where what the system
-- gives has none.
use cphf.Base.{
  ℕ, suc, ◌-◌, ◌≢◌, Bool, true, false, ◌++◌, Option, none, some, replicate, length, if◌then◌else◌,
  arith, zero,
}
use cphf.Base.Int.{ℤ, pos, negsuc}
use cphf.Text.{Text, codes, decimal}
use cphf.Text.Lines.{IsLine}
use cphf.Text.OneLine.{IsLine-append, IsLine-take, decimal-IsLine}
use cphf.Env.{Env}
use cphf.Env.Lines.{GivesLines, OfOption}
use cphf.Reader.{read_time, print_int, print_two, read_etime, format, read_perms}

pub format-IsLine : (n : ℕ) → IsLine (format n)
unfolding format
format-IsLine n = decimal-IsLine _

time_text-IsLine :
    (o : Option Text)
    → OfOption IsLine o
    → IsLine (elim o [ none ↦ codes "ERROR READING TIME" | some text ↦ text ])
time_text-IsLine none h = ground arith
time_text-IsLine (some text) h = h

pub read_time-IsLine :
    (env : Env) → GivesLines env → (t : ℕ) (f : Text) → IsLine (read_time env t f)
unfolding read_time
read_time-IsLine env gives t f = time_text-IsLine (env.format_time f t) (gives.times f t)

print_int-IsLine : (i : ℤ) → IsLine (print_int i)
unfolding print_int
print_int-IsLine (pos n) = decimal-IsLine n
print_int-IsLine (negsuc n) = (omega arith, decimal-IsLine (suc n))

zeros-IsLine : (n : ℕ) → IsLine (replicate n b'0')
zeros-IsLine zero = tt
zeros-IsLine (suc n) = (omega arith, zeros-IsLine n)

print_two-IsLine : (i : ℤ) → IsLine (print_two i)
unfolding print_two
print_two-IsLine (pos n) =
    IsLine-append (replicate (2 - length (decimal n)) b'0') (decimal n) (zeros-IsLine _)
      (decimal-IsLine n)
print_two-IsLine (negsuc n) = (omega arith, decimal-IsLine (suc n))

clock-IsLine :
    (h m s : ℤ) → IsLine (print_int h ++ codes ":" ++ print_two m ++ codes ":" ++ print_two s)
clock-IsLine h m s =
    IsLine-append (print_int h ++ codes ":" ++ print_two m ++ codes ":") (print_two s)
      (IsLine-append (print_int h ++ codes ":" ++ print_two m) (codes ":")
        (IsLine-append (print_int h ++ codes ":") (print_two m)
          (IsLine-append (print_int h) (codes ":") (print_int-IsLine h) (omega arith, tt))
          (print_two-IsLine m))
        (omega arith, tt))
      (print_two-IsLine s)

pub read_etime-IsLine : (env : Env) (t : ℕ) → IsLine (read_etime env t)
unfolding read_etime
read_etime-IsLine env t = IsLine-take 12 _ (clock-IsLine _ _ _)

letter : (b : Bool) (c d : ℕ) → c ≢ b'\n' → d ≢ b'\n' → (if b then c else d) ≢ b'\n'
letter true c d h k = h
letter false c d h k = k

flag : (b : Bool) (c : ℕ) → c ≢ b'\n' → (if b then c else b'-') ≢ b'\n'
flag b c h = letter b c b'-' h (omega arith)

pub read_perms-IsLine : (mode : ℕ) → IsLine (read_perms mode)
unfolding read_perms
read_perms-IsLine mode = (
  flag _ b'd' (omega arith),
  (
    flag _ b'r' (omega arith),
    (
      flag _ b'w' (omega arith),
      (
        letter _ b's' _ (omega arith) (flag _ b'x' (omega arith)),
        (
          flag _ b'r' (omega arith),
          (
            flag _ b'w' (omega arith),
            (
              flag _ b'x' (omega arith),
              (
                flag _ b'r' (omega arith),
                (
                  flag _ b'w' (omega arith),
                  (letter _ b't' _ (omega arith) (flag _ b'x' (omega arith)), tt),
                ),
              ),
            ),
          ),
        ),
      ),
    ),
  ),
)
