-- ===== src/Text/OneLine.antt =====
-- Texts of one line: those that numbers are printed as.
use cphf.Base.{
  ℕ, zero, suc, ◌/◌, ◌%◌, ◌≢◌, Bool, true, false, [], ◌∷◌, ◌++◌, ltb, ◌==◌, if◌then◌else◌, take,
  drop, All-append, arith,
}
use cphf.Text.{Text, digit, digits, decimal, hexadecimal}
use cphf.Text.Lines.{IsLine}

pub IsLine-append : (s t : Text) → IsLine s → IsLine t → IsLine (s ++ t)
IsLine-append = All-append (λ c. c ≢ b'\n')

pub IsLine-if : (b : Bool) (s t : Text) → IsLine s → IsLine t → IsLine (if b then s else t)
IsLine-if true s t h k = h
IsLine-if false s t h k = k

pub IsLine-take : (n : ℕ) (s : Text) → IsLine s → IsLine (take n s)
IsLine-take zero s h = tt
IsLine-take (suc n) [] h = tt
IsLine-take (suc n) (c ∷ s) h = (h.0, IsLine-take n s h.1)

pub IsLine-drop : (n : ℕ) (s : Text) → IsLine s → IsLine (drop n s)
IsLine-drop zero s h = h
IsLine-drop (suc n) [] h = tt
IsLine-drop (suc n) (c ∷ s) h = IsLine-drop n s h.1

digit_no_newline : (d : ℕ) → digit d ≢ b'\n'
digit_no_newline d = ground arith

digits-IsLine : (base fuel n : ℕ) (out : Text) → IsLine out → IsLine (digits base fuel n out)
unfolding digits
digits-IsLine base zero n out h = h
digits-IsLine base (suc fuel) n out h =
    IsLine-if (ltb n base) (digit n ∷ out) _ (digit_no_newline n, h)
      (digits-IsLine base fuel (n / base) (digit (n % base) ∷ out) (digit_no_newline (n % base), h))

pub decimal-IsLine : (n : ℕ) → IsLine (decimal n)
unfolding decimal
decimal-IsLine n = digits-IsLine 10 (suc n) n [] tt

pub hexadecimal-IsLine : (n : ℕ) → IsLine (hexadecimal n)
unfolding hexadecimal
hexadecimal-IsLine n =
    IsLine-if (n == 0) _ _ (omega arith, tt)
      (omega arith, (omega arith, digits-IsLine 16 (suc n) n [] tt))
