-- ===== src/Printer/Label.antt =====
-- The labels that the lines of `printFiles` of src/PrettyPrinter.cpp have a place for.
use cphf.Base.{
  ◌≤◌, ◌≡◌, ◌≢◌, refl, Bool, true, false, ◌&&◌, not, [], ◌∷◌, leb, ◌==◌, length, All, arith,
}
use cphf.Text.{Text, same}
use cphf.Text.Trim.{trim}

-- A text of one line, with no NUL.
is_plain : Text → Bool
is_plain [] = true
is_plain (c ∷ s) = not (c == 0) && not (c == b'\n') && is_plain s

-- The text can start a line of a process: it is no rule, and not indented.
abbrev starts_line : Text → Bool
starts_line [] = false
starts_line (c ∷ s) = not (c == b'=') && not (c == b'\t')

-- The label fits its column, and can be told from the padding.
unfoldable pub fits : Text → Bool
unfolding trim is_plain same
fits label = leb (length label) 23 && is_plain label && starts_line label && same (trim label) label

-- What `fits` tells.
pub record IsLabel (label : Text) : Type 0 where
  pub short : length label ≤ 23
  pub no_nul : All (λ c. c ≢ 0) label
  pub one_line : All (λ c. c ≢ b'\n') label
  pub starts : starts_line label ≡ true
  pub trimmed : trim label ≡ label

no_nul-is_plain : (s : Text) → is_plain s ≡ true → All (λ c. c ≢ 0) s
unfolding is_plain
no_nul-is_plain [] h = tt
no_nul-is_plain (c ∷ s) h = ground (arith, no_nul-is_plain s)

one_line-is_plain : (s : Text) → is_plain s ≡ true → All (λ c. c ≢ b'\n') s
unfolding is_plain
one_line-is_plain [] h = tt
one_line-is_plain (c ∷ s) h = ground (arith, one_line-is_plain s)

pub same-eq : (s t : Text) → same s t ≡ true → s ≡ t
unfolding same
same-eq [] [] h = refl
same-eq [] (d ∷ t) h = cc
same-eq (c ∷ s) [] h = cc
same-eq (c ∷ s) (d ∷ t) h = ground (arith, same-eq s t)

pub fits-IsLabel : (label : Text) → fits label ≡ true → IsLabel label
unfolding fits
fits-IsLabel label h = record {
  short = ground arith;
  no_nul = no_nul-is_plain label (ground arith);
  one_line = one_line-is_plain label (ground arith);
  starts = ground arith;
  trimmed = same-eq (trim label) label (ground arith);
}
