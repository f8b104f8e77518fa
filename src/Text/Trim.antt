-- ===== src/Text/Trim.antt =====
-- A text without the blanks at its end.
use cphf.Base.{
  ℕ, zero, suc, ◌≡◌, refl, Bool, true, false, ◌&&◌, [], ◌∷◌, ◌++◌, ◌==◌, if◌then◌else◌, replicate,
}
use cphf.Text.{Text}

abbrev is_empty : Text → Bool
is_empty [] = true
is_empty (c ∷ s) = false

unfoldable pub trim : Text → Text
trim [] = []
trim (c ∷ s) = let rest = trim s in if c == b' ' && is_empty rest then [] else c ∷ rest

trim-blanks : (n : ℕ) → trim (replicate n b' ') ≡ []
unfolding trim
trim-blanks zero = refl
trim-blanks (suc n) = rw (trim-blanks n) refl

-- Padding is cut off.
pub trim-append : (s : Text) (n : ℕ) → trim (s ++ replicate n b' ') ≡ trim s
unfolding trim
trim-append [] n = trim-blanks n
trim-append (c ∷ s) n = rw (trim-append s n) refl
