-- ===== src/Text/Lines.antt =====
-- A text as its lines.
use cphf.Base.{ℕ, ◌≡◌, ◌≢◌, refl, List, [], ◌∷◌, ◌++◌, ◌==◌, if◌then◌else◌, All, arith}
use cphf.Text.{Text}

-- The first line begins with the byte.
abbrev extend : ℕ → List Text → List Text
extend c [] = (c ∷ []) ∷ []
extend c (l ∷ ls) = (c ∷ l) ∷ ls

-- Nothing stands behind the newline that ends the last line.
unfoldable pub lines_of : Text → List Text
lines_of [] = []
lines_of (c ∷ s) = let ls = lines_of s in if c == b'\n' then [] ∷ ls else extend c ls

abbrev pub IsLine : Text → Type 0
IsLine = All (λ c. c ≢ b'\n')

pub lines_of-append :
    (line rest : Text) → IsLine line → lines_of (line ++ b'\n' ∷ rest) ≡ line ∷ lines_of rest
unfolding lines_of
lines_of-append [] rest h = refl
lines_of-append (c ∷ s) rest h = ground (arith, lines_of-append s rest h.1)
