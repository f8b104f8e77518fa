-- ===== src/Lsof/Words.antt =====
-- The words that the scanning of src/LSOFReader.cpp reads.
use cphf.Base.{ℕ, ◌≡◌, false, [], ◌∷◌, All, Bool-cases, inl, inr}
use cphf.Text.{Text, is_space, skip_space}
use cphf.Lsof.{Scanned, end_of_file, id_only, id_and_value, scan, scan_value, word}

-- What `%s` reads has no white space.
abbrev pub IsWord : Text → Type 0
IsWord = All (λ c. is_space c ≡ false)

word-IsWord : (s : Text) → IsWord (word s).0
unfolding word
word-IsWord [] = tt
word-IsWord (c ∷ s) = elim (Bool-cases (is_space c)) [
  | inl e ↦ rw e tt
  | inr e ↦ rw e (e, word-IsWord s)
]

abbrev pub ScansWord : Scanned → Type 0
ScansWord end_of_file = Unit
ScansWord (id_only id) = Unit
ScansWord (id_and_value id w rest) = IsWord w

scan_value-ScansWord : (id : ℕ) (s : Text) → ScansWord (scan_value id s)
unfolding scan_value
scan_value-ScansWord id [] = tt
scan_value-ScansWord id (c ∷ s) = word-IsWord (c ∷ s)

pub scan-ScansWord : (s : Text) → ScansWord (scan s)
unfolding scan
scan-ScansWord [] = tt
scan-ScansWord (id ∷ s) = scan_value-ScansWord id (skip_space s)
