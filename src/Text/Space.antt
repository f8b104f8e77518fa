-- ===== src/Text/Space.antt =====
-- White space at the start of a text.
use cphf.Base.{
  ℕ, zero, suc, ◌+◌, refl, ◌++◌, replicate, ◌≤◌, ◌≡◌, true, false, [], ◌∷◌, arith, length,
  Bool-cases, inl, inr,
}
use cphf.Text.{Text, is_space, skip_space}

pub skip_space_stays : (c : ℕ) (s : Text) → is_space c ≡ false → skip_space (c ∷ s) ≡ c ∷ s
unfolding skip_space
skip_space_stays c s h = rw h

pub skip_space_skips : (c : ℕ) (s : Text) → is_space c ≡ true → skip_space (c ∷ s) ≡ skip_space s
unfolding skip_space
skip_space_skips c s h = rw h

-- One blank and more of them, as they fill a column.
abbrev pub blanks : ℕ → Text → Text
blanks more s = b' ' ∷ (replicate more b' ' ++ s)

pub skip_space-blanks : (more : ℕ) (s : Text) → skip_space (blanks more s) ≡ skip_space s
unfolding skip_space
skip_space-blanks zero s = refl
skip_space-blanks (suc more) s = skip_space-blanks more s

pub length-blanks : (more : ℕ) (s : Text) → length (blanks more s) ≡ suc (more + length s)
length-blanks zero s = omega arith
length-blanks (suc more) s = omega (arith, length-blanks more s)

pub length-skip_space : (s : Text) → length (skip_space s) ≤ length s
unfolding skip_space
length-skip_space [] = omega arith
length-skip_space (c ∷ s) = elim (Bool-cases (is_space c)) [
  | inl e ↦ rw e (omega (arith, length-skip_space s))
  | inr e ↦ rw e (omega arith)
]
