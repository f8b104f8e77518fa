-- ===== src/Text/Holds.antt =====
-- The bytes that a text holds.
use cphf.Base.{ℕ, ◌≡◌, ◌≢◌, refl, arith, true, [], ◌∷◌, ◌==◌, ==_iff, All, Bool-cases, inl, inr}
use mathlib.Core.Path.{subst}
use cphf.Text.{Text, holds, c_str}

-- A property of each byte of a text, at a byte that the text holds.
pub holds-All {κ} : (P : ℕ → Type κ) (s : Text) (c : ℕ) → All P s → holds s c ≡ true → P c
unfolding holds
holds-All P [] c all h = absurd (cc)
holds-All P (d ∷ s) c all h = elim (Bool-cases (d == c)) [
  | inl e ↦ subst P ((==_iff d c).0 e) all.0
  | inr e ↦ holds-All P s c all.1 (rw e at h)
]

-- A text without a NUL is the C string that it holds.
pub c_str_whole : (s : Text) → All (λ c. c ≢ 0) s → c_str s ≡ s
unfolding c_str
c_str_whole [] h = refl
c_str_whole (c ∷ s) h = ground (arith, c_str_whole s h.1)

-- What holds of every byte of a text holds of every byte of the C string in it.
pub c_str-All : (P : ℕ → Type 0) (s : Text) → All P s → All P (c_str s)
unfolding c_str
c_str-All P [] h = tt
c_str-All P (c ∷ s) h = elim (Bool-cases (c == 0)) [
  | inl e ↦ rw e tt
  | inr e ↦ rw e (h.0, c_str-All P s h.1)
]
