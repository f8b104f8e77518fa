-- ===== src/Reader/Perms.antt =====
-- `readPerms` of src/CPHFReader.cpp on a mode that is written with octal digits.
use cphf.Base.{
  ℕ, ◌+◌, ◌*◌, ◌/◌, ◌%◌, ◌^◌, ◌<◌, ◌≡◌, refl, ◌∙◌, Bool, false, [], ◌∷◌, ◌++◌, leb, ◌==◌,
  if◌then◌else◌, bit_and, bit_and-shifted, bit_and-one, bit_and-fifteen, arith, Bool-cases, ==_iff,
  ==_refl, sym, inl, inr,
}
use native.Mathlib.Nat.{one-le-pow, eq_of_mul-eq-mul_left}
use cphf.Text.{Text}
use cphf.Reader.{read_perms, has}

==_scaled : (p x y : ℕ) → 0 < p → (p * x == p * y) ≡ (x == y)
==_scaled p x y h = elim (Bool-cases (x == y)) [
  | inl e ↦ rw ((==_iff x y).0 e) (==_refl (p * y) ∙ sym (==_refl y))
  | inr e ↦ rw e (ground (arith, eq_of_mul-eq-mul_left p h x y))
]

has-shifted : (k flag mode : ℕ) → has mode (2 ^ k * flag) ≡ has (mode / 2 ^ k) flag
has-shifted k flag mode =
    rw (bit_and-shifted k flag mode)
      (==_scaled (2 ^ k) (bit_and (mode / 2 ^ k) flag) flag (one-le-pow k 2 (omega arith)))

has-four : (q d : ℕ) → d < 8 → has (8 * q + d) 4 ≡ leb 4 d
has-four q d h = ground (arith, bit_and-shifted 2 1 (8 * q + d), bit_and-one ((8 * q + d) / 4))

has-two : (q d : ℕ) → d < 8 → has (8 * q + d) 2 ≡ leb 2 (d % 4)
has-two q d h = ground (arith, bit_and-shifted 1 1 (8 * q + d), bit_and-one ((8 * q + d) / 2))

has-one : (q d : ℕ) → d < 8 → has (8 * q + d) 1 ≡ (d % 2 == 1)
has-one q d h = ground (arith, bit_and-one (8 * q + d))

-- The three bits of an octal digit, the digit being the last of what is left of the mode.
has-octal :
    (k q d mode : ℕ)
    → mode / 2 ^ k ≡ 8 * q + d
    → d < 8
    → (has mode (2 ^ k * 4) ≡ leb 4 d)
      × (has mode (2 ^ k * 2) ≡ leb 2 (d % 4))
      × (has mode (2 ^ k * 1) ≡ (d % 2 == 1))
has-octal k q d mode e h = (
  rw (has-shifted k 4 mode, e, has-four q d h) refl,
  rw (has-shifted k 2 mode, e, has-two q d h) refl,
  rw (has-shifted k 1 mode, e, has-one q d h) refl,
)

-- The letters of a digit: reading, writing, and the last one, which something else may take.
abbrev pub letters : Bool → ℕ → ℕ → Text
letters taken letter d =
    (if leb 4 d then b'r' else b'-')
    ∷ (if leb 2 (d % 4) then b'w' else b'-')
    ∷ (if taken then letter else if d % 2 == 1 then b'x' else b'-')
    ∷ []

-- A mode with a kind and four octal digits is shown as a letter for the kind, `d` for a directory
-- alone, and three letters for each of the last three digits: what owner, group and others may do.
-- The owner's third letter is `s` where the second bit of the first digit is set, that of the set-gid
-- bit, and that of the others is `t` where its last bit is, the sticky bit, whoever may execute the
-- file or not; the first bit of that digit, that of set-uid, shows nowhere.
pub read_perms-letters :
    (t s u g o : ℕ)
    → t < 16
    → s < 8
    → u < 8
    → g < 8
    → o < 8
    → read_perms (4096 * t + 512 * s + 64 * u + 8 * g + o)
      ≡ (if t == 4 then b'd' else b'-') ∷ letters (leb 2 (s % 4)) b's' u
        ++ letters false b'-' g
        ++ letters (s % 2 == 1) b't' o
unfolding read_perms
read_perms-letters t s u g o ht hs hu hg ho =
    let mode = 4096 * t + 512 * s + 64 * u + 8 * g + o in
    let kind : (bit_and mode 0o170000 == 0o040000) ≡ (t == 4) =
      ground (arith, bit_and-shifted 12 15 mode, bit_and-fifteen (mode / 4096)) in
    let special = has-octal 9 t s mode (omega arith) hs in
    let owner = has-octal 6 (8 * t + s) u mode (omega arith) hu in
    let group = has-octal 3 (64 * t + 8 * s + u) g mode (omega arith) hg in
    let others = has-octal 0 (512 * t + 64 * s + 8 * u + g) o mode (omega arith) ho in
    rw
      (
        kind, owner.0, owner.1, special.1, owner.2, group.0, group.1, group.2, others.0, others.1,
        special.2, others.2,
      )
      refl
