-- ===== src/FileStat/Link.antt =====
-- `readFileName` of src/FileStatReader.cpp.
use native.Mathlib.Nat.{pow-suc}
use cphf.Base.{
  ℕ, zero, suc, ◌+◌, ◌*◌, ◌^◌, ◌≤◌, ◌<◌, ◌≡◌, ◌∙◌, true, some, ltb, length, take, take_all,
  length-take, arith, ok, Bool-cases, inl, inr, ap,
}
use cphf.Text.{Text, c_str}
use cphf.Env.{Env}
use cphf.FileStat.{read_link, read_file_name}

-- `readlink` places as much of the target as the buffer holds.
abbrev pub LinksTo : Env → Text → Text → Type 0
LinksTo env path target = (size : ℕ) → env.readlink path size ≡ some (take size target)

-- No allocation fails.
abbrev pub HasMemory : Env → Type 0
HasMemory env = (size : ℕ) → env.alloc size ≡ true

module _ (env : Env) (path target : Text) (links : LinksTo env path target)
    (memory : HasMemory env) where
  read_link_fits :
      (shifts size : ℕ)
      → length target < size
      → read_link env path (suc shifts) size ≡ ok (c_str target)
  unfolding read_link
  read_link_fits shifts size h =
      rw (memory (size + 1), links size, take_all size target (omega arith)) (ground arith)

  read_link_full :
      (shifts size : ℕ)
      → size ≤ length target
      → read_link env path (suc shifts) size ≡ read_link env path shifts (size * 4)
  unfolding read_link
  read_link_full shifts size h =
      rw (memory (size + 1), links size) (ground (arith, length-take size target))

  -- Each round asks for four times the size.
  read_link_grows :
      (shifts size : ℕ)
      → length target < size * 4 ^ shifts
      → read_link env path (suc shifts) size ≡ ok (c_str target)
  read_link_grows zero size h = read_link_fits zero size (omega arith)
  read_link_grows (suc shifts) size h = elim (Bool-cases (ltb (length target) size)) [
    | inl e ↦ read_link_fits (suc shifts) size (ground arith)
    | inr e ↦
        read_link_full (suc shifts) size (ground arith)
        ∙ read_link_grows shifts (size * 4)
            (omega (arith, ap (λ (t : ℕ). size * t) (pow-suc 4 shifts)))
  ]

  -- The name of a file is the whole target of its link, whatever its length up to 2^62 bytes, and
  -- up to the first NUL.
  pub read_file_name-target : length target < 2 ^ 62 → read_file_name env path ≡ ok (c_str target)
  unfolding read_file_name
  read_file_name-target h = read_link_grows 26 1024 h
