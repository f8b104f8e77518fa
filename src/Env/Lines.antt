-- ===== src/Env/Lines.antt =====
-- A system that gives the program no text with a newline in it.
use cphf.Base.{ℕ, ◌++◌, Option, none, some}
use cphf.Text.{Text, codes, decimal}
use cphf.Text.Lines.{IsLine}
use cphf.Env.{Env}

abbrev pub OfOption : {A : Type 0} → (A → Type 0) → Option A → Type 0
OfOption P none = Unit
OfOption P (some a) = P a

abbrev pub IsNamed : Option (Text × ℕ) → Type 0
IsNamed = OfOption (λ e. IsLine e.0)

-- The targets of links, the arguments of processes, formatted times, and the names of users and
-- groups.
pub record GivesLines (env : Env) : Type 0 where
  pub links : (path : Text) (size : ℕ) → OfOption IsLine (env.readlink path size)
  pub arguments :
      (pid : ℕ)
      → OfOption IsLine (env.open_file (codes "/proc/" ++ decimal pid ++ codes "/cmdline"))
  pub times : (format : Text) (t : ℕ) → OfOption IsLine (env.format_time format t)
  pub users : (uid : ℕ) → IsNamed (env.getpwuid uid)
  pub groups : (gid : ℕ) → IsNamed (env.getgrgid gid)
