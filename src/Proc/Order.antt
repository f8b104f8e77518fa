-- ===== src/Proc/Order.antt =====
-- The order of the options in `do_read` of src/ProcReader.cpp.
use mathlib.Core.Path.{subst}
use cphf.Base.{
  ◌^◌, ◌<◌, ℕ, ◌≡◌, refl, sym, ◌∙◌, [], ◌∷◌, Run, ok, ◌>>=◌, Ensures, Ensures->>=, Ensures-ok,
  Matches, Matches->>=, Matches-map, Matches-ok, ◌<◌,
}
use cphf.Text.{Text, holds}
use cphf.Common.{Attribute}
use cphf.Map.{Map, insert, int_less}
use cphf.Env.{Env}
use cphf.Reader.Options.{IsSetBy, TellsOptions, collect_values, collect_values_order}
use cphf.Proc.Stat.{ProcInfo}
use cphf.Reader.Options.{option_in, option_in-cases}
use cphf.Proc.Cases.{cases, process_option-cases}
use cphf.Proc.{ProcReading, process_option, add_reader, collect}
use cphf.Proc.Coherent.{IsCoherent, SameAttribute, started, process_option-Same}

-- The option that sets an id.
abbrev pub option_of : ℕ → ℕ
option_of = option_in cases

-- What an option shows of the process by its own record.
abbrev pub value : Env → ProcInfo → ℕ → Run Attribute
value env info c = process_option env c (started info) >>= λ a. ok a.0

module _ (env : Env) (info : ProcInfo) where
  abbrev Sets : ℕ → Attribute × ProcReading → Type 0
  Sets c a = IsSetBy (value env info) option_of c a.0

  process_option-IsSetBy : (c : ℕ) (r : ProcReading) → Ensures (Sets c) (process_option env c r)
  process_option-IsSetBy c r =
      process_option-cases (λ id. (id < 2 ^ 32) × (option_of id ≡ c)) env c r
        (option_in-cases cases c refl)

  pub value-TellsOptions : TellsOptions (value env info) option_of
  value-TellsOptions c =
      Ensures->>= (IsSetBy (value env info) option_of c) (process_option env c (started info)) _
        λ a e. Ensures-ok (Sets c) _ (process_option-IsSetBy c (started info)) e

  -- What is collected, and that the record is still that of the process.
  abbrev pub Collects : Map ℕ Text × ProcReading → Map ℕ Text → Type 0
  Collects x m = (x.0 ≡ m) × IsCoherent env info x.1

  -- Whatever was looked up before, the options are read as by the record of the process alone.
  pub collect-Collects :
      (options : Text) (r : ProcReading) (m : Map ℕ Text)
      → IsCoherent env info r
      → Matches Collects (collect env options r m) (collect_values (value env info) options m)
  unfolding collect collect_values add_reader
  collect-Collects [] r m h = (refl, h)
  collect-Collects (c ∷ options) r m h =
      let Reads =
        λ (a : Attribute × ProcReading) (v : Attribute). (a.0 ≡ v) × IsCoherent env info a.1 in
      Matches->>= Reads Collects (process_option env c r) (value env info c) _ _
        (Matches-map (SameAttribute env info) Reads (process_option env c r)
          (process_option env c (started info)) (λ a. a.0) (process_option-Same env info r h c)
          λ a a' s. s)
        λ a v s.
          subst
            (λ (b : Attribute).
              Matches Collects (collect env options a.1 (insert int_less a.0.0 a.0.1 m))
                (collect_values (value env info) options (insert int_less b.0 b.1 m)))
            s.0 (collect-Collects options a.1 (insert int_less a.0.0 a.0.1 m) s.1)

-- Where two texts hold the same options, whatever the order and however often, and both are read
-- without a fault, the same attributes are collected for a process, in the same order, though reading
-- an option may keep the entry of the user or the group and add to the table of states.
pub collect_reordered :
    (env : Env) (info : ProcInfo) (r : ProcReading) (s t : Text) {x y : Map ℕ Text × ProcReading}
    → IsCoherent env info r
    → ((c : ℕ) → holds s c ≡ holds t c)
    → collect env s r [] ≡ ok x
    → collect env t r [] ≡ ok y
    → x.0 ≡ y.0
collect_reordered env info r s t {x} {y} h same e e' =
    let (m, f, g) =
      Matches-ok (Collects env info) (collect env s r []) _ (collect-Collects env info s r [] h)
        e in
    let (m', f', g') =
      Matches-ok (Collects env info) (collect env t r []) _ (collect-Collects env info t r [] h)
        e' in
    g.0
    ∙ collect_values_order (value env info) option_of s t (value-TellsOptions env info) same f f'
    ∙ sym g'.0
