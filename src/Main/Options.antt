-- ===== src/Main/Options.antt =====
-- The options of the command line: `checkOptions` and `main` of src/cphf.cpp.
use cphf.Base.{
  ℕ, ◌≡◌, ◌↔◌, refl, Bool, true, false, ◌⊎◌, inl, inr, List, [], ◌∷◌, ◌++◌, arith, All, Bool-cases,
  ok, ap,
}
use cphf.Text.{Text, codes, holds}
use cphf.Env.{Env}
use cphf.Proc.Stat.{ProcInfo}
use cphf.Proc.{proc_opts_default}
use cphf.FileStat.{filestat_opts_default}
use cphf.Builder.{build, flatten_map}
use cphf.Printer.{print_files}
use cphf.Main.{
  is_no, check_flags, check_options, Flags, default_flags, read_option, read_options, main,
  run_flags,
}

-- Every option is one of the defaults, in the loop of `checkOptions`.
check_flags_sound :
    (defaults options cmd : Text)
    → (check_flags defaults options cmd).0 ≡ true
    → All (λ c. holds defaults c ≡ true) options
unfolding check_flags
check_flags_sound defaults [] cmd h = tt
check_flags_sound defaults (c ∷ options) cmd h = elim (Bool-cases (holds defaults c)) [
  | inl e ↦ (e, check_flags_sound defaults options cmd (rw e at h))
  | inr e ↦ absurd (ground arith)
]

check_flags_complete :
    (defaults options cmd : Text)
    → All (λ c. holds defaults c ≡ true) options
    → check_flags defaults options cmd ≡ (true, [])
unfolding check_flags
check_flags_complete defaults [] cmd h = refl
check_flags_complete defaults (c ∷ options) cmd h =
    rw (h.0, check_flags_complete defaults options cmd h.1)

-- Options other than "no" are accepted, and nothing is printed, exactly if each of them is one of
-- the defaults.
pub check_options_iff :
    (defaults options cmd : Text)
    → is_no options ≡ false
    → (check_options defaults options cmd ≡ (true, [])) ↔ All (λ c. holds defaults c ≡ true) options
unfolding check_options
check_options_iff defaults options cmd h = (
  λ e. check_flags_sound defaults options cmd (ap (λ (r : Bool × List Text). r.0) (rw h at e)),
  λ all. rw h (check_flags_complete defaults options cmd all),
)

read_options-append :
    (os more : List (ℕ × Text)) (f : Flags)
    → read_options (os ++ more) f ≡ read_options more (read_options os f)
unfolding read_options
read_options-append [] more f = refl
read_options-append (o ∷ os) more f = read_options-append os more (read_option o f)

-- Whatever the options before it are, wrong ones too, the last option alone decides whether the
-- flags are okay.
pub read_options_last :
    (os : List (ℕ × Text)) (arg : Text) (f : Flags)
    → ((read_options (os ++ (b'f', arg) ∷ []) f).flags_okay
        ≡ (check_options filestat_opts_default arg (codes "file")).0)
      × ((read_options (os ++ (b'p', arg) ∷ []) f).flags_okay
          ≡ (check_options proc_opts_default arg (codes "proc")).0)
unfolding read_options read_option
read_options_last os arg f = (
  rw (read_options-append os ((b'f', arg) ∷ []) f),
  rw (read_options-append os ((b'p', arg) ∷ []) f),
)

run_flags_bad :
    (env : Env) (fresh : ProcInfo) (f : Flags)
    → f.flags_okay ≡ false
    → run_flags env fresh f ≡ ok (f.lines ++ [] ∷ [])
unfolding run_flags build flatten_map print_files
run_flags_bad env fresh f e = rw e

run_flags_none :
    (env : Env) (fresh : ProcInfo) (f : Flags)
    → is_no f.proc_ops ≡ true
    → is_no f.file_ops ≡ true
    → run_flags env fresh f ≡ ok (f.lines ++ [] ∷ [])
unfolding run_flags build flatten_map print_files
run_flags_none env fresh f p q = elim (Bool-cases f.flags_okay) [
  | inl e ↦ rw (e, p, q)
  | inr e ↦ run_flags_bad env fresh f e
]

-- Where the flags are not okay, as a wrong last option leaves them, or the options of processes and
-- those of files are both "no", the run prints the lines about the options and an empty report,
-- whatever the system is.
pub main_nothing :
    (env : Env) (fresh : ProcInfo) (options : List (ℕ × Text))
    → ((read_options options default_flags).flags_okay ≡ false)
      ⊎ ((is_no (read_options options default_flags).proc_ops ≡ true)
          × (is_no (read_options options default_flags).file_ops ≡ true))
    → main env fresh options ≡ ok ((read_options options default_flags).lines ++ [] ∷ [])
unfolding main
main_nothing env fresh options (inl e) =
    run_flags_bad env fresh (read_options options default_flags) e
main_nothing env fresh options (inr (p, q)) =
    run_flags_none env fresh (read_options options default_flags) p q
