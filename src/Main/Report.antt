-- ===== src/Main/Report.antt =====
-- The whole run and its report: `main` of src/cphf.cpp.
use cphf.Base.{ℕ, ◌≡◌, Bool, false, List, [], ◌∷◌, ◌++◌, ok, ◌==◌, length, Ensures-ok}
use cphf.Text.{Text}
use cphf.Env.{Env}
use cphf.Proc.Stat.{ProcInfo}
use cphf.Builder.{World, initial, build, flatten_map}
use cphf.Files.Laws.{AttributesLabelled}
use cphf.Builder.Flatten.{flatten_map-OfObject}
use cphf.Builder.Labels.{WorldLabelled, build-WorldLabelled, print_files_total}
use cphf.Printer.{print_files}
use cphf.Main.{
  Flags, default_flags, read_options, diggers, shows_procs, shows_files, run_flags, main,
}

abbrev pub started : Flags → World
started f = record initial { lines = f.lines }

-- What is printed of a world of which every attribute has a label.
labelled_report :
    (procs files : Bool) (w : World)
    → WorldLabelled w
    → (text : Text) × (print_files w.flags (flatten_map procs files w.procs) ≡ ok text)
labelled_report procs files w h =
    print_files_total w.flags (flatten_map procs files w.procs)
      (flatten_map-OfObject (AttributesLabelled w.flags) procs files w.procs h)

-- A report, and that it is what the run prints last.
abbrev pub Reports : Env → ProcInfo → List (ℕ × Text) → Flags → World → Type 0
Reports env fresh options f w =
    (report : Text) × (print_files w.flags (flatten_map (shows_procs f) (shows_files f) w.procs)
      ≡ ok report)
    × (main env fresh options ≡ ok (w.lines ++ report ∷ []))

run_flags_prints :
    (env : Env) (fresh : ProcInfo) (f : Flags) (w : World) (report : Text)
    → (length (diggers f) == 1) ≡ false
    → build env fresh (diggers f) (started f) ≡ ok w
    → print_files w.flags (flatten_map (shows_procs f) (shows_files f) w.procs) ≡ ok report
    → run_flags env fresh f ≡ ok (w.lines ++ report ∷ [])
unfolding run_flags
run_flags_prints env fresh f w report several e printed = rw (several, e, printed)

-- Where the readers to run are not one alone and they succeed, the run succeeds: it prints what the
-- options and the readers had to say, in that order, and then the report on the map that they left.
-- Printing never fails.
pub main-Reports :
    (env : Env) (fresh : ProcInfo) (options : List (ℕ × Text)) {w : World}
    → (length (diggers (read_options options default_flags)) == 1) ≡ false
    → build env fresh
        (diggers (read_options options default_flags))
        (started (read_options options default_flags))
      ≡ ok w
    → Reports env fresh options (read_options options default_flags) w
unfolding main
main-Reports env fresh options {w} several e =
    let f = read_options options default_flags in
    let labelled =
      Ensures-ok WorldLabelled (build env fresh (diggers f) (started f))
        (build-WorldLabelled env fresh (diggers f) (started f) tt) e in
    let (report, printed) = labelled_report (shows_procs f) (shows_files f) w labelled in
    (report, printed, run_flags_prints env fresh f w report several e printed)
