-- ===== src/Main/Reread.antt =====
-- A run of `main` of src/cphf.cpp, and its report read back.
use cphf.Base.{ℕ, ◌≡◌, false, ◌&&◌, List, [], ◌∷◌, ◌++◌, map, ok, not, ◌∙◌, ap, true}
use cphf.Text.{Text}
use cphf.Env.{Env}
use cphf.Env.Lines.{GivesLines}
use cphf.Files.Grows.{Grows}
use cphf.Lsof.{lsof_opts_default}
use cphf.Lsof.Load.Fields.{Listing, IsListing}
use cphf.Proc.Stat.{ProcInfo}
use cphf.Proc.OneLine.{NamedRecord}
use cphf.Printer.Read.{read_report}
use cphf.Printer.Reread.{block_of}
use cphf.Builder.{World, flatten_map}
use cphf.Builder.Found.{Lists, loaded}
use cphf.Builder.Reread.{print_files-read_after}
use cphf.Main.{main, is_no, shows_procs, shows_files, diggers, Flags}
use cphf.Main.Runs.{IsAccepted, flags_of, main_runs}
use cphf.Main.Served.{IsServed}

-- The run prints a report, behind the lines before it, that reads back as the objects of a map which
-- has exactly the processes and the files of the listing: processes unless their options are "no", and
-- files unless theirs are.
abbrev pub Rereads : Env → ProcInfo → List (ℕ × Text) → Listing → Type 0
Rereads env fresh options l =
    let f = flags_of options in
    (w : World) × (report : Text) × (main env fresh options ≡ ok (w.lines ++ report ∷ []))
    × (read_report report
        ≡ map (block_of w.flags)
            (flatten_map (not (is_no f.proc_ops)) (not (is_no f.file_ops)) w.procs))
    × Grows (loaded env l []) w.procs

-- Where the flags are okay, what is shown is what the options do not turn off.
shows_okay :
    (f : Flags)
    → f.flags_okay ≡ true
    → (shows_procs f ≡ not (is_no f.proc_ops)) × (shows_files f ≡ not (is_no f.file_ops))
unfolding shows_procs shows_files
shows_okay f okay = (rw okay, rw okay)

-- On a system with memory, where the target of a link can be read or readlink fails, the owner and
-- the group of each file that stat finds have an entry, and /proc/tty/drivers is not there or has
-- its format, which gives the program no text with a newline, with a new record of a process that
-- points to no name with one, and under options that are accepted and do not turn off both
-- processes and files, the run succeeds where lsof answers with a listing, with numbers that fit an
-- int and other names that start with no digit and no sign. Reading the report that it prints
-- gives, in order, the processes unless their options are "no" and the files unless theirs are,
-- each process as a process and each file as a file, with the labels and the values of all
-- attributes, up to their first NUL, of a map that has exactly the processes and the files listed,
-- with what loading the listing gives them and what the readers have added.
pub main-read_report :
    (env : Env) (fresh : ProcInfo) (options : List (ℕ × Text)) (l : Listing)
    → IsServed env
    → GivesLines env
    → NamedRecord fresh
    → IsAccepted (flags_of options)
    → (is_no (flags_of options).proc_ops && is_no (flags_of options).file_ops) ≡ false
    → Lists env lsof_opts_default l
    → IsListing l
    → Rereads env fresh options l
main-read_report env fresh options l served gives named accepted wanted lists ints =
    let f = flags_of options in
    let shown = shows_okay f accepted.0 in
    let (w, (report, printed, done), grows, label, runs) =
      main_runs env fresh options l served accepted lists ints wanted in
    (
      w,
      report,
      done,
      print_files-read_after env fresh (diggers f) f.lines (shows_procs f) (shows_files f) gives
            named runs printed
          ∙ ap (λ b. map (block_of w.flags) (flatten_map b (shows_files f) w.procs)) shown.0
          ∙ ap (λ b. map (block_of w.flags) (flatten_map (not (is_no f.proc_ops)) b w.procs))
              shown.1,
      grows,
    )
