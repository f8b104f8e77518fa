-- ===== src/Main/Live.antt =====
-- What the report of `main` of src/cphf.cpp shows of what `lsof` lists.
use cphf.Base.{ℕ, ◌≡◌, refl, true, false, List, [], ◌∷◌, ◌++◌, ok, Any, arith}
use cphf.Text.{Text}
use cphf.Env.{Env}
use cphf.Files.{CphfFile, new_proc_file}
use cphf.Lsof.{lsof_opts_default}
use cphf.Lsof.Load.Fields.{Listing, IsListing}
use cphf.Lsof.Load.Finds.{ListsProcess, ListsFile}
use cphf.Proc.Stat.{ProcInfo}
use cphf.Builder.{World, flatten_map}
use cphf.Builder.Found.{Lists}
use cphf.Builder.Shown.{ShowsProcess, ShowsFile}
use cphf.Builder.Listed.{flatten_map-ShowsProcess, flatten_map-ShowsFile}
use cphf.Main.{is_no, shows_procs, shows_files, main}
use cphf.Main.Report.{Reports}
use cphf.Main.Served.{IsServed}
use cphf.Common.Id
use cphf.Common.{AttributeFlags}
use cphf.Files.{proc_file, unlinked_file}
use cphf.Text.{decimal}
use cphf.Map.{find_hash, find}
use cphf.Base.{some, Contains, Any-weaken}
use cphf.Main.Runs.{IsAccepted, flags_of, main_runs}
use cphf.Common.Label
use cphf.Printer.{proc_line, print_file}
use cphf.Printer.Lines.{print_file-Contains, print_files-Contains}

-- The run prints a report of a list of objects, in which `P` holds of one.
abbrev PrintsOne : (CphfFile → Type 0) → Env → ProcInfo → List (ℕ × Text) → Type 0
PrintsOne P env fresh options =
    (w : World) × Reports env fresh options (flags_of options) w
    × Any P (flatten_map (shows_procs (flags_of options)) (shows_files (flags_of options)) w.procs)

-- The run prints a report in which the line stands.
abbrev pub PrintsLine : Text → Env → ProcInfo → List (ℕ × Text) → Type 0
PrintsLine line env fresh options =
    (w : World) × (report : Text) × (main env fresh options ≡ ok (w.lines ++ report ∷ []))
    × Contains report line

process_line :
    (flags : AttributeFlags) (pid : ℕ)
    → find_hash Id.pid flags ≡ some Label.pid
    → (f : CphfFile) → ShowsProcess pid f
    → (t : Text) → print_file flags f ≡ ok t
    → Contains t (proc_line Label.pid (decimal pid))
process_line flags pid label (proc_file p) h t e =
    print_file-Contains flags Id.pid (decimal pid) Label.pid p label h.1 e
process_line flags pid label (unlinked_file f) h t e = absurd h

module _ (env : Env) (fresh : ProcInfo) (options : List (ℕ × Text)) (l : Listing)
    (served : IsServed env) (accepted : IsAccepted (flags_of options))
    (lists : Lists env lsof_opts_default l) (ints : IsListing l) where
  -- On a system with memory, where the target of a link can be read or readlink fails, the owner
  -- and the group of each file that stat finds have an entry, and /proc/tty/drivers is not there or
  -- has its format, under options that are accepted and do not turn processes off, the run succeeds
  -- where lsof answers with a listing, with numbers that fit an int and other names that start with
  -- no digit and no sign; and the report that it prints holds, for every process that is listed,
  -- the line of its id under the label of the ids.
  pub main-PrintsProcess :
      (pid : ℕ)
      → is_no (flags_of options).proc_ops ≡ false
      → ListsProcess pid l
      → PrintsLine (proc_line Label.pid (decimal pid)) env fresh options
  main-PrintsProcess pid wanted listed =
      let f = flags_of options in
      let line = proc_line Label.pid (decimal pid) in
      let (w, (report, printed, done), grows, label, runs) =
        main_runs env fresh options l served accepted lists ints (rw wanted refl) in
      let wants : shows_procs f ≡ true = unfold shows_procs in rw (accepted.0, wanted) refl in
      let shown : Any (ShowsProcess pid) (flatten_map (shows_procs f) (shows_files f) w.procs) =
        rw wants
          (flatten_map-ShowsProcess env l [] ints w.procs grows pid (shows_files f) listed) in
      let objects = flatten_map (shows_procs f) (shows_files f) w.procs in
      (
        w,
        report,
        done,
        print_files-Contains w.flags line objects
            (Any-weaken objects (process_line w.flags pid label) shown) printed,
      )

  -- On a system that answers, under options that are accepted and ask for files, the run
  -- succeeds where `lsof` answers with a listing, with numbers that fit an `int` and other names that
  -- start with no digit and no sign; and the report that it prints shows every file that is listed
  -- under a number, with that number and the id of its process.
  main-ShowsFile :
      (pid n : ℕ)
      → is_no (flags_of options).file_ops ≡ false
      → ListsFile n pid l
      → PrintsOne (ShowsFile pid n) env fresh options
  main-ShowsFile pid n wanted listed =
      let f = flags_of options in
      let (w, reports, grows, label, runs) =
        main_runs env fresh options l served accepted lists ints (ground arith) in
      let shown : shows_files f ≡ true = unfold shows_files in rw (accepted.0, wanted) refl in
      (
        w,
        reports,
        rw shown (
            flatten_map-ShowsFile env l [] ints w.procs grows pid n (shows_procs f)
              (λ k g bound e. absurd (unfold find new_proc_file in cc)) listed),
      )
