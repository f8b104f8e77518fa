-- ===== src/Main/Attributed.antt =====
-- What the report of `main` of src/cphf.cpp says of the files that `lsof` lists.
use cphf.Base.{
  ℕ, ◌≡◌, refl, true, false, List, [], ◌∷◌, ◌++◌, ok, some, Any, Any-weaken, arith, Ensures-ok,
  if◌then◌else◌, Contains,
}
use cphf.Text.{Text, holds}
use cphf.Common.{Attribute}
use cphf.Map.{find, find_hash}
use cphf.Env.{Env, Stat}
use cphf.Files.{CphfFile, proc_file, unlinked_file, new_proc_file}
use cphf.Files.Grows.{Grows}
use cphf.Lsof.{lsof_opts_default}
use cphf.Lsof.Load.Fields.{Listing, IsListing}
use cphf.Lsof.Load.Finds.{ListsFile}
use cphf.Proc.Stat.{ProcInfo}
use cphf.FileStat
use cphf.FileStat.{FileInfo, form_path}
use cphf.FileStat.Labels as FileLabels
use cphf.FileStat.Shown.{HasAttribute, read-HasAttribute}
use cphf.Printer.{file_line, print_file}
use cphf.Printer.Lines.{print_file_unlinked-Contains, print_files-Contains}
use cphf.Builder.{
  World, DataDigger, build, flatten_map, init_txt_fd, cphf_reader_lsof, cphf_reader_proc,
  cphf_reader_filestat,
}
use cphf.Builder.Agreed.{file_label, build-Says_file}
use cphf.Builder.Found.{Lists, loaded, build-Grows-loaded}
use cphf.Builder.Grows.{NotLsof}
use cphf.Builder.Steps.{build_split, build_files, HasFile-HasEntry}
use cphf.Builder.Shown.{IsFile, flatten_map-IsFile}
use cphf.Builder.Listed.{listed-HasFile}
use cphf.Builder.WellFormed.{WorldFormed, build-WorldFormed}
use cphf.Main.{Flags, is_no, shows_procs, shows_files, diggers}
use cphf.Main.Live.{PrintsLine}
use cphf.Main.Report.{started}
use cphf.Main.Runs.{IsAccepted, flags_of, main_runs}
use cphf.Main.Served.{IsServed}

-- The readers behind that of `lsof` and before that of files.
abbrev proc_diggers : Flags → List DataDigger
proc_diggers f = if is_no f.proc_ops then [] else (cphf_reader_proc, f.proc_ops) ∷ []

proc_diggers-NotLsof : (f : Flags) → NotLsof (proc_diggers f)
proc_diggers-NotLsof f = ground arith

diggers_with_files :
    (f : Flags)
    → f.flags_okay ≡ true
    → is_no f.file_ops ≡ false
    → diggers f
      ≡ ((cphf_reader_lsof, lsof_opts_default) ∷ proc_diggers f)
        ++ (cphf_reader_filestat, f.file_ops) ∷ []
unfolding diggers
diggers_with_files f okay wanted = rw (okay, wanted)

file_line_of :
    (w : World) (a : Attribute) (label : Text)
    → find_hash a.0 w.flags ≡ some label
    → (f : CphfFile) → IsFile (HasAttribute a) f
    → (t : Text) → print_file w.flags f ≡ ok t
    → Contains t (file_line label a.1)
file_line_of w a label known (proc_file p) h t e = absurd h
file_line_of w a label known (unlinked_file f) h t e =
    print_file_unlinked-Contains w.flags a.0 a.1 label f known h e

module _ (env : Env) (fresh : ProcInfo) (f : Flags) (l : Listing) (w : World)
    (lists : Lists env lsof_opts_default l) (ints : IsListing l) (okay : f.flags_okay ≡ true)
    (wanted : is_no f.file_ops ≡ false)
    (runs : build env fresh (diggers f) (started f) ≡ ok w) where
  -- The world before the reader of files ran.
  before_files :
      (w₂ : World) × Grows (loaded env l []) w₂.procs
      × WorldFormed env fresh w₂
      × (FileStat.read env (init_txt_fd env.file_limit) f.file_ops w₂.procs ≡ ok w.procs)
      × (w.flags ≡ FileStat.create_attrib_map w₂.flags)
  before_files =
      let first = (cphf_reader_lsof, lsof_opts_default) ∷ proc_diggers f in
      let (w₂, e₁, e₂) =
        build_split env fresh first ((cphf_reader_filestat, f.file_ops) ∷ []) (started f)
          (rw (diggers_with_files f okay wanted) at runs) in
      let (reads, labels) = build_files env fresh f.file_ops w₂ e₂ in
      (
        w₂,
        build-Grows-loaded env fresh lsof_opts_default l (started f) lists ints (proc_diggers f)
            (proc_diggers-NotLsof f) e₁,
        Ensures-ok (WorldFormed env fresh) _
            (build-WorldFormed env fresh first (started f) (tt, tt, tt)) e₁,
        reads,
        labels,
      )

  -- A file that is listed has the attribute of each option.
  files-HasAttribute :
      (pid n c : ℕ) (st : Stat) (a : Attribute)
      → ListsFile n pid l
      → holds f.file_ops c ≡ true
      → env.stat (form_path (init_txt_fd env.file_limit) pid n) ≡ some st
      → FileStat.process_option env c
          (record { path = form_path (init_txt_fd env.file_limit) pid n; stat = st })
        ≡ ok a
      → Any (λ e. Any (λ e'. HasAttribute a e'.1) e.1.ul_files) w.procs
  files-HasAttribute pid n c st a listed asked stats value =
      let txt_fd = init_txt_fd env.file_limit in
      let (w₂, grows, formed, reads, labels) = before_files in
      read-HasAttribute env txt_fd f.file_ops pid n c a st stats asked value w₂.procs reads (
        HasFile-HasEntry txt_fd pid n w₂.procs formed (
          listed-HasFile env l [] ints w₂.procs grows pid n
            (λ k g bound e. absurd (unfold find new_proc_file in cc)) listed))

  label_of :
      (c : ℕ) (info : FileInfo) (a : Attribute) (label : Text)
      → FileStat.process_option env c info ≡ ok a
      → file_label a.0 ≡ some label
      → find_hash a.0 w.flags ≡ some label
  label_of c info a label value known =
      let (w₂, grows, formed, reads, labels) = before_files in
      let announced = Ensures-ok _ _ (FileLabels.process_option-announced env c info) value in
      build-Says_file a.0 label env fresh (diggers f) (started f) known refl runs
        (rw labels (FileLabels.announced-IsLabelled w₂.flags a.0 announced))

module _ (env : Env) (fresh : ProcInfo) (options : List (ℕ × Text)) (l : Listing)
    (served : IsServed env) (accepted : IsAccepted (flags_of options))
    (lists : Lists env lsof_opts_default l) (ints : IsListing l) where
  -- On a system with memory, where the target of a link can be read or readlink fails, the owner
  -- and the group of each file that stat finds have an entry, and /proc/tty/drivers is not there or
  -- has its format, under options that are accepted and do not turn files off, the run succeeds
  -- where lsof answers with a listing, with numbers that fit an int and other names that start with
  -- no digit and no sign; and for every file that is listed under a number, where stat succeeds on
  -- the path that is looked up for it, the report that it prints holds a line for every option for
  -- files: what the case of the option reads of that path, under the label that the reader of files
  -- announces for its id.
  pub main-PrintsAttribute :
      (pid n c : ℕ) (st : Stat) (a : Attribute) (label : Text)
      → is_no (flags_of options).file_ops ≡ false
      → ListsFile n pid l
      → holds (flags_of options).file_ops c ≡ true
      → env.stat (form_path (init_txt_fd env.file_limit) pid n) ≡ some st
      → FileStat.process_option env c
          (record { path = form_path (init_txt_fd env.file_limit) pid n; stat = st })
        ≡ ok a
      → file_label a.0 ≡ some label
      → PrintsLine (file_line label a.1) env fresh options
  main-PrintsAttribute pid n c st a label wanted listed asked stats value known =
      let f = flags_of options in
      let line = file_line label a.1 in
      let (w, (report, printed, done), grows, first_label, runs) =
        main_runs env fresh options l served accepted lists ints (ground arith) in
      let shown : shows_files f ≡ true = unfold shows_files in rw (accepted.0, wanted) refl in
      let info : FileInfo = record {
        path = form_path (init_txt_fd env.file_limit) pid n;
        stat = st;
      } in
      let has =
        files-HasAttribute env fresh f l w lists ints accepted.0 wanted runs pid n c st a listed
          asked stats value in
      let labelled =
        label_of env fresh f l w lists ints accepted.0 wanted runs c info a label value known in
      let objects = flatten_map (shows_procs f) (shows_files f) w.procs in
      let there : Any (IsFile (HasAttribute a)) objects =
        rw shown (flatten_map-IsFile (HasAttribute a) (shows_procs f) w.procs has) in
      (
        w,
        report,
        done,
        print_files-Contains w.flags line objects
            (Any-weaken objects (file_line_of w a label labelled) there) printed,
      )
