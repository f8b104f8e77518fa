-- ===== src/Main/Described.antt =====
-- What the report of `main` of src/cphf.cpp says of the processes that `lsof` lists.
use cphf.Base.{
  ℕ, ◌^◌, ◌<◌, ◌≡◌, refl, ◌∙◌, true, false, List, [], ◌∷◌, ◌++◌, ok, >>=-eq-ok, some, Any,
  Any-weaken, All, All-weaken, arith, Ensures, Ensures->>=, Ensures-ok, if◌then◌else◌, Contains,
  Contains-Any,
}
use mathlib.Core.Path.{subst}
use cphf.Text.{Text, holds}
use cphf.Common.{Attribute}
use cphf.Map.{find_hash}
use cphf.Map.Each.{Each-Any}
use cphf.Env.{Env}
use cphf.Files.{CphfFile, proc_file, unlinked_file}
use cphf.Files.Laws.{has_key}
use cphf.Files.Grows.{ProcGrows}
use cphf.Lsof.{lsof_opts_default}
use cphf.Lsof.Load.Fields.{Listing, IsListing}
use cphf.Lsof.Load.Finds.{ListsProcess}
use cphf.Proc.Alone.{IsKnown, own_record}
use cphf.Proc.Coherent as Coherent
use cphf.Proc.Labels as ProcLabels
use cphf.Proc.Order.{value}
use cphf.Proc.Shown.{HasAttribute, read-HasAttribute}
use cphf.Proc.Stat.{ProcInfo}
use cphf.Proc.{process_option}
use cphf.Printer.{proc_line, print_file}
use cphf.Printer.Lines.{print_file-Contains, print_files-Contains}
use cphf.Builder.{
  World, DataDigger, dig, build, flatten_map, cphf_reader_lsof, cphf_reader_proc,
  cphf_reader_filestat,
}
use cphf.Builder.Agreed.{proc_label, build-Says_proc}
use cphf.Builder.Announced.{build_keeps_label}
use cphf.Builder.Found.{Lists, loaded, lsof_world, dig_loaded}
use cphf.Builder.Grows.{NotLsof, build-Grows}
use cphf.Builder.Steps.{build_split, dig_procs}
use cphf.Builder.Listed.{listed-entry}
use cphf.Builder.Shown.{IsProc, flatten_map-IsProc}
use cphf.Builder.WellFormed.{WorldFormed, build-WorldFormed}
use cphf.Main.{Flags, is_no, shows_procs, shows_files, diggers}
use cphf.Main.Live.{PrintsLine}
use cphf.Main.Report.{started}
use cphf.Main.Runs.{IsAccepted, flags_of, main_runs}
use cphf.Main.Served.{IsServed}

-- The readers up to that of processes, and that of files behind them.
abbrev first_diggers : Flags → List DataDigger
first_diggers f = (cphf_reader_lsof, lsof_opts_default) ∷ (cphf_reader_proc, f.proc_ops) ∷ []

abbrev file_diggers : Flags → List DataDigger
file_diggers f = if is_no f.file_ops then [] else (cphf_reader_filestat, f.file_ops) ∷ []

file_diggers-NotLsof : (f : Flags) → NotLsof (file_diggers f)
file_diggers-NotLsof f = ground arith

diggers_with_procs :
    (f : Flags)
    → f.flags_okay ≡ true
    → is_no f.proc_ops ≡ false
    → diggers f ≡ first_diggers f ++ file_diggers f
unfolding diggers
diggers_with_procs f okay wanted = rw (okay, wanted)

value-announced :
    (env : Env) (info : ProcInfo) (c : ℕ)
    → Ensures (λ a. has_key a.0 ProcLabels.announced ≡ true) (value env info c)
value-announced env info c =
    let Q = λ (a : Attribute). has_key a.0 ProcLabels.announced ≡ true in
    Ensures->>= Q (process_option env c (Coherent.started info)) _ λ x e.
      Ensures-ok (λ x. Q x.0) _ (ProcLabels.process_option-announced env c (Coherent.started info))
        e

proc_line_of :
    (w : World) (a : Attribute) (label : Text)
    → find_hash a.0 w.flags ≡ some label
    → (f : CphfFile) → IsProc (HasAttribute a) f
    → (t : Text) → print_file w.flags f ≡ ok t
    → Contains t (proc_line label a.1)
proc_line_of w a label known (proc_file p) h t e =
    print_file-Contains w.flags a.0 a.1 label p known h e
proc_line_of w a label known (unlinked_file f) h t e = absurd h

module _ (env : Env) (fresh : ProcInfo) (f : Flags) (l : Listing)
    (lists : Lists env lsof_opts_default l) (ints : IsListing l) where
  abbrev w₁ : World
  w₁ = lsof_world env fresh lsof_opts_default l (started f) lists ints

  -- The keys in the map after the reader of the output of `lsof`.
  loaded_small : All (λ e. e.0 < 2 ^ 32) (loaded env l [])
  unfolding build
  loaded_small =
      let runs : build env fresh ((cphf_reader_lsof, lsof_opts_default) ∷ []) (started f) ≡ ok w₁ =
        rw (dig_loaded env fresh lsof_opts_default l (started f) lists ints) refl in
      All-weaken (loaded env l []) (λ e own. own.0)
        (Ensures-ok (WorldFormed env fresh) _
          (build-WorldFormed env fresh ((cphf_reader_lsof, lsof_opts_default) ∷ []) (started f)
            (tt, tt, tt))
          runs).2

  -- The reader of processes runs on what was loaded.
  procs_read :
      {w₂ : World}
      → build env fresh (first_diggers f) (started f) ≡ ok w₂
      → dig env fresh (cphf_reader_proc, f.proc_ops) w₁ ≡ ok w₂
  unfolding build
  procs_read e =
      let (w', e', done) =
        >>=-eq-ok (dig env fresh (cphf_reader_proc, f.proc_ops) w₁) _
          (rw (dig_loaded env fresh lsof_opts_default l (started f) lists ints) at e) in
      e' ∙ done

  -- A process that is listed has the attribute of each option, under its label.
  procs-HasAttribute :
      (pid c : ℕ) (known : IsKnown env pid) (a : Attribute) (label : Text) {w : World}
      → f.flags_okay ≡ true
      → is_no f.proc_ops ≡ false
      → build env fresh (diggers f) (started f) ≡ ok w
      → ListsProcess pid l
      → holds f.proc_ops c ≡ true
      → value env (own_record env pid known fresh) c ≡ ok a
      → proc_label a.0 ≡ some label
      → Any (λ e. HasAttribute a e.1) w.procs × (find_hash a.0 w.flags ≡ some label)
  procs-HasAttribute pid c known a label {w} okay wanted runs listed asked says labelled =
      let (w₂, e₁, e₂) =
        build_split env fresh (first_diggers f) (file_diggers f) (started f)
          (rw (diggers_with_procs f okay wanted) at runs) in
      let (x, reads, procs, flags) = dig_procs env fresh f.proc_ops w₁ (procs_read e₁) in
      let has : Any (λ e. HasAttribute a e.1) w₂.procs =
        subst (Any (λ e. HasAttribute a e.1)) procs (
          read-HasAttribute env f.proc_ops pid c fresh a known asked says fresh (loaded env l [])
            (listed-entry env l [] pid ints loaded_small listed) reads) in
      let announced =
        Ensures-ok _ _ (value-announced env (own_record env pid known fresh) c) says in
      let first : find_hash a.0 w₂.flags ≡ some label =
        build-Says_proc a.0 label env fresh (first_diggers f) (started f) labelled refl e₁
          (rw flags (ProcLabels.announced-IsLabelled w₁.flags a.0 announced)) in
      (
        Each-Any ProcGrows (HasAttribute a) (HasAttribute a) w₂.procs w.procs
            (λ p q g h. Contains-Any (λ b. b ≡ a) p.attributes q.attributes g.1 h)
            (Ensures-ok _ _ (build-Grows env fresh (file_diggers f) w₂ (file_diggers-NotLsof f)) e₂)
            has,
        Ensures-ok _ _ (build_keeps_label a.0 label env fresh (file_diggers f) w₂ first) e₂,
      )

module _ (env : Env) (fresh : ProcInfo) (options : List (ℕ × Text)) (l : Listing)
    (served : IsServed env) (accepted : IsAccepted (flags_of options))
    (lists : Lists env lsof_opts_default l) (ints : IsListing l) where
  -- On a system with memory, where the target of a link can be read or readlink fails, the owner
  -- and the group of each file that stat finds have an entry, and /proc/tty/drivers is not there or
  -- has its format, under options that are accepted and do not turn processes off, the run succeeds
  -- where lsof answers with a listing, with numbers that fit an int and other names that start with
  -- no digit and no sign; and for every process that is listed, of which /proc/<pid>/stat starts
  -- with the 47 fields that are scanned (numbers that fit their types, a name without white space
  -- and a state), whatever fields follow, and the executable is found, the report that it prints
  -- holds a line for every option for processes: what the case of the option reads of the new
  -- record with the values of those fields, and of no other process, under the label that the
  -- reader of processes announces for its id.
  pub main-DescribesProcess :
      (pid c : ℕ) (known : IsKnown env pid) (a : Attribute) (label : Text)
      → is_no (flags_of options).proc_ops ≡ false
      → ListsProcess pid l
      → holds (flags_of options).proc_ops c ≡ true
      → value env (own_record env pid known fresh) c ≡ ok a
      → proc_label a.0 ≡ some label
      → PrintsLine (proc_line label a.1) env fresh options
  main-DescribesProcess pid c known a label wanted listed asked says labelled =
      let f = flags_of options in
      let line = proc_line label a.1 in
      let (w, (report, printed, done), grows, first_label, runs) =
        main_runs env fresh options l served accepted lists ints (rw wanted refl) in
      let shown : shows_procs f ≡ true = unfold shows_procs in rw (accepted.0, wanted) refl in
      let (has, found) =
        procs-HasAttribute env fresh f l lists ints pid c known a label accepted.0 wanted runs
          listed asked says labelled in
      let objects = flatten_map (shows_procs f) (shows_files f) w.procs in
      let there : Any (IsProc (HasAttribute a)) objects =
        rw shown (flatten_map-IsProc (HasAttribute a) (shows_files f) w.procs has) in
      (
        w,
        report,
        done,
        print_files-Contains w.flags line objects
            (Any-weaken objects (proc_line_of w a label found) there) printed,
      )
