-- ===== src/Builder/Labels.antt =====
-- The labels of the attributes in the report: `build` of src/ProcFileEntryBuilder.cpp and
-- `printFiles` of src/PrettyPrinter.cpp.
use cphf.Base.{
  ℕ, ◌≡◌, refl, Bool, List, [], ◌∷◌, ◌++◌, ok, All, Ensures, Ensures->>=, Ensures-ok, replicate,
  inl, inr,
}
use cphf.Text.{Text, codes}
use cphf.Common.{AttributeFlags, Attribute}
use cphf.Common.Id
use cphf.Common.Label
use cphf.Map.All.{AllValues}
use cphf.Files.{ProcFile, ProcMap, CphfFile, proc_file, unlinked_file}
use cphf.Files.Laws.{
  insert_all, insert_all-Extends, insert_all-IsLabelled, Extends, IsLabelled, ProcLabelled,
  ProcsLabelled-Extends, print_attributes_total, AttributesLabelled,
}
use cphf.Env.{Env}
use cphf.Lsof
use cphf.Lsof.{Child, pipe_failed, fork_failed, writes, wait_for, buffered_read}
use cphf.Lsof.Attributes as LsofAttributes
use cphf.FileStat
use cphf.FileStat.Labels as FileLabels
use cphf.Proc.Labels as ProcLabels
use cphf.Proc.Stat.{ProcInfo}
use cphf.Printer.{print_file, print_files, proc_line, file_line}
use cphf.Builder.{
  World, DataDigger, initial, dig, build, flatten_map, init_txt_fd, CphfReader, filestat_reader,
  lsof_reader, proc_reader, run_reader, ProcStates,
}
use cphf.Builder.Readers.{new_reader-cases}
use cphf.Builder.Flatten.{flatten_map-OfObject}
use cphf.Files.Laws.{OfObject}

abbrev pub lsof_announced : List Attribute
lsof_announced = (Id.fd, Label.fd) ∷ (Id.flags, Label.flags) ∷ (Id.pid, Label.pid) ∷ []

pub lsof_create-insert_all :
    (flags : AttributeFlags) → Lsof.create_attrib_map flags ≡ insert_all lsof_announced flags
unfolding Lsof.create_attrib_map insert_all
lsof_create-insert_all flags = refl

lsof_create-Extends : (flags : AttributeFlags) → Extends flags (Lsof.create_attrib_map flags)
lsof_create-Extends flags id h =
    rw (lsof_create-insert_all flags) (insert_all-Extends lsof_announced flags id h)

module _ (flags : AttributeFlags) (txt_fd : ℕ) where
  abbrev Labelled : ProcFile → Type 0
  Labelled = ProcLabelled (Lsof.create_attrib_map flags)

  pid-IsLabelled : IsLabelled (Lsof.create_attrib_map flags) Id.pid
  pid-IsLabelled =
      rw (lsof_create-insert_all flags) (insert_all-IsLabelled lsof_announced flags Id.pid refl)

  flags-IsLabelled : IsLabelled (Lsof.create_attrib_map flags) Id.flags
  flags-IsLabelled =
      rw (lsof_create-insert_all flags) (insert_all-IsLabelled lsof_announced flags Id.flags refl)

  lsof_read-Labelled :
      (child : List Text → Child) (options : Text) (procs : ProcMap)
      → AllValues Labelled procs
      → Ensures (λ x. AllValues Labelled x.0) (Lsof.read txt_fd child options procs)
  lsof_read-Labelled =
      LsofAttributes.read-OfProcess txt_fd (λ a. IsLabelled (Lsof.create_attrib_map flags) a.0)
        (λ w word. pid-IsLabelled) flags-IsLabelled

-- A reader adds labels only, and sets no attribute that they lack.
abbrev pub KeepsLabels : CphfReader ProcStates → Type 0
KeepsLabels cphfr =
    (flags : AttributeFlags) (options : Text) (states : ProcStates) (procs : ProcMap)
    → Extends flags (cphfr.create_attrib_map flags)
      × (AllValues (ProcLabelled (cphfr.create_attrib_map flags)) procs
          → Ensures (λ x. AllValues (ProcLabelled (cphfr.create_attrib_map flags)) x.0)
              (cphfr.read options states procs))

lsof_reader-KeepsLabels : (env : Env) → KeepsLabels (lsof_reader env)
lsof_reader-KeepsLabels env flags options states procs =
    let txt_fd = init_txt_fd env.file_limit in
    let Q = λ (x : ProcMap × ProcStates × List Text).
      AllValues (ProcLabelled (Lsof.create_attrib_map flags)) x.0 in
    (
      lsof_create-Extends flags,
      λ h. Ensures->>= Q (Lsof.read txt_fd env.lsof options procs) _ λ x e.
          Ensures-ok (λ x. AllValues (ProcLabelled (Lsof.create_attrib_map flags)) x.0) _
            (lsof_read-Labelled flags txt_fd env.lsof options procs h) e,
    )

proc_reader-KeepsLabels : (env : Env) (fresh : ProcInfo) → KeepsLabels (proc_reader env fresh)
proc_reader-KeepsLabels env fresh flags options states procs = (
  ProcLabels.create_attrib_map-Extends flags,
  ProcLabels.read-Labelled flags env fresh states options procs,
)

filestat_reader-KeepsLabels : (env : Env) → KeepsLabels (filestat_reader env)
filestat_reader-KeepsLabels env flags options states procs =
    let txt_fd = init_txt_fd env.file_limit in
    let Q = λ (x : ProcMap × ProcStates × List Text).
      AllValues (ProcLabelled (FileStat.create_attrib_map flags)) x.0 in
    (
      FileLabels.create_attrib_map-Extends flags,
      λ h. Ensures->>= Q (FileStat.read env txt_fd options procs) _ λ m e.
          Ensures-ok (AllValues (ProcLabelled (FileStat.create_attrib_map flags))) _
            (FileLabels.read-Labelled flags env txt_fd options procs h) e,
    )

abbrev pub WorldLabelled : World → Type 0
WorldLabelled w = AllValues (ProcLabelled w.flags) w.procs

run_reader-WorldLabelled :
    (cphfr : CphfReader ProcStates) (options : Text) (w : World)
    → KeepsLabels cphfr
    → WorldLabelled w
    → Ensures WorldLabelled (run_reader cphfr options w)
unfolding run_reader
run_reader-WorldLabelled cphfr options w keeps h =
    let (more, reads) = keeps w.flags options w.states w.procs in
    Ensures->>= WorldLabelled (cphfr.read options w.states w.procs) _ λ x e.
      Ensures-ok (λ x. AllValues (ProcLabelled (cphfr.create_attrib_map w.flags)) x.0) _
        (reads (ProcsLabelled-Extends w.flags _ more w.procs h)) e

dig-WorldLabelled :
    (env : Env) (fresh : ProcInfo) (d : DataDigger) (w : World)
    → WorldLabelled w
    → Ensures WorldLabelled (dig env fresh d w)
unfolding dig
dig-WorldLabelled env fresh (reader, options) w h =
    elim (new_reader-cases KeepsLabels env fresh reader (lsof_reader-KeepsLabels env)
      (proc_reader-KeepsLabels env fresh) (filestat_reader-KeepsLabels env)) [
        | inl e ↦ rw (dig, e) h
        | inr (cphfr, e, keeps) ↦ rw (dig, e) (run_reader-WorldLabelled cphfr options w keeps h)
      ]

-- Readers in any number and order leave every attribute with a label.
pub build-WorldLabelled :
    (env : Env) (fresh : ProcInfo) (diggers : List DataDigger) (w : World)
    → WorldLabelled w
    → Ensures WorldLabelled (build env fresh diggers w)
unfolding build
build-WorldLabelled env fresh [] w h = h
build-WorldLabelled env fresh (d ∷ ds) w h = Ensures->>= WorldLabelled (dig env fresh d w) _ λ w' e.
    build-WorldLabelled env fresh ds w'
      (Ensures-ok WorldLabelled _ (dig-WorldLabelled env fresh d w h) e)

print_file_total :
    (flags : AttributeFlags) (f : CphfFile)
    → OfObject (AttributesLabelled flags) f
    → (text : Text) × (print_file flags f ≡ ok text)
unfolding print_file
print_file_total flags (proc_file p) h =
    let (lines, e) = print_attributes_total flags proc_line p.attributes h in
    (replicate 80 b'=' ++ codes "\n" ++ lines ++ codes "\n", rw e)
print_file_total flags (unlinked_file f) h =
    let (lines, e) = print_attributes_total flags file_line f.attributes h in
    (lines ++ codes "\n", rw e)

pub print_files_total :
    (flags : AttributeFlags) (fs : List CphfFile)
    → All (OfObject (AttributesLabelled flags)) fs
    → (text : Text) × (print_files flags fs ≡ ok text)
unfolding print_files
print_files_total flags [] h = ([], refl)
print_files_total flags (f ∷ fs) h =
    let (text, e) = print_file_total flags f h.0 in
    let (rest, e') = print_files_total flags fs h.1 in (text ++ rest, rw (e, e'))

-- After any readers have run from the start, the whole report is printed: no attribute in it lacks
-- a label, so that `at` never throws.
pub print_files-build :
    (env : Env) (fresh : ProcInfo) (diggers : List DataDigger) (procs files : Bool) {w : World}
    → build env fresh diggers initial ≡ ok w
    → (text : Text) × (print_files w.flags (flatten_map procs files w.procs) ≡ ok text)
print_files-build env fresh diggers procs files {w} e =
    print_files_total w.flags (flatten_map procs files w.procs) (
      flatten_map-OfObject (AttributesLabelled w.flags) procs files w.procs
        (Ensures-ok WorldLabelled _ (build-WorldLabelled env fresh diggers initial tt) e))
