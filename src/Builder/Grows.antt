-- ===== src/Builder/Grows.antt =====
-- What the readers that `build` of src/ProcFileEntryBuilder.cpp runs leave of the processes.
use cphf.Base.{
  ℕ, ◌≡◌, ◌≢◌, List, [], ◌∷◌, ok, All, Ensures, Ensures->>=, Ensures-ok, ensures, inl, inr,
}
use cphf.Text.{Text}
use cphf.Files.Grows.{Grows, Grows-refl, Grows-trans}
use cphf.Env.{Env}
use cphf.Proc.Grows as ProcGrowth
use cphf.Proc.Stat.{ProcInfo}
use cphf.FileStat
use cphf.FileStat.Grows as FileGrowth
use cphf.Builder.Readers.{new_reader-other}
use cphf.Builder.{
  World, DataDigger, dig, build, init_txt_fd, cphf_reader_lsof, CphfReader, filestat_reader,
  run_reader, ProcMap, ProcStates,
}

abbrev WorldGrows : World → World → Type 0
WorldGrows w w' = Grows w.procs w'.procs

-- A reader loses and moves nothing.
abbrev pub KeepsProcesses : CphfReader ProcStates → Type 0
KeepsProcesses cphfr =
    (options : Text) (states : ProcStates) (procs : ProcMap)
    → Ensures (λ x. Grows procs x.0) (cphfr.read options states procs)

pub filestat_reader-KeepsProcesses : (env : Env) → KeepsProcesses (filestat_reader env)
filestat_reader-KeepsProcesses env options states procs =
    let txt_fd = init_txt_fd env.file_limit in
    let Q = λ (x : ProcMap × ProcStates × List Text). Grows procs x.0 in
    Ensures->>= Q (FileStat.read env txt_fd options procs) _ λ m e.
      Ensures-ok (Grows procs) (FileStat.read env txt_fd options procs)
        (FileGrowth.read-Grows env txt_fd options procs) e

dig-WorldGrows :
    (env : Env) (fresh : ProcInfo) (reader : ℕ) (options : Text) (w : World)
    → reader ≢ cphf_reader_lsof
    → Ensures (WorldGrows w) (dig env fresh (reader, options) w)
unfolding dig run_reader
dig-WorldGrows env fresh reader options w other =
    elim (new_reader-other KeepsProcesses env fresh reader other
      (λ options' states procs. ProcGrowth.read-Grows env fresh states options' procs)
      (filestat_reader-KeepsProcesses env)) [
        | inl e ↦ rw (dig, e) (Grows-refl w.procs)
        | inr (cphfr, e, keeps) ↦
            rw (dig, e)
              (Ensures->>= (WorldGrows w) (cphfr.read options w.states w.procs) _ λ x e'.
                Ensures-ok (λ x. Grows w.procs x.0) (cphfr.read options w.states w.procs)
                  (keeps options w.states w.procs) e')
      ]

-- No reader but that of `lsof` loses or moves anything: the processes stay in their order, each with
-- its id and its files in theirs, every file with its path and its numbers, and the attributes that
-- a process or a file had stand together, in their order, among those that it has.
pub dig-Grows :
    (env : Env) (fresh : ProcInfo) (reader : ℕ) (options : Text) (w : World) {w' : World}
    → reader ≢ cphf_reader_lsof
    → dig env fresh (reader, options) w ≡ ok w'
    → Grows w.procs w'.procs
dig-Grows env fresh reader options w other e =
    Ensures-ok (WorldGrows w) _ (dig-WorldGrows env fresh reader options w other) e

abbrev pub NotLsof : List DataDigger → Type 0
NotLsof = All (λ d. d.0 ≢ cphf_reader_lsof)

pub build-Grows :
    (env : Env) (fresh : ProcInfo) (diggers : List DataDigger) (w : World)
    → NotLsof diggers
    → Ensures (WorldGrows w) (build env fresh diggers w)
unfolding build
build-Grows env fresh [] w h = Grows-refl w.procs
build-Grows env fresh ((reader, options) ∷ ds) w h =
    Ensures->>= (WorldGrows w) (dig env fresh (reader, options) w) _ λ w₁ e.
      ensures (WorldGrows w) (build env fresh ds w₁) λ w₂ e'.
        Grows-trans w.procs w₁.procs w₂.procs (dig-Grows env fresh reader options w h.0 e)
          (Ensures-ok (WorldGrows w₁) _ (build-Grows env fresh ds w₁ h.1) e')
