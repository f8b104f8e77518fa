-- ===== src/Builder/Keeps.antt =====
-- What a whole run of `build` of src/ProcFileEntryBuilder.cpp, with any readers, leaves of the processes.
use cphf.Base.{ℕ, ◌≡◌, List, [], ◌∷◌, ok, Ensures, Ensures->>=, Ensures-ok, ensures, inl, inr}
use cphf.Text.{Text}
use cphf.Files.Grows.{Grows}
use cphf.Files.Keeps.{Keeps, Keeps-refl, Keeps-trans, Grows-Keeps}
use cphf.Env.{Env}
use cphf.Lsof
use cphf.Lsof.Keeps as LsofKeeps
use cphf.Proc
use cphf.Proc.Stat.{ProcInfo}
use cphf.Proc.Grows as ProcGrowth
use cphf.FileStat
use cphf.FileStat.Grows as FileGrowth
use cphf.Builder.{
  World, DataDigger, dig, build, init_txt_fd, CphfReader, lsof_reader, proc_reader, filestat_reader,
  run_reader, ProcMap, ProcStates,
}
use cphf.Builder.Readers.{new_reader-cases}

abbrev WorldKeeps : World → World → Type 0
WorldKeeps w w' = Keeps w.procs w'.procs

abbrev KeepsFound : CphfReader ProcStates → Type 0
KeepsFound cphfr =
    (options : Text) (states : ProcStates) (procs : ProcMap)
    → Ensures (λ x. Keeps procs x.0) (cphfr.read options states procs)

module _ (env : Env) (fresh : ProcInfo) where
  lsof_reader-KeepsFound : KeepsFound (lsof_reader env)
  lsof_reader-KeepsFound options states procs =
      let txt_fd = init_txt_fd env.file_limit in
      let Q = λ (x : ProcMap × ProcStates × List Text). Keeps procs x.0 in
      Ensures->>= Q (Lsof.read txt_fd env.lsof options procs) _ λ x e.
        Ensures-ok (λ x. Keeps procs x.0) (Lsof.read txt_fd env.lsof options procs)
          (LsofKeeps.read-Keeps txt_fd env.lsof options procs) e

  proc_reader-KeepsFound : KeepsFound (proc_reader env fresh)
  proc_reader-KeepsFound options states procs =
      ensures (λ x. Keeps procs x.0) (Proc.read env fresh states options procs)
        λ x e. Grows-Keeps procs x.0 (
          Ensures-ok (λ x. Grows procs x.0) (Proc.read env fresh states options procs)
            (ProcGrowth.read-Grows env fresh states options procs) e)

  filestat_reader-KeepsFound : KeepsFound (filestat_reader env)
  filestat_reader-KeepsFound options states procs =
      let txt_fd = init_txt_fd env.file_limit in
      let Q = λ (x : ProcMap × ProcStates × List Text). Keeps procs x.0 in
      Ensures->>= Q (FileStat.read env txt_fd options procs) _ λ m e. Grows-Keeps procs m (
        Ensures-ok (Grows procs) (FileStat.read env txt_fd options procs)
          (FileGrowth.read-Grows env txt_fd options procs) e)

  dig-WorldKeeps :
      (reader : ℕ) (options : Text) (w : World)
      → Ensures (WorldKeeps w) (dig env fresh (reader, options) w)
  unfolding dig run_reader
  dig-WorldKeeps reader options w =
      elim (new_reader-cases KeepsFound env fresh reader lsof_reader-KeepsFound
        proc_reader-KeepsFound filestat_reader-KeepsFound) [
          | inl e ↦ rw (dig, e) (Keeps-refl w.procs)
          | inr (cphfr, e, keeps) ↦
              rw (dig, e)
                (Ensures->>= (WorldKeeps w) (cphfr.read options w.states w.procs) _ λ x e'.
                  Ensures-ok (λ x. Keeps w.procs x.0) (cphfr.read options w.states w.procs)
                    (keeps options w.states w.procs) e')
        ]

  build-WorldKeeps :
      (diggers : List DataDigger) (w : World) → Ensures (WorldKeeps w) (build env fresh diggers w)
  unfolding build
  build-WorldKeeps [] w = Keeps-refl w.procs
  build-WorldKeeps ((reader, options) ∷ ds) w =
      Ensures->>= (WorldKeeps w) (dig env fresh (reader, options) w) _ λ w₁ e.
        ensures (WorldKeeps w) (build env fresh ds w₁) λ w₂ e'.
          Keeps-trans w.procs w₁.procs w₂.procs
            (Ensures-ok (WorldKeeps w) _ (dig-WorldKeeps reader options w) e)
            (Ensures-ok (WorldKeeps w₁) _ (build-WorldKeeps ds w₁) e')

-- Whatever readers run, that of the output of lsof among them, in whatever order and as often as
-- they may, and whatever lsof writes: every process that is in the map before a run that succeeds is
-- in it afterwards under the same id, the attributes that it had standing together, in their order,
-- among those that it has, and so is every file of it under its number, with the same path and
-- numbers and, in the same way, its attributes.
pub build-Keeps :
    (env : Env) (fresh : ProcInfo) (diggers : List DataDigger) (w : World) {w' : World}
    → build env fresh diggers w ≡ ok w'
    → Keeps w.procs w'.procs
build-Keeps env fresh diggers w e =
    Ensures-ok (WorldKeeps w) _ (build-WorldKeeps env fresh diggers w) e
