-- ===== src/Builder/WellFormed.antt =====
-- The order, the numbers and the paths of what the readers that `build` of src/ProcFileEntryBuilder.cpp
-- runs have found.
use cphf.Base.{ℕ, ◌≡◌, List, [], ◌∷◌, ok, All, Ensures, Ensures->>=, Ensures-ok, ensures, inl, inr}
use cphf.Text.{Text}
use cphf.Map.Entries.{AllValues-All, All-AllValues}
use cphf.Files.{ProcMap}
use cphf.Files.Grows.{Grows}
use cphf.Files.WellFormed.{IsOwn, IsWellFormed, Grows-IsWellFormed}
use cphf.Env.{Env}
use cphf.Lsof
use cphf.Lsof.{buffered_read}
use cphf.Lsof.Own.{buffered_read-IsOwn}
use cphf.Lsof.Sorted.{FilesOrdered, buffered_read-IsSorted}
use cphf.Lsof.Whole.{read-Ensures}
use cphf.Proc.{ProcStates}
use cphf.Proc.Stat.{ProcInfo}
use cphf.Proc.Grows as ProcGrowth
use cphf.Builder.{
  World, DataDigger, initial, dig, build, init_txt_fd, lsof_reader, proc_reader, filestat_reader,
  run_reader, CphfReader,
}
use cphf.Builder.Readers.{new_reader-cases}
use cphf.Builder.Grows.{KeepsProcesses, filestat_reader-KeepsProcesses}

buffered_read-IsWellFormed :
    (txt_fd : ℕ) (s : Text) (procs : ProcMap)
    → IsWellFormed txt_fd procs
    → Ensures (IsWellFormed txt_fd) (buffered_read txt_fd s procs)
buffered_read-IsWellFormed txt_fd s procs (sorted, files, own) =
    ensures (IsWellFormed txt_fd) (buffered_read txt_fd s procs) λ m e.
      let (sorted', files') =
        buffered_read-IsSorted txt_fd s procs sorted (All-AllValues FilesOrdered procs files) e in
      (
        sorted',
        AllValues-All FilesOrdered m files',
        Ensures-ok (All (IsOwn txt_fd)) (buffered_read txt_fd s procs)
            (buffered_read-IsOwn txt_fd s procs own) e,
      )

module _ (env : Env) (fresh : ProcInfo) where
  abbrev txt_fd : ℕ
  txt_fd = init_txt_fd env.file_limit

  abbrev KeepsForm : CphfReader ProcStates → Type 0
  KeepsForm cphfr =
      (options : Text) (states : ProcStates) (procs : ProcMap)
      → IsWellFormed txt_fd procs
      → Ensures (λ x. IsWellFormed txt_fd x.0) (cphfr.read options states procs)

  lsof_reader-KeepsForm : KeepsForm (lsof_reader env)
  lsof_reader-KeepsForm options states procs h =
      let Q = λ (x : ProcMap × ProcStates × List Text). IsWellFormed txt_fd x.0 in
      Ensures->>= Q (Lsof.read txt_fd env.lsof options procs) _ λ x e.
        Ensures-ok (λ x. IsWellFormed txt_fd x.0) (Lsof.read txt_fd env.lsof options procs)
          (read-Ensures txt_fd (IsWellFormed txt_fd) procs h
            (λ s. buffered_read-IsWellFormed txt_fd s procs h) env.lsof options)
          e

  -- A reader that adds attributes alone.
  KeepsProcesses-KeepsForm :
      (cphfr : CphfReader ProcStates) → KeepsProcesses cphfr → KeepsForm cphfr
  KeepsProcesses-KeepsForm cphfr keeps options states procs h =
      ensures (λ x. IsWellFormed txt_fd x.0) (cphfr.read options states procs)
        λ x e.
          Grows-IsWellFormed txt_fd procs x.0
            (Ensures-ok (λ x. Grows procs x.0) (cphfr.read options states procs)
              (keeps options states procs) e)
            h

  abbrev pub WorldFormed : World → Type 0
  WorldFormed w = IsWellFormed txt_fd w.procs

  dig-WorldFormed :
      (reader : ℕ) (options : Text) (w : World)
      → WorldFormed w
      → Ensures WorldFormed (dig env fresh (reader, options) w)
  unfolding dig run_reader
  dig-WorldFormed reader options w h =
      elim (new_reader-cases KeepsForm env fresh reader lsof_reader-KeepsForm
        (KeepsProcesses-KeepsForm (proc_reader env fresh)
          (λ options' states procs. ProcGrowth.read-Grows env fresh states options' procs))
        (KeepsProcesses-KeepsForm (filestat_reader env) (filestat_reader-KeepsProcesses env))) [
          | inl e ↦ rw (dig, e) h
          | inr (cphfr, e, keeps) ↦
              rw (dig, e)
                (Ensures->>= WorldFormed (cphfr.read options w.states w.procs) _ λ x e'.
                  Ensures-ok (λ x. IsWellFormed txt_fd x.0) (cphfr.read options w.states w.procs)
                    (keeps options w.states w.procs h) e')
        ]

  pub build-WorldFormed :
      (diggers : List DataDigger) (w : World)
      → WorldFormed w
      → Ensures WorldFormed (build env fresh diggers w)
  unfolding build
  build-WorldFormed [] w h = h
  build-WorldFormed ((reader, options) ∷ diggers) w h =
      Ensures->>= WorldFormed (dig env fresh (reader, options) w) _ λ w' e.
        build-WorldFormed diggers w'
          (Ensures-ok WorldFormed _ (dig-WorldFormed reader options w h) e)

-- Whatever readers run from the start, in any number and order, and whatever lsof writes and the
-- system answers, a run that succeeds leaves the processes in the order of their ids, each id once;
-- each process holds the id that it stands under, and its files in the order of their numbers, each
-- number once; and each file holds the number that it stands under, the id of its process, and a
-- path made from that id and from a number of which its own is the last 32 bits: that of the
-- executable where the number is above ULF_TXT_FD, and that of the descriptor else.
pub build-IsWellFormed :
    (env : Env) (fresh : ProcInfo) (diggers : List DataDigger) {w : World}
    → build env fresh diggers initial ≡ ok w
    → IsWellFormed (init_txt_fd env.file_limit) w.procs
build-IsWellFormed env fresh diggers e =
    Ensures-ok (WorldFormed env fresh) _ (build-WorldFormed env fresh diggers initial (tt, tt, tt))
      e
