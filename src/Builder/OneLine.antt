-- ===== src/Builder/OneLine.antt =====
-- No reader that `build` of src/ProcFileEntryBuilder.cpp runs leaves a value with a newline, where the
-- system gives the program no text with one.
use cphf.Base.{
  ℕ, ◌≡◌, ◌≢◌, false, List, [], ◌∷◌, Ensures, Ensures->>=, Ensures-ok, ensures, All-weaken, inl,
  inr, arith, ok,
}
use cphf.Text.{Text, is_space}
use cphf.Text.Lines.{IsLine}
use cphf.Map.All.{AllValues}
use cphf.Files.{ProcMap}
use cphf.Files.Laws.{OfProcess}
use cphf.Printer.Reread.{OneLine}
use cphf.Env.{Env}
use cphf.Env.Lines.{GivesLines}
use cphf.Lsof
use cphf.Lsof.Attributes as LsofAttributes
use cphf.Lsof.Words.{IsWord}
use cphf.Proc
use cphf.Proc.{ProcStates}
use cphf.Proc.Stat.{ProcInfo}
use cphf.Proc.Attributes as ProcAttributes
use cphf.Proc.OneLine.{HasLines, NamedRecord, NamedReading, gives_lines}
use cphf.FileStat
use cphf.FileStat.Attributes as FileAttributes
use cphf.FileStat.OneLine.{process_option-IsLine}
use cphf.Builder.{
  World, DataDigger, initial, dig, build, init_txt_fd, lsof_reader, proc_reader, filestat_reader,
  run_reader, CphfReader,
}
use cphf.Builder.Readers.{new_reader-cases}

-- No value in the map has a newline.
abbrev pub IsOneLine : ProcMap → Type 0
IsOneLine = AllValues (OfProcess OneLine)

space-newline : (c : ℕ) → is_space c ≡ false → c ≢ b'\n'
space-newline c h = ground arith

word-IsOneLine : (w : Text) → IsWord w → IsLine w
word-IsOneLine w h = All-weaken w space-newline h

abbrev WorldOneLine : World → Type 0
WorldOneLine w = IsOneLine w.procs × HasLines w.states

abbrev ReadOneLine : ProcMap × ProcStates × List Text → Type 0
ReadOneLine x = IsOneLine x.0 × HasLines x.1

abbrev KeepsLines : CphfReader ProcStates → Type 0
KeepsLines cphfr =
    (options : Text) (states : ProcStates) (procs : ProcMap)
    → HasLines states
    → IsOneLine procs
    → Ensures ReadOneLine (cphfr.read options states procs)

module _ (env : Env) (fresh : ProcInfo) (gives : GivesLines env) (named : NamedRecord fresh) where
  lsof_reader-KeepsLines : KeepsLines (lsof_reader env)
  lsof_reader-KeepsLines options states procs j h =
      let txt_fd = init_txt_fd env.file_limit in
      Ensures->>= ReadOneLine (Lsof.read txt_fd env.lsof options procs) _ λ x e. (
        Ensures-ok (λ x. IsOneLine x.0) (Lsof.read txt_fd env.lsof options procs)
            (LsofAttributes.read-OfProcess txt_fd (λ a. IsLine a.1) word-IsOneLine tt env.lsof
              options procs h)
            e,
        j,
      )

  proc_reader-KeepsLines : KeepsLines (proc_reader env fresh)
  proc_reader-KeepsLines options states procs j h =
      ensures ReadOneLine (Proc.read env fresh states options procs) λ x e.
        let (all, (info, r)) =
          Ensures-ok _ (Proc.read env fresh states options procs)
            (ProcAttributes.read-OfProcess env (λ a. IsLine a.1) NamedReading
              (gives_lines env gives) fresh states options procs (named, j) h)
            e in
        (all, r.1)

  filestat_reader-KeepsLines : KeepsLines (filestat_reader env)
  filestat_reader-KeepsLines options states procs j h =
      let txt_fd = init_txt_fd env.file_limit in
      Ensures->>= ReadOneLine (FileStat.read env txt_fd options procs) _ λ m e. (
        Ensures-ok IsOneLine (FileStat.read env txt_fd options procs)
            (FileAttributes.read-OfProcess env (λ a. IsLine a.1) (process_option-IsLine env gives)
              txt_fd options procs h)
            e,
        j,
      )

  dig-WorldOneLine :
      (reader : ℕ) (options : Text) (w : World)
      → WorldOneLine w
      → Ensures WorldOneLine (dig env fresh (reader, options) w)
  unfolding dig run_reader
  dig-WorldOneLine reader options w h =
      elim (new_reader-cases KeepsLines env fresh reader lsof_reader-KeepsLines
        proc_reader-KeepsLines filestat_reader-KeepsLines) [
          | inl e ↦ rw (dig, e) h
          | inr (cphfr, e, keeps) ↦
              rw (dig, e)
                (Ensures->>= WorldOneLine (cphfr.read options w.states w.procs) _ λ x e'.
                  Ensures-ok ReadOneLine (cphfr.read options w.states w.procs)
                    (keeps options w.states w.procs h.1 h.0) e')
        ]

  build-WorldOneLine :
      (diggers : List DataDigger) (w : World)
      → WorldOneLine w
      → Ensures WorldOneLine (build env fresh diggers w)
  unfolding build
  build-WorldOneLine [] w h = h
  build-WorldOneLine ((reader, options) ∷ diggers) w h =
      Ensures->>= WorldOneLine (dig env fresh (reader, options) w) _ λ w' e.
        build-WorldOneLine diggers w'
          (Ensures-ok WorldOneLine _ (dig-WorldOneLine reader options w h) e)

  initial-WorldOneLine : (lines : List Text) → WorldOneLine (record initial { lines = lines })
  initial-WorldOneLine lines = ground arith

  pub build-IsOneLine :
      (diggers : List DataDigger) (lines : List Text) {w : World}
      → build env fresh diggers (record initial { lines = lines }) ≡ ok w
      → IsOneLine w.procs
  build-IsOneLine diggers lines e =
      (Ensures-ok WorldOneLine _
        (build-WorldOneLine diggers (record initial { lines = lines }) (initial-WorldOneLine lines))
        e).0
