-- ===== src/Proc/Attributes.antt =====
-- What holds of every attribute that `processOpiton` of src/ProcReader.cpp gives holds of every
-- attribute of the processes after the reader, if it held before.
use cphf.Base.{ℕ, List, [], ◌∷◌, Ensures, Ensures->>=, Ensures-ok, Ensures-if, All}
use cphf.Text.{Text}
use cphf.Common.{Attribute}
use cphf.Map.{Map, int_less}
use cphf.Map.All.{AllValues, insert-All}
use cphf.Files.{ProcFile, ProcMap, add_proc_attribute}
use cphf.Files.Laws.{OfProcess, add_proc_attribute-OfProcess}
use cphf.Env.{Env}
use cphf.Proc.Stat.{ProcInfo, read_proc_stat}
use cphf.Proc.{
  ProcReading, ProcStates, process_option, collect, add_reader, run_readers, fill_process,
  read_process, read_processes, read,
}

-- A property `Q` of attributes, as long as `J` holds of the record and the table of states.
pub record Gives (env : Env) (Q : Attribute → Type 0) (J : ProcReading → Type 0) : Type 0 where
  pub sets : (c : ℕ) (r : ProcReading) → J r → Ensures (λ a. Q a.0 × J a.1) (process_option env c r)
  pub turns :
      (pid : ℕ) (r : ProcReading) → J r → J (record r { info = record r.info { pid = pid } })
  pub scans :
      (pid : ℕ) (r : ProcReading) → J r → J (record r { info = (read_proc_stat env pid r.info).1 })

module _ (env : Env) (Q : Attribute → Type 0) (J : ProcReading → Type 0) (G : Gives env Q J) where
  add_reader-All : (a : Attribute) (m : Map ℕ Text) → Q a → All Q m → All Q (add_reader a m)
  unfolding add_reader
  add_reader-All a m h all = insert-All Q int_less a.0 a.1 m h all

  pub collect-All :
      (options : Text) (r : ProcReading) (m : Map ℕ Text)
      → J r
      → All Q m
      → Ensures (λ c. All Q c.0 × J c.1) (collect env options r m)
  unfolding collect
  collect-All [] r m j all = (all, j)
  collect-All (c ∷ options) r m j all =
      Ensures->>= (λ c. All Q c.0 × J c.1) (process_option env c r) _
        λ a e.
          let (q, j') = Ensures-ok (λ a. Q a.0 × J a.1) (process_option env c r) (G.sets c r j) e in
          collect-All options a.1 (add_reader a.0 m) j' (add_reader-All a.0 m q all)

  abbrev pub Has : ProcFile → Type 0
  Has = OfProcess (All Q)

  run_readers-Has :
      (m : Map ℕ Text) (p : ProcFile) → All Q m → Has p → Ensures Has (run_readers m p)
  unfolding run_readers
  run_readers-Has [] p all h = h
  run_readers-Has ((id, value) ∷ m) p all h =
      Ensures->>= Has (add_proc_attribute id value p) _ λ p' e. run_readers-Has m p' all.1 (
        Ensures-ok Has (add_proc_attribute id value p)
          (add_proc_attribute-OfProcess Q id value p all.0 h) e)

  fill_process-Has :
      (options : Text) (pid : ℕ) (p : ProcFile) (r : ProcReading)
      → J r
      → Has p
      → Ensures (λ x. Has x.0 × J x.1) (fill_process env options pid p r)
  unfolding fill_process
  fill_process-Has options pid p r j h =
      let r₁ : ProcReading = record r { info = record r.info { pid = pid } } in
      let S = λ (x : ProcFile × ProcReading). Has x.0 × J x.1 in
      Ensures->>= S (collect env options r₁ []) _ λ c e.
        let (all, j') =
          Ensures-ok (λ c. All Q c.0 × J c.1) (collect env options r₁ [])
            (collect-All options r₁ [] (G.turns pid r j) tt) e in
        Ensures->>= S (run_readers c.0 p) _
          λ p' e'. (Ensures-ok Has (run_readers c.0 p) (run_readers-Has c.0 p all h) e', j')

  pub read_process-Has :
      (options : Text) (pid : ℕ) (p : ProcFile) (r : ProcReading)
      → J r
      → Has p
      → Ensures (λ x. Has x.0 × J x.1) (read_process env options pid p r)
  unfolding read_process
  read_process-Has options pid p r j h =
      let r₁ : ProcReading = record r { info = (read_proc_stat env pid r.info).1 } in
      let S = λ (x : ProcFile × ProcReading × List Text). Has x.0 × J x.1 in
      let j₁ = G.scans pid r j in
      Ensures-if S (read_proc_stat env pid r.info).0 _ _
        (Ensures->>= S (fill_process env options pid p r₁) _ λ filled e.
          Ensures-ok (λ x. Has x.0 × J x.1) (fill_process env options pid p r₁)
            (fill_process-Has options pid p r₁ j₁ h) e)
        (h, j₁)

  read_processes-Has :
      (options : Text) (procs : ProcMap) (r : ProcReading)
      → J r
      → AllValues Has procs
      → Ensures (λ x. AllValues Has x.0 × J x.1) (read_processes env options procs r)
  unfolding read_processes
  read_processes-Has options [] r j h = (tt, j)
  read_processes-Has options ((pid, p) ∷ procs) r j h =
      let S = λ (x : ProcMap × ProcReading × List Text). AllValues Has x.0 × J x.1 in
      Ensures->>= S (read_process env options pid p r) _ λ x e.
        let (has, j₁) =
          Ensures-ok (λ x. Has x.0 × J x.1) (read_process env options pid p r)
            (read_process-Has options pid p r j h.0) e in
        Ensures->>= S (read_processes env options procs x.1) _ λ y e'.
          let (rest, j₂) =
            Ensures-ok (λ x. AllValues Has x.0 × J x.1) (read_processes env options procs x.1)
              (read_processes-Has options procs x.1 j₁ h.1) e' in
          ((has, rest), j₂)

  pub read-OfProcess :
      (fresh : ProcInfo) (states : ProcStates) (options : Text) (procs : ProcMap)
      → J (record { info = fresh; states = states })
      → AllValues (OfProcess (All Q)) procs
      → Ensures
          (λ x.
            AllValues (OfProcess (All Q)) x.0
            × ((info : ProcInfo) × J (record { info = info; states = x.1 })))
          (read env fresh states options procs)
  unfolding read
  read-OfProcess fresh states options procs j h =
      let r : ProcReading = record { info = fresh; states = states } in
      let S = λ (x : ProcMap × ProcStates × List Text).
        AllValues Has x.0 × ((info : ProcInfo) × J (record { info = info; states = x.1 })) in
      Ensures->>= S (read_processes env options procs r) _ λ x e.
        let (has, j') =
          Ensures-ok (λ x. AllValues Has x.0 × J x.1) (read_processes env options procs r)
            (read_processes-Has options procs r j h) e in
        (has, (x.1.info, j'))
