-- ===== src/Proc/Grows.antt =====
-- What the reader of src/ProcReader.cpp leaves of the processes.
use cphf.Base.{
  ℕ, ◌≡◌, ◌≢◌, refl, true, List, [], ◌∷◌, ok, Ensures, Ensures->>=, Ensures-ok, Ensures-if, arith,
}
use cphf.Text.{Text}
use cphf.Common.Id
use cphf.Map.{Map}
use cphf.Files.{ProcFile, ProcMap}
use cphf.Files.Laws.{has_key}
use cphf.Files.Grows.{
  ProcGrows, ProcGrows-refl, ProcGrows-trans, Grows, add_proc_attribute-ProcGrows,
}
use cphf.Env.{Env}
use cphf.Proc.Stat.{ProcInfo, read_proc_stat}
use cphf.Proc.{
  ProcReading, ProcStates, run_readers, fill_process, read_process, read_processes, read, collect,
}
use cphf.Proc.Labels.{announced, AllAnnounced, collect-AllAnnounced}

-- The id of the process is none of those that the reader sets.
announced_other : (id : ℕ) → has_key id announced ≡ true → id ≢ Id.pid
announced_other id h = ground arith

-- The closures all run: none of them changes the id, which is the one that could go wrong.
pub run_readers-ProcGrows :
    (m : Map ℕ Text) (p : ProcFile)
    → AllAnnounced m
    → (p' : ProcFile) × (run_readers m p ≡ ok p') × ProcGrows p p'
unfolding run_readers
run_readers-ProcGrows [] p all = (p, refl, ProcGrows-refl p)
run_readers-ProcGrows ((id, value) ∷ m) p all =
    let (p₁, e₁, g₁) = add_proc_attribute-ProcGrows id value p (announced_other id all.0) in
    let (p₂, e₂, g₂) = run_readers-ProcGrows m p₁ all.1 in
    (p₂, rw e₁ e₂, ProcGrows-trans p p₁ p₂ g₁ g₂)

fill_process-ProcGrows :
    (env : Env) (options : Text) (pid : ℕ) (p : ProcFile) (r : ProcReading)
    → Ensures (λ x. ProcGrows p x.0) (fill_process env options pid p r)
unfolding fill_process
fill_process-ProcGrows env options pid p r =
    let Q = λ (x : ProcFile × ProcReading). ProcGrows p x.0 in
    let r₁ : ProcReading = record r { info = record r.info { pid = pid } } in
    Ensures->>= Q (collect env options r₁ []) _ λ c e.
      let all : AllAnnounced c.0 =
        Ensures-ok (λ c. AllAnnounced c.0) (collect env options r₁ [])
          (collect-AllAnnounced env options r₁ [] tt) e in
      let (p', e', g) = run_readers-ProcGrows c.0 p all in rw e' g

read_process-ProcGrows :
    (env : Env) (options : Text) (pid : ℕ) (p : ProcFile) (r : ProcReading)
    → Ensures (λ x. ProcGrows p x.0) (read_process env options pid p r)
unfolding read_process
read_process-ProcGrows env options pid p r =
    let Q = λ (x : ProcFile × ProcReading × List Text). ProcGrows p x.0 in
    let r₁ : ProcReading = record r { info = (read_proc_stat env pid r.info).1 } in
    Ensures-if Q (read_proc_stat env pid r.info).0 _ _
      (Ensures->>= Q (fill_process env options pid p r₁) _ λ x e.
        Ensures-ok (λ x. ProcGrows p x.0) (fill_process env options pid p r₁)
          (fill_process-ProcGrows env options pid p r₁) e)
      (ProcGrows-refl p)

read_processes-Grows :
    (env : Env) (options : Text) (procs : ProcMap) (r : ProcReading)
    → Ensures (λ x. Grows procs x.0) (read_processes env options procs r)
unfolding read_processes
read_processes-Grows env options [] r = tt
read_processes-Grows env options ((k, p) ∷ procs) r =
    let Q = λ (x : ProcMap × ProcReading × List Text). Grows ((k, p) ∷ procs) x.0 in
    Ensures->>= Q (read_process env options k p r) _ λ x e.
      Ensures->>= Q (read_processes env options procs x.1) _ λ y e'. (
        refl,
        Ensures-ok (λ x. ProcGrows p x.0) (read_process env options k p r)
            (read_process-ProcGrows env options k p r) e,
        Ensures-ok (λ y. Grows procs y.0) (read_processes env options procs x.1)
            (read_processes-Grows env options procs x.1) e',
      )

pub read-Grows :
    (env : Env) (fresh : ProcInfo) (states : ProcStates) (options : Text) (procs : ProcMap)
    → Ensures (λ x. Grows procs x.0) (read env fresh states options procs)
unfolding read
read-Grows env fresh states options procs =
    let r : ProcReading = record { info = fresh; states = states } in
    let Q = λ (x : ProcMap × ProcStates × List Text). Grows procs x.0 in
    Ensures->>= Q (read_processes env options procs r) _ λ x e.
      Ensures-ok (λ x. Grows procs x.0) (read_processes env options procs r)
        (read_processes-Grows env options procs r) e
