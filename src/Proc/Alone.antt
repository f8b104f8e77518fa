-- ===== src/Proc/Alone.antt =====
-- The one record and the one table that `do_read` of src/ProcReader.cpp keeps for all processes.
use cphf.Proc.Stat.Values.{IsEnd}
use mathlib.Core.Path.{subst}
use cphf.Base.{
  ℕ, ◌≡◌, refl, sym, ap, ◌∙◌, inl, true, List, [], ◌∷◌, ◌++◌, some, ok, Run, ◌>>=◌, All, Matches,
  Matches->>=, Matches-map, Matches-eq, Matches-refl, Matches-map_left, inr, ◌⊎◌,
}
use cphf.Text.{Text, codes, decimal}
use cphf.Map.{for_each}
use cphf.Files.{ProcFile, ProcMap}
use cphf.Env.{Env, Stat}
use cphf.Reader.Options.{collect_values}
use cphf.Proc.Stat.{ProcInfo, formats, read_proc_stat}
use cphf.Proc.Stat.Line.{Fields, AreFields, stat_line, parsed, read_proc_stat-line}
use cphf.Proc.{
  ProcReading, ProcStates, procstate, collect, run_readers, fill_process, read_process,
  read_processes, read,
}
use cphf.Proc.Stat.Missing.{IsHidden, IsGone, read_proc_stat_missing}
use cphf.Proc.Coherent.{IsCoherent, SameLabels}
use cphf.Proc.Order.{value, Collects, collect-Collects}

-- The file of the process holds a line of its values, and its executable is found.
abbrev pub IsKnown : Env → ℕ → Type 0
IsKnown env pid =
    (vs : Fields formats) × (rest : Text) × (st : Stat) × AreFields formats vs
    × IsEnd rest
    × (env.open_file (codes "/proc/" ++ decimal pid ++ codes "/stat") ≡ some (stat_line vs rest))
    × (env.stat (codes "/proc/" ++ decimal pid ++ codes "/exe") ≡ some st)

-- The file of the process can be scanned, or the process is gone.
abbrev pub IsSettled : Env → ℕ → Type 0
IsSettled env pid = IsKnown env pid ⊎ (IsHidden env pid ⊎ IsGone env pid)

-- What was read of the process, whatever became of the table.
abbrev pub SameProcess : ProcFile × ProcReading → ProcFile → Type 0
SameProcess x p = (x.0 ≡ p) × SameLabels x.1.states procstate

-- The same, with the lines that were printed.
abbrev pub SameLines : ProcFile × ProcReading × List Text → ProcFile → Type 0
SameLines x p = (x.0 ≡ p) × SameLabels x.1.states procstate × (x.2 ≡ [])

-- The same of all processes.
abbrev SameProcesses : ProcMap × ProcReading × List Text → ProcMap → Type 0
SameProcesses x m = (x.0 ≡ m) × SameLabels x.1.states procstate × (x.2 ≡ [])

abbrev pub own_record : (env : Env) (pid : ℕ) → IsKnown env pid → ProcInfo → ProcInfo
own_record env pid (vs, rest, st, fields, end, opened, exe) info = record (parsed vs info st) {
  pid = pid;
}

-- One process read with a record and a table of its own.
abbrev pub read_alone : Env → Text → ProcInfo → ℕ → ProcFile → Run ProcFile
read_alone env options info pid p =
    read_process env options pid p (record { info = info; states = procstate }) >>= λ x. ok x.0

module _ (env : Env) (options : Text) where
  -- The process with the values that its own record has for the options.
  abbrev pub by_record : ProcInfo → ProcFile → Run ProcFile
  by_record info p = collect_values (value env info) options [] >>= λ m. run_readers m p

  fill_process-by_record :
      (info : ProcInfo) (pid : ℕ) (p : ProcFile) (r : ProcReading)
      → IsCoherent env info (record r { info = record r.info { pid = pid } })
      → Matches SameProcess (fill_process env options pid p r) (by_record info p)
  unfolding fill_process
  fill_process-by_record info pid p r h =
      let r₁ : ProcReading = record r { info = record r.info { pid = pid } } in
      Matches->>= (Collects env info) SameProcess (collect env options r₁ [])
        (collect_values (value env info) options []) _ _ (collect-Collects env info options r₁ [] h)
        λ x m c.
          subst
            (λ n. Matches SameProcess (run_readers x.0 p >>= λ p'. ok (p', x.1)) (run_readers n p))
            c.0
            (Matches-map_left (λ (a b : ProcFile). a ≡ b) SameProcess (run_readers x.0 p)
              (run_readers x.0 p) (λ p'. (p', x.1))
              (Matches-refl (λ (a b : ProcFile). a ≡ b) (run_readers x.0 p) (λ a. refl))
              λ a b e. (e, c.1.3))

  read_process_known :
      (pid : ℕ) (p : ProcFile) (r : ProcReading) (vs : Fields formats) (st : Stat)
      → read_proc_stat env pid r.info ≡ (true, parsed vs r.info st, [])
      → read_process env options pid p r ≡ (
          fill_process env options pid p (record r { info = parsed vs r.info st }) >>= λ x.
          ok (x.0, x.1, []))
  unfolding read_process
  read_process_known pid p r vs st e = rw e refl

  pub read_process-by_record :
      (pid : ℕ) (p : ProcFile) (r : ProcReading) (info : ProcInfo) (known : IsKnown env pid)
      → SameLabels r.states procstate
      → Matches SameLines
          (read_process env options pid p r)
          (by_record (own_record env pid known info) p)
  unfolding parsed
  read_process-by_record pid p r info (vs, rest, st, fields, end, opened, exe) labels =
      let scanned = read_proc_stat-line env pid vs rest r.info st fields end opened exe in
      let own = own_record env pid (vs, rest, st, fields, end, opened, exe) info in
      rw (read_process_known pid p r vs st scanned) (
        Matches-map_left SameProcess SameLines
          (fill_process env options pid p (record r { info = parsed vs r.info st }))
          (by_record own p) (λ x. (x.0, x.1, []))
          (fill_process-by_record own pid p (record r { info = parsed vs r.info st })
            (refl, inl refl, inl refl, labels))
          λ x p' s. (s.0, s.1, refl))

  read_process_missing :
      (pid : ℕ) (p : ProcFile) (r : ProcReading)
      → IsHidden env pid ⊎ IsGone env pid
      → (info : ProcInfo) × (read_process env options pid p r
          ≡ ok (p, record r { info = info }, []))
  unfolding read_process
  read_process_missing pid p r missing =
      let (info, e) = read_proc_stat_missing env pid r.info missing in (info, rw e refl)

  known_process-read_alone :
      (pid : ℕ) (p : ProcFile) (r : ProcReading) (info : ProcInfo)
      → IsKnown env pid
      → SameLabels r.states procstate
      → Matches SameLines (read_process env options pid p r) (read_alone env options info pid p)
  known_process-read_alone pid p r info known labels =
      let own = own_record env pid known info in
      let r' : ProcReading = record { info = info; states = procstate } in
      let alone : read_alone env options info pid p ≡ by_record own p =
        Matches-eq (read_alone env options info pid p) (by_record own p) (
          Matches-map_left SameLines (λ (a b : ProcFile). a ≡ b) (read_process env options pid p r')
            (by_record own p) (λ x. x.0) (read_process-by_record pid p r' info known (λ c. refl))
            λ x p' s. s.0) in
      subst (λ x. Matches SameLines (read_process env options pid p r) x) (sym alone)
        (read_process-by_record pid p r info known labels)

  read_process-read_alone :
      (pid : ℕ) (p : ProcFile) (r : ProcReading) (info : ProcInfo)
      → IsSettled env pid
      → SameLabels r.states procstate
      → Matches SameLines (read_process env options pid p r) (read_alone env options info pid p)
  read_process-read_alone pid p r info (inl known) labels =
      known_process-read_alone pid p r info known labels
  read_process-read_alone pid p r info (inr missing) labels =
      let (info₁, e₁) = read_process_missing pid p r missing in
      let (info₂, e₂) =
        read_process_missing pid p (record { info = info; states = procstate }) missing in
      rw (e₁, e₂) (refl, labels, refl)

  read_processes-read_alone :
      (procs : ProcMap) (r : ProcReading) (info : ProcInfo)
      → All (λ e. IsSettled env e.0) procs
      → SameLabels r.states procstate
      → Matches SameProcesses
          (read_processes env options procs r)
          (for_each (read_alone env options info) procs)
  unfolding read_processes for_each
  read_processes-read_alone [] r info known labels = (refl, labels, refl)
  read_processes-read_alone ((pid, p) ∷ procs) r info known labels =
      Matches->>= SameLines SameProcesses (read_process env options pid p r)
        (read_alone env options info pid p) _ _
        (read_process-read_alone pid p r info known.0 labels)
        λ x p' s.
          Matches->>= SameProcesses SameProcesses (read_processes env options procs x.1)
            (for_each (read_alone env options info) procs) _ _
            (read_processes-read_alone procs x.1 info known.1 s.1)
            λ y m t.
              (ap (λ q. (pid, q) ∷ y.0) s.0 ∙ ap (λ n. (pid, p') ∷ n) t.0, t.1, rw (s.2, t.2) refl)

abbrev SameMap : ProcMap × ProcStates × List Text → ProcMap → Type 0
SameMap x m = (x.0 ≡ m) × (x.2 ≡ [])

read-SameMap :
    (env : Env) (fresh info : ProcInfo) (options : Text) (procs : ProcMap)
    → All (λ e. IsSettled env e.0) procs
    → Matches SameMap
        (read env fresh procstate options procs)
        (for_each (read_alone env options info) procs)
unfolding read
read-SameMap env fresh info options procs known =
    let r : ProcReading = record { info = fresh; states = procstate } in
    Matches-map_left SameProcesses SameMap (read_processes env options procs r)
      (for_each (read_alone env options info) procs) (λ x. (x.0, x.1.states, x.2))
      (read_processes-read_alone env options procs r info known (λ c. refl)) λ x m s. (s.0, s.2)

abbrev pub shown : ProcMap × ProcStates × List Text → ProcMap × List Text
shown x = (x.0, x.2)

abbrev pub quiet : ProcMap → ProcMap × List Text
quiet m = (m, [])

-- Where each process has a file that starts with the 47 fields that are scanned, with a name
-- without white space, whatever fields follow and whether or not its executable is found, or is
-- gone, with no file under the name that is looked up then, no line goes to the standard output,
-- and what is read of a process is what a reader with a record and a table of its own would read,
-- whatever that record holds at first: nothing of the processes before it is seen, and nothing of
-- what the shared record held when it was made.
pub read-read_alone :
    (env : Env) (fresh info : ProcInfo) (options : Text) (procs : ProcMap)
    → All (λ e. IsSettled env e.0) procs
    → (read env fresh procstate options procs >>= λ x. ok (shown x))
      ≡ (for_each (read_alone env options info) procs >>= λ m. ok (quiet m))
read-read_alone env fresh info options procs known =
    let alone = for_each (read_alone env options info) procs in
    let whole = read env fresh procstate options procs in
    let Equal = λ (a b : ProcMap × List Text). a ≡ b in
    let Shows = λ (a : ProcMap × List Text) (m : ProcMap). a ≡ quiet m in
    Matches-eq (whole >>= λ x. ok (shown x)) (alone >>= λ m. ok (quiet m)) (
      Matches-map Shows Equal (whole >>= λ x. ok (shown x)) alone quiet
        (Matches-map_left SameMap Shows whole alone shown
          (read-SameMap env fresh info options procs known) λ x m s. rw (s.0, s.1) refl)
        λ a m e. e)
