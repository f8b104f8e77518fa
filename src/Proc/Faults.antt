-- ===== src/Proc/Faults.antt =====
-- The faults of the options of src/ProcReader.cpp: those of `readIDs` and `readDevice`, and no other
-- where the options are among the defaults.
use cphf.Common.{Attribute}
use mathlib.Core.Path.{subst}
use cphf.Base.{ℕ, ◌≡◌, true, [], ◌∷◌, All, Fault, Admits, Admits->>=, Ensures-ok, Admits-when, sym}
use cphf.Common.Id
use cphf.Text.{Text, holds}
use cphf.Text.Holds.{holds-All}
use cphf.Map.{Map}
use cphf.Files.{ProcFile, ProcMap}
use cphf.Env.{Env, Stat}
use cphf.Reader.Device.{read_device}
use cphf.Proc.Stat.{ProcInfo, read_proc_stat}
use cphf.Proc.{
  proc_opts_default, ProcReading, ProcStates, read_ids, with_ids, process_option, add_reader,
  collect, fill_process, read_process, read_processes, read, Attribute,
}
use cphf.Proc.Labels.{AllAnnounced, collect-AllAnnounced}
use cphf.Proc.Grows.{run_readers-ProcGrows}
use cphf.Proc.Owner.{process_option-same_file}

module _ (P : Fault → Type 0) (Seen : Stat → Type 0) (env : Env)
    (ids : (option : ℕ) (info : ProcInfo) → Seen info.info → Admits P (read_ids env option info))
    (device : (info : Stat) → Admits P (read_device env info)) where
  with_ids-Admits :
      (id option : ℕ) (r : ProcReading) → Seen r.info.info → Admits P (with_ids env id option r)
  with_ids-Admits id option r seen =
      Admits->>= P (read_ids env option r.info) _ (ids option r.info seen) λ x e. tt

  process_option-Admits :
      (r : ProcReading) (c : ℕ)
      → Seen r.info.info
      → holds proc_opts_default c ≡ true
      → Admits P (process_option env c r)
  unfolding process_option
  process_option-Admits r c seen =
      let login = with_ids-Admits Id.loginname b'U' r seen in
      let user = with_ids-Admits Id.uid b'u' r seen in
      let group_name = with_ids-Admits Id.ugid_name b'G' r seen in
      let group = with_ids-Admits Id.ugid b'g' r seen in
      let named = Admits->>= P (read_device env r.info.info) _ (device r.info.info) λ x e. tt in
      holds-All (λ c. Admits P (process_option env c r)) proc_opts_default c
        (
          tt,
          (
            tt,
            (
              login,
              (
                tt,
                (
                  tt,
                  (
                    named,
                    (
                      user,
                      (
                        group_name,
                        (group, (tt, (tt, (tt, (tt, (tt, (tt, (tt, (tt, (tt, tt)))))))))),
                      ),
                    ),
                  ),
                ),
              ),
            ),
          ),
        )

  pub collect-Admits :
      (options : Text) (r : ProcReading) (m : Map ℕ Text)
      → Seen r.info.info
      → All (λ c. holds proc_opts_default c ≡ true) options
      → Admits P (collect env options r m)
  unfolding collect
  collect-Admits [] r m seen h = tt
  collect-Admits (c ∷ options) r m seen h =
      Admits->>= P (process_option env c r) _ (process_option-Admits r c seen h.0) λ a e.
        let same : a.1.info.info ≡ r.info.info =
          Ensures-ok (λ (a : Attribute × ProcReading). a.1.info.info ≡ r.info.info)
            (process_option env c r) (process_option-same_file env c r) e in
        collect-Admits options a.1 (add_reader a.0 m) (subst Seen (sym same) seen) h.1

  fill_process-Admits :
      (options : Text) (pid : ℕ) (p : ProcFile) (r : ProcReading)
      → Seen r.info.info
      → All (λ c. holds proc_opts_default c ≡ true) options
      → Admits P (fill_process env options pid p r)
  unfolding fill_process
  fill_process-Admits options pid p r seen h =
      let r₁ : ProcReading = record r { info = record r.info { pid = pid } } in
      Admits->>= P (collect env options r₁ []) _ (collect-Admits options r₁ [] seen h) λ c e.
        let all : AllAnnounced c.0 =
          Ensures-ok (λ c. AllAnnounced c.0) (collect env options r₁ [])
            (collect-AllAnnounced env options r₁ [] tt) e in
        let (p', e', g) = run_readers-ProcGrows c.0 p all in rw e' tt

  module _
      (stats : (pid : ℕ) (info : ProcInfo)
        → (read_proc_stat env pid info).0 ≡ true
        → Seen (read_proc_stat env pid info).1.info) where
    read_process-Admits :
        (options : Text) (pid : ℕ) (p : ProcFile) (r : ProcReading)
        → All (λ c. holds proc_opts_default c ≡ true) options
        → Admits P (read_process env options pid p r)
    unfolding read_process
    read_process-Admits options pid p r h =
        let r₁ : ProcReading = record r { info = (read_proc_stat env pid r.info).1 } in
        Admits-when P (read_proc_stat env pid r.info).0 _ _
          (λ found.
            Admits->>= P (fill_process env options pid p r₁) _
              (fill_process-Admits options pid p r₁ (stats pid r.info found) h) λ x e. tt)
          tt

    read_processes-Admits :
        (options : Text) (procs : ProcMap) (r : ProcReading)
        → All (λ c. holds proc_opts_default c ≡ true) options
        → Admits P (read_processes env options procs r)
    unfolding read_processes
    read_processes-Admits options [] r h = tt
    read_processes-Admits options ((k, p) ∷ procs) r h =
        Admits->>= P (read_process env options k p r) _ (read_process-Admits options k p r h) λ x e.
          Admits->>= P (read_processes env options procs x.1) _
            (read_processes-Admits options procs x.1 h) λ y e'. tt

    pub read-Admits :
        (fresh : ProcInfo) (states : ProcStates) (options : Text) (procs : ProcMap)
        → All (λ c. holds proc_opts_default c ≡ true) options
        → Admits P (read env fresh states options procs)
    unfolding read
    read-Admits fresh states options procs h =
        Admits->>= P (read_processes env options procs (record { info = fresh; states = states })) _
          (read_processes-Admits options procs _ h) λ x e. tt
