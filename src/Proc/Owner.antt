-- ===== src/Proc/Owner.antt =====
-- The file of which src/ProcReader.cpp looks up the owners, the executable of a process: it is one that
-- `stat` finds, and reading an option leaves it as it is.
use cphf.Proc.Values.{read_ids}
use cphf.Proc.Stat.{read_exe, read_proc_stat, ProcInfo, after_scan}
use cphf.Env.{Env, Stat}
use cphf.Base.{
  ℕ, ◌≡◌, refl, true, ◌++◌, ◌||◌, ◌==◌, some, ok, inl, inr, Option-cases, Ensures, Ensures->>=,
  Ensures-if, Ensures-ok, arith,
}
use cphf.Text.{Text, codes, decimal}
use cphf.Common.{Attribute}
use cphf.Common.Id
use cphf.Env.{Env, Stat}
use cphf.Reader.Device.{read_device}
use cphf.Proc.Stat.{ProcInfo, read_exe, read_proc_stat, after_scan}
use cphf.Proc.{ProcReading, process_option, read_ids, entry_of, cached}

-- Some path has this status.
abbrev pub IsFound : Env → Stat → Type 0
IsFound env st = (path : Text) × (env.stat path ≡ some st)

read_exe-IsFound :
    (env : Env) (path : Text) (info : ProcInfo)
    → (read_exe env path info).0 ≡ true
    → IsFound env (read_exe env path info).1.info
unfolding read_exe
read_exe-IsFound env path info = elim (Option-cases (env.stat path)) [
  | inl e ↦ rw (read_exe, e) (λ h. absurd (ground arith))
  | inr (st, e) ↦ rw (read_exe, e) (λ h. (path, e))
]

-- Where `readProcStat` finds the process, it has the status of its executable.
pub read_proc_stat-IsFound :
    (env : Env) (pid : ℕ) (info : ProcInfo)
    → (read_proc_stat env pid info).0 ≡ true
    → IsFound env (read_proc_stat env pid info).1.info
unfolding read_proc_stat after_scan
read_proc_stat-IsFound env pid info =
    elim (Option-cases (env.open_file (codes "/proc/" ++ decimal pid ++ codes "/stat"))) [
      | inl e ↦ rw (read_proc_stat, e) (read_exe-IsFound env _ info)
      | inr (s, e) ↦ rw (read_proc_stat, e) (read_exe-IsFound env _ _)
    ]

module _ (env : Env) where
  read_ids-same_file :
      (option : ℕ) (info : ProcInfo)
      → Ensures (λ (x : Text × ProcInfo). x.1.info ≡ info.info) (read_ids env option info)
  unfolding read_ids
  read_ids-same_file option info =
      let Same = λ (x : Text × ProcInfo). x.1.info ≡ info.info in
      Ensures-if Same (option == b'U' || option == b'u') _ _
        (Ensures->>= Same (entry_of (cached info.pw (env.getpwuid info.info.st_uid))) _ λ x e. refl)
        (Ensures->>= Same (entry_of (cached info.gr (env.getgrgid info.info.st_gid))) _ λ x e. refl)

  pub process_option-same_file :
      (c : ℕ) (r : ProcReading)
      → Ensures
          (λ (a : Attribute × ProcReading). a.1.info.info ≡ r.info.info)
          (process_option env c r)
  unfolding process_option
  process_option-same_file c r =
      let Same = λ (a : Attribute × ProcReading). a.1.info.info ≡ r.info.info in
      let kept : r.info.info ≡ r.info.info = refl in
      let ids = λ (id : ℕ).
        Ensures->>= Same (read_ids env c r.info) (λ x. ok ((id, x.0), record r { info = x.1 }))
          λ x e.
            Ensures-ok (λ (x : Text × ProcInfo). x.1.info ≡ r.info.info) (read_ids env c r.info)
              (read_ids-same_file c r.info) e in
      Ensures-if Same (c == b'c') _ _ kept (
        Ensures-if Same (c == b'P') _ _ kept (
          Ensures-if Same (c == b'n') _ _ kept (
            Ensures-if Same (c == b'U') _ _ (ids Id.loginname) (
              Ensures-if Same (c == b'u') _ _ (ids Id.uid) (
                Ensures-if Same (c == b'G') _ _ (ids Id.ugid_name) (
                  Ensures-if Same (c == b'g') _ _ (ids Id.ugid) (
                    Ensures-if Same (c == b'e') _ _ kept (
                      Ensures-if Same (c == b'q') _ _ kept (
                        Ensures-if Same (c == b's') _ _ kept (
                          Ensures-if Same (c == b'd') _ _
                            (Ensures->>= Same (read_device env r.info.info) _ λ v e. kept)
                            (Ensures-if Same (c == b'v') _ _ kept (
                              Ensures-if Same (c == b'r') _ _ kept (
                                Ensures-if Same (c == b'T') _ _ kept (
                                  Ensures-if Same (c == b'D') _ _ kept (
                                    Ensures-if Same (c == b'S') _ _ kept (
                                      Ensures-if Same (c == b'i') _ _ kept
                                        (Ensures-if Same (c == b'M') _ _ kept tt)))))))))))))))))
