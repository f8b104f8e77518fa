-- ===== src/Proc/Cases.antt =====
-- The cases of `processOpiton` in src/ProcReader.cpp: the id that each option sets.
use cphf.Base.{ℕ, ◌≡◌, true, List, [], ◌∷◌, ◌==◌, All, Ensures, Ensures->>=, Ensures-when}
use cphf.Common.{Attribute}
use cphf.Common.Id
use cphf.Env.{Env}
use cphf.Reader.Device.{read_device}
use cphf.Proc.{ProcReading, process_option, read_ids, with_ids}

-- The options that set an id, in the order of the tests, each with the id.
abbrev pub cases : List (ℕ × ℕ)
cases =
    (b'c', Id.cmd)
    ∷ (b'P', Id.ppid)
    ∷ (b'n', Id.procgid)
    ∷ (b'U', Id.loginname)
    ∷ (b'u', Id.uid)
    ∷ (b'G', Id.ugid_name)
    ∷ (b'g', Id.ugid)
    ∷ (b'e', Id.pstart_time)
    ∷ (b'q', Id.pcpu_time)
    ∷ (b's', Id.pstate)
    ∷ (b'd', Id.device)
    ∷ (b'v', Id.pvms)
    ∷ (b'r', Id.prss)
    ∷ (b'T', Id.text_region)
    ∷ (b'D', Id.data_region)
    ∷ (b'S', Id.stack_region)
    ∷ (b'i', Id.epi)
    ∷ (b'M', Id.perms)
    ∷ []

module _ (P : ℕ → Type 0) (env : Env) (c : ℕ) (r : ProcReading) where
  abbrev Sets : Attribute × ProcReading → Type 0
  Sets a = P a.0.0

  with_ids-Sets :
      (id d : ℕ) → ((c == d) ≡ true → P id) → (c == d) ≡ true → Ensures Sets (with_ids env id c r)
  with_ids-Sets id d h e = Ensures->>= Sets (read_ids env c r.info) _ λ x e'. h e

  -- What holds of the id in each case holds of every id that is set.
  pub process_option-cases :
      All (λ d. (c == d.0) ≡ true → P d.1) cases → Ensures (λ a. P a.0.0) (process_option env c r)
  unfolding process_option
  process_option-cases
        (
          cmd,
          (
            ppid,
            (
              procgid,
              (
                login,
                (
                  uid,
                  (
                    group,
                    (
                      gid,
                      (
                        start,
                        (
                          cpu,
                          (
                            state,
                            (
                              device,
                              (vms, (rss, (text, (data_region, (stack, (epi, (perms, end))))))),
                            ),
                          ),
                        ),
                      ),
                    ),
                  ),
                ),
              ),
            ),
          ),
        ) =
      Ensures-when Sets (c == b'c') _ _ cmd (
        Ensures-when Sets (c == b'P') _ _ ppid (
          Ensures-when Sets (c == b'n') _ _ procgid (
            Ensures-when Sets (c == b'U') _ _ (with_ids-Sets Id.loginname b'U' login) (
              Ensures-when Sets (c == b'u') _ _ (with_ids-Sets Id.uid b'u' uid) (
                Ensures-when Sets (c == b'G') _ _ (with_ids-Sets Id.ugid_name b'G' group) (
                  Ensures-when Sets (c == b'g') _ _ (with_ids-Sets Id.ugid b'g' gid) (
                    Ensures-when Sets (c == b'e') _ _ start (
                      Ensures-when Sets (c == b'q') _ _ cpu (
                        Ensures-when Sets (c == b's') _ _ state (
                          Ensures-when Sets (c == b'd') _ _
                            (λ e. Ensures->>= Sets (read_device env r.info.info) _ λ v e'. device e)
                            (Ensures-when Sets (c == b'v') _ _ vms (
                              Ensures-when Sets (c == b'r') _ _ rss (
                                Ensures-when Sets (c == b'T') _ _ text (
                                  Ensures-when Sets (c == b'D') _ _ data_region (
                                    Ensures-when Sets (c == b'S') _ _ stack (
                                      Ensures-when Sets (c == b'i') _ _ epi
                                        (Ensures-when Sets (c == b'M') _ _ perms tt)))))))))))))))))
