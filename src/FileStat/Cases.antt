-- ===== src/FileStat/Cases.antt =====
-- The cases of `processOpiton` in src/FileStatReader.cpp: the id that each option sets.
use cphf.Base.{ℕ, ◌≡◌, true, List, [], ◌∷◌, ◌==◌, All, Ensures, Ensures->>=, Ensures-when}
use cphf.Common.{Attribute}
use cphf.Common.Id
use cphf.Env.{Env}
use cphf.Reader.Device.{read_device}
use cphf.FileStat.{FileInfo, process_option, read_file_name}

-- The options that set an id, in the order of the tests, each with the id.
abbrev pub cases : List (ℕ × ℕ)
cases =
    (b'n', Id.filename)
    ∷ (b'i', Id.inode)
    ∷ (b'u', Id.uid)
    ∷ (b'g', Id.ugid)
    ∷ (b'M', Id.filemode)
    ∷ (b'a', Id.access_t)
    ∷ (b'm', Id.mod_t)
    ∷ (b'c', Id.stat_change_t)
    ∷ (b'd', Id.device)
    ∷ (b's', Id.filesize)
    ∷ (b'p', Id.perms)
    ∷ []

-- What holds of the id in each case holds of every id that is set.
pub process_option-cases :
    (P : ℕ → Type 0) (env : Env) (c : ℕ) (info : FileInfo)
    → All (λ d. (c == d.0) ≡ true → P d.1) cases
    → Ensures (λ a. P a.0) (process_option env c info)
unfolding process_option
process_option-cases P env c info
      (
        name,
        (
          inode,
          (uid, (gid, (mode, (access, (modified, (change, (device, (size, (perms, end))))))))),
        ),
      ) =
    let Q = λ (a : Attribute). P a.0 in
    Ensures-when Q (c == b'n') _ _
      (λ e. Ensures->>= Q (read_file_name env info.path) _ λ v e'. name e)
      (Ensures-when Q (c == b'i') _ _ inode (
        Ensures-when Q (c == b'u') _ _ uid (
          Ensures-when Q (c == b'U') _ _ (λ e. tt)
            (Ensures-when Q (c == b'g') _ _ gid (
              Ensures-when Q (c == b'G') _ _ (λ e. tt)
                (Ensures-when Q (c == b'M') _ _ mode (
                  Ensures-when Q (c == b'a') _ _ access (
                    Ensures-when Q (c == b'm') _ _ modified (
                      Ensures-when Q (c == b'c') _ _ change (
                        Ensures-when Q (c == b'd') _ _
                          (λ e. Ensures->>= Q (read_device env info.stat) _ λ v e'. device e)
                          (Ensures-when Q (c == b's') _ _ size
                            (Ensures-when Q (c == b'p') _ _ perms tt))))))))))))
