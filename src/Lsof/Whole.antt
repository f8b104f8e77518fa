-- ===== src/Lsof/Whole.antt =====
-- What holds of the map after `bufferedRead` of src/LSOFReader.cpp, on any output, holds after `do_read`.
use cphf.Base.{ℕ, List, Ensures, Ensures->>=, Ensures-ok}
use cphf.Text.{Text}
use cphf.Files.{ProcMap}
use cphf.Lsof
use cphf.Lsof.{Child, pipe_failed, fork_failed, writes, wait_for, get_files_info, buffered_read}

module _ (txt_fd : ℕ) (M : ProcMap → Type 0) (procs : ProcMap) (start : M procs)
    (reads : (s : Text) → Ensures M (buffered_read txt_fd s procs)) where
  wait_for-Ensures : (child : Child) → Ensures (λ x. M x.0) (wait_for txt_fd child procs)
  unfolding wait_for
  wait_for-Ensures pipe_failed = start
  wait_for-Ensures fork_failed = start
  wait_for-Ensures (writes output) =
      Ensures->>= (λ x. M x.0) (buffered_read txt_fd output procs) _
        λ procs' e. Ensures-ok M (buffered_read txt_fd output procs) (reads output) e

  pub read-Ensures :
      (child : List Text → Child) (options : Text)
      → Ensures (λ x. M x.0) (Lsof.read txt_fd child options procs)
  unfolding Lsof.read get_files_info
  read-Ensures child options = wait_for-Ensures _
