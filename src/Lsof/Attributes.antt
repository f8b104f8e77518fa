-- ===== src/Lsof/Attributes.antt =====
-- What holds of every attribute that the fields of src/LSOFReader.cpp set holds of every attribute
-- after the reader, if it held before.
use cphf.Base.{ℕ, List, [], Ensures, All}
use cphf.Text.{Text}
use cphf.Common.{Attribute}
use cphf.Common.Id
use cphf.Map.{int_less}
use cphf.Map.All.{AllValues, insert-AllValues, assign-AllValues, find-AllValues}
use cphf.Files.{ProcFile, ProcMap, new_proc_file, new_unlinked_file, add_file}
use cphf.Files.Laws.{OfFile, OfProcess, add_unlinked_attribute-OfFile, add_proc_attribute-OfProcess}
use cphf.Lsof
use cphf.Lsof.{Child, pipe_failed, fork_failed, writes, wait_for, buffered_read}
use cphf.Lsof.Whole.{read-Ensures}
use cphf.Lsof.Words.{IsWord}
use cphf.Lsof.Invariant.{IsKept, buffered_read-Kept}

module _ (txt_fd : ℕ) (Q : Attribute → Type 0) (pids : (w : Text) → IsWord w → Q (Id.pid, w))
    (flags : Q (Id.flags, [])) where
  abbrev Has : ProcFile → Type 0
  Has = OfProcess (All Q)

  Has-IsKept : IsKept txt_fd Has
  unfolding new_proc_file add_file new_unlinked_file
  Has-IsKept = record {
    of_new = (tt, tt);
    of_pid = λ value p word h. add_proc_attribute-OfProcess Q Id.pid value p (pids value word) h;
    of_file =
        λ fid pid p h. (h.0, insert-AllValues (OfFile (All Q)) int_less _ _ p.ul_files tt h.1);
    of_flags = λ k p f h e. (
      h.0,
      assign-AllValues (OfFile (All Q)) int_less k _ p.ul_files
          (add_unlinked_attribute-OfFile Q Id.flags [] f flags
            (find-AllValues (OfFile (All Q)) int_less k p.ul_files h.1 e))
          h.1,
    );
  }

  pub read-OfProcess :
      (child : List Text → Child) (options : Text) (procs : ProcMap)
      → AllValues (OfProcess (All Q)) procs
      → Ensures (λ x. AllValues (OfProcess (All Q)) x.0) (Lsof.read txt_fd child options procs)
  read-OfProcess child options procs h =
      read-Ensures txt_fd (AllValues Has) procs h
        (λ output. buffered_read-Kept txt_fd Has Has-IsKept output procs h) child options
