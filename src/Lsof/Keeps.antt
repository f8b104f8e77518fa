-- ===== src/Lsof/Keeps.antt =====
-- What `bufferedRead` of src/LSOFReader.cpp leaves of the processes that are in the map.
use cphf.Base.{ℕ, List, [], ◌≡◌, some, Ensures, Ensures-ok, Contains-refl}
use cphf.Text.{Text}
use cphf.Common.Id
use cphf.Map.{find, assign, int_less}
use cphf.Map.Below.{Below-insert, Below-assign}
use cphf.Files.{ProcFile, ProcMap, new_proc_file}
use cphf.Files.Grows.{FileGrows, FileGrows-refl, add_unlinked_attribute-FileGrows}
use cphf.Files.Keeps.{
  ProcKeeps, ProcKeeps-refl, Keeps, Keeps-refl, Keeps-trans, add_proc_attribute-ProcKeeps,
  add_file-ProcKeeps,
}
use cphf.Lsof
use cphf.Lsof.{Child, pipe_failed, fork_failed, writes, wait_for, get_files_info, buffered_read}
use cphf.Lsof.Whole.{read-Ensures}
use cphf.Lsof.Invariant.{IsUpdated, buffered_read-Updated}

module _ (txt_fd : ℕ) (start : ProcMap) where
  write-Keeps :
      (k : ℕ) (p p' : ProcFile) (m : ProcMap)
      → find int_less k m ≡ some p
      → ProcKeeps p p'
      → Keeps start m
      → Keeps start (assign int_less k p' m)
  write-Keeps k p p' m e s h =
      Keeps-trans start m _ h (Below-assign ProcKeeps ProcKeeps-refl k p p' m e s)

  Keeps-IsUpdated : IsUpdated txt_fd (Keeps start)
  Keeps-IsUpdated = record {
    at_new =
        λ k m h. Keeps-trans start m _ h (Below-insert ProcKeeps ProcKeeps-refl k new_proc_file m);
    at_pid = λ k value p p' m word e e' h.
        write-Keeps k p p' m e
          (Ensures-ok (ProcKeeps p) _ (add_proc_attribute-ProcKeeps Id.pid value p) e') h;
    at_file = λ k fid pid p m e h. write-Keeps k p _ m e (add_file-ProcKeeps fid _ p) h;
    at_flags = λ k fk p f m e e' h.
        write-Keeps k p _ m e
          (
            Contains-refl p.attributes,
            Below-assign FileGrows FileGrows-refl fk f _ p.ul_files e'
                (add_unlinked_attribute-FileGrows Id.flags [] f),
          )
          h;
  }

buffered_read-Keeps :
    (txt_fd : ℕ) (s : Text) (procs : ProcMap) → Ensures (Keeps procs) (buffered_read txt_fd s procs)
buffered_read-Keeps txt_fd s procs =
    buffered_read-Updated txt_fd (Keeps procs) (Keeps-IsUpdated txt_fd procs) s procs
      (Keeps-refl procs)

pub read-Keeps :
    (txt_fd : ℕ) (child : List Text → Child) (options : Text) (procs : ProcMap)
    → Ensures (λ x. Keeps procs x.0) (Lsof.read txt_fd child options procs)
read-Keeps txt_fd child options procs =
    read-Ensures txt_fd (Keeps procs) procs (Keeps-refl procs)
      (λ output. buffered_read-Keeps txt_fd output procs) child options
