-- ===== src/Lsof/Sorted.antt =====
-- The order of the map that `bufferedRead` of src/LSOFReader.cpp fills.
use cphf.Base.{ℕ, ◌≡◌, ok, Ensures, Ensures->>=, Ensures-ok, ◌==◌, Ensures-if}
use cphf.Base.Word.{int_rank}
use cphf.Text.{Text, atoi}
use cphf.Common.Id
use cphf.Map.{Map}
use cphf.Map.Laws.{IsSorted, insert-IsSorted, assign-IsSorted}
use cphf.Map.All.{AllValues}
use cphf.Files.{ProcFile, ProcMap, new_proc_file, add_proc_attribute, add_file, number, file_key}
use cphf.Lsof.{buffered_read}
use cphf.Lsof.Invariant.{IsKept, buffered_read-Kept, IsUpdated, buffered_read-Updated}

abbrev pub IsOrdered : {V : Type 0} → Map ℕ V → Type 0
IsOrdered = IsSorted int_rank

abbrev pub FilesOrdered : ProcFile → Type 0
FilesOrdered p = IsOrdered p.ul_files

module _ (txt_fd : ℕ) where
  add_proc_attribute-FilesOrdered :
      (id : ℕ) (value : Text) (p : ProcFile)
      → FilesOrdered p
      → Ensures FilesOrdered (add_proc_attribute id value p)
  unfolding add_proc_attribute
  add_proc_attribute-FilesOrdered id value p h =
      Ensures-if FilesOrdered (id == Id.pid) _ _
        (Ensures->>= FilesOrdered (number (atoi value)) _ λ n e. h)
        (Ensures-if FilesOrdered (id == Id.cmd) _ _ h h)

  FilesOrdered-IsKept : IsKept txt_fd FilesOrdered
  unfolding new_proc_file add_file
  FilesOrdered-IsKept = record {
    of_new = tt;
    of_pid = λ value p word h. add_proc_attribute-FilesOrdered Id.pid value p h;
    of_file = λ fid pid p h. insert-IsSorted int_rank (file_key fid) _ p.ul_files h;
    of_flags = λ k p f h e. assign-IsSorted int_rank k _ p.ul_files h;
  }

  Ordered-IsUpdated : IsUpdated txt_fd IsOrdered
  Ordered-IsUpdated = record {
    at_new = λ k m h. insert-IsSorted int_rank k new_proc_file m h;
    at_pid = λ k value p p' m word e e' h. assign-IsSorted int_rank k p' m h;
    at_file = λ k fid pid p m e h. assign-IsSorted int_rank k _ m h;
    at_flags = λ k fk p f m e e' h. assign-IsSorted int_rank k _ m h;
  }

-- Whatever the output is, reading it into a map in order leaves the processes in the order of their
-- ids, and the files of each in the order of their numbers, each key once.
pub buffered_read-IsSorted :
    (txt_fd : ℕ) (s : Text) (procs : ProcMap) {procs' : ProcMap}
    → IsOrdered procs
    → AllValues FilesOrdered procs
    → buffered_read txt_fd s procs ≡ ok procs'
    → IsOrdered procs' × AllValues FilesOrdered procs'
buffered_read-IsSorted txt_fd s procs h hs e = (
  Ensures-ok IsOrdered (buffered_read txt_fd s procs)
      (buffered_read-Updated txt_fd IsOrdered (Ordered-IsUpdated txt_fd) s procs h) e,
  Ensures-ok (AllValues FilesOrdered) (buffered_read txt_fd s procs)
      (buffered_read-Kept txt_fd FilesOrdered (FilesOrdered-IsKept txt_fd) s procs hs) e,
)
