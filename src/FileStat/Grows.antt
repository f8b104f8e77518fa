-- ===== src/FileStat/Grows.antt =====
-- What the reader of src/FileStatReader.cpp leaves of the processes and their files.
use cphf.Base.{ℕ, [], ◌∷◌, Option, none, some, Ensures, Ensures->>=}
use cphf.Text.{Text}
use cphf.Map.{Map}
use cphf.Map.Each.{for_each-Each}
use cphf.Files.{UnlinkedFile, ProcMap, add_unlinked_attribute}
use cphf.Files.Grows.{
  FileGrows, FileGrows-refl, FileGrows-trans, ProcGrows, Grows, add_unlinked_attribute-FileGrows,
  add_file_attributes-ProcGrows,
}
use cphf.Env.{Env, Stat}
use cphf.FileStat.{FileInfo, collect, run_readers, fill_file, read_file_stat_attributes, read}

pub run_readers-FileGrows : (m : Map ℕ Text) (f : UnlinkedFile) → FileGrows f (run_readers m f)
unfolding run_readers
run_readers-FileGrows [] f = FileGrows-refl f
run_readers-FileGrows ((id, value) ∷ m) f =
    let f' = add_unlinked_attribute id value f in
    FileGrows-trans f f' (run_readers m f') (add_unlinked_attribute-FileGrows id value f)
      (run_readers-FileGrows m f')

fill_file-FileGrows :
    (env : Env) (path options : Text) (f : UnlinkedFile) (o : Option Stat)
    → Ensures (FileGrows f) (fill_file env path options f o)
unfolding fill_file
fill_file-FileGrows env path options f none = FileGrows-refl f
fill_file-FileGrows env path options f (some st) =
    let info : FileInfo = record { path = path; stat = st } in
    Ensures->>= (FileGrows f) (collect env options info []) _ λ m e. run_readers-FileGrows m f

read_file-FileGrows :
    (env : Env) (txt_fd : ℕ) (options : Text) (fid pid : ℕ) (f : UnlinkedFile)
    → Ensures (FileGrows f) (read_file_stat_attributes env txt_fd options fid pid f)
unfolding read_file_stat_attributes
read_file-FileGrows env txt_fd options fid pid f = fill_file-FileGrows env _ options f _

pub read-Grows :
    (env : Env) (txt_fd : ℕ) (options : Text) (procs : ProcMap)
    → Ensures (Grows procs) (read env txt_fd options procs)
unfolding read
read-Grows env txt_fd options procs = for_each-Each ProcGrows _ procs λ k p.
    add_file_attributes-ProcGrows (read_file_stat_attributes env txt_fd options) p
      (read_file-FileGrows env txt_fd options)
