-- ===== src/FileStat/Attributes.antt =====
-- What holds of every attribute that `processOpiton` of src/FileStatReader.cpp gives holds of every
-- attribute of the files after the reader, if it held before.
use cphf.Base.{ℕ, [], ◌∷◌, Option, none, some, Ensures, Ensures->>=, Ensures-ok, All}
use cphf.Text.{Text}
use cphf.Common.{Attribute}
use cphf.Map.{Map, int_less}
use cphf.Map.All.{AllValues, for_each-AllValues, insert-All}
use cphf.Files.{UnlinkedFile, ProcMap, add_unlinked_attribute, add_file_attributes}
use cphf.Files.Laws.{
  OfFile, OfProcess, add_unlinked_attribute-OfFile, add_file_attributes-OfProcess,
}
use cphf.Env.{Env, Stat}
use cphf.FileStat.{
  FileInfo, process_option, collect, add_reader, run_readers, fill_file, read_file_stat_attributes,
  read,
}

module _ (env : Env) (Q : Attribute → Type 0)
    (sets : (c : ℕ) (info : FileInfo) → Ensures Q (process_option env c info)) where
  add_reader-All : (a : Attribute) (m : Map ℕ Text) → Q a → All Q m → All Q (add_reader a m)
  unfolding add_reader
  add_reader-All a m h all = insert-All Q int_less a.0 a.1 m h all

  pub collect-All :
      (options : Text) (info : FileInfo) (m : Map ℕ Text)
      → All Q m
      → Ensures (All Q) (collect env options info m)
  unfolding collect
  collect-All [] info m all = all
  collect-All (c ∷ options) info m all = Ensures->>= (All Q) (process_option env c info) _ λ a e.
      collect-All options info (add_reader a m)
        (add_reader-All a m (Ensures-ok Q (process_option env c info) (sets c info) e) all)

  run_readers-OfFile :
      (m : Map ℕ Text) (f : UnlinkedFile)
      → All Q m
      → OfFile (All Q) f
      → OfFile (All Q) (run_readers m f)
  unfolding run_readers
  run_readers-OfFile [] f all h = h
  run_readers-OfFile ((id, value) ∷ m) f all h =
      run_readers-OfFile m (add_unlinked_attribute id value f) all.1
        (add_unlinked_attribute-OfFile Q id value f all.0 h)

  fill_file-OfFile :
      (path options : Text) (f : UnlinkedFile) (o : Option Stat)
      → OfFile (All Q) f
      → Ensures (OfFile (All Q)) (fill_file env path options f o)
  unfolding fill_file
  fill_file-OfFile path options f none h = h
  fill_file-OfFile path options f (some st) h =
      let info : FileInfo = record { path = path; stat = st } in
      Ensures->>= (OfFile (All Q)) (collect env options info []) _ λ m e.
        run_readers-OfFile m f
          (Ensures-ok (All Q) (collect env options info []) (collect-All options info [] tt) e) h

  read_file-OfFile :
      (txt_fd : ℕ) (options : Text) (fid pid : ℕ) (f : UnlinkedFile)
      → OfFile (All Q) f
      → Ensures (OfFile (All Q)) (read_file_stat_attributes env txt_fd options fid pid f)
  unfolding read_file_stat_attributes
  read_file-OfFile txt_fd options fid pid f h = fill_file-OfFile _ options f _ h

  pub read-OfProcess :
      (txt_fd : ℕ) (options : Text) (procs : ProcMap)
      → AllValues (OfProcess (All Q)) procs
      → Ensures (AllValues (OfProcess (All Q))) (read env txt_fd options procs)
  unfolding read
  read-OfProcess txt_fd options procs h =
      let P = OfProcess (All Q) in
      for_each-AllValues P P
        (λ k p. add_file_attributes (read_file_stat_attributes env txt_fd options) p) procs
        (λ k p. add_file_attributes-OfProcess Q _ p (read_file-OfFile txt_fd options)) h
