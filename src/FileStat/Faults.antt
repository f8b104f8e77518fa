-- ===== src/FileStat/Faults.antt =====
-- The faults of the options of src/FileStatReader.cpp: those of `readFileName` and `readDevice`, and
-- no other where the options are among the defaults.
use cphf.Base.{ℕ, ◌≡◌, true, [], ◌∷◌, All, ok, none, some, Option, Fault, Admits, Admits->>=}
use cphf.Text.{Text, holds}
use cphf.Text.Holds.{holds-All}
use cphf.Map.{Map, for_each}
use cphf.Map.All.{for_each-Admits}
use cphf.Files.{UnlinkedFile, ProcFile, ProcMap, add_file_attributes}
use cphf.Env.{Env, Stat}
use cphf.Reader.Device.{read_device}
use cphf.FileStat.{
  filestat_opts_default, FileInfo, read_file_name, process_option, add_reader, collect, fill_file,
  read_file_stat_attributes, read,
}

module _ (P : Fault → Type 0) (env : Env)
    (name : (path : Text) → Admits P (read_file_name env path))
    (device : (info : Stat) → Admits P (read_device env info)) where
  process_option-Admits :
      (info : FileInfo) (c : ℕ)
      → holds filestat_opts_default c ≡ true
      → Admits P (process_option env c info)
  unfolding process_option
  process_option-Admits info c =
      let named = Admits->>= P (read_file_name env info.path) _ (name info.path) λ x e. tt in
      let on_device = Admits->>= P (read_device env info.stat) _ (device info.stat) λ x e. tt in
      holds-All (λ c. Admits P (process_option env c info)) filestat_opts_default c
        (named, (tt, (tt, (tt, (tt, (tt, (tt, (tt, (on_device, (tt, (tt, tt)))))))))))

  pub collect-Admits :
      (options : Text) (info : FileInfo) (m : Map ℕ Text)
      → All (λ c. holds filestat_opts_default c ≡ true) options
      → Admits P (collect env options info m)
  unfolding collect
  collect-Admits [] info m h = tt
  collect-Admits (c ∷ options) info m h =
      Admits->>= P (process_option env c info) _ (process_option-Admits info c h.0)
        λ a e. collect-Admits options info (add_reader a m) h.1

  fill_file-Admits :
      (path options : Text) (f : UnlinkedFile) (o : Option Stat)
      → All (λ c. holds filestat_opts_default c ≡ true) options
      → Admits P (fill_file env path options f o)
  unfolding fill_file
  fill_file-Admits path options f none h = tt
  fill_file-Admits path options f (some st) h =
      let info : FileInfo = record { path = path; stat = st } in
      Admits->>= P (collect env options info []) _ (collect-Admits options info [] h) λ m e. tt

  read_file-Admits :
      (txt_fd : ℕ) (options : Text) (fid pid : ℕ) (f : UnlinkedFile)
      → All (λ c. holds filestat_opts_default c ≡ true) options
      → Admits P (read_file_stat_attributes env txt_fd options fid pid f)
  unfolding read_file_stat_attributes
  read_file-Admits txt_fd options fid pid f h = fill_file-Admits _ options f _ h

  add_files-Admits :
      (txt_fd : ℕ) (options : Text) (p : ProcFile)
      → All (λ c. holds filestat_opts_default c ≡ true) options
      → Admits P (add_file_attributes (read_file_stat_attributes env txt_fd options) p)
  unfolding add_file_attributes
  add_files-Admits txt_fd options p h =
      let each =
        λ (fid : ℕ) (f : UnlinkedFile). read_file_stat_attributes env txt_fd options fid p.pid f in
      Admits->>= P (for_each each p.ul_files) (λ files. ok (record p { ul_files = files }))
        (for_each-Admits P each p.ul_files λ fid f. read_file-Admits txt_fd options fid p.pid f h)
        λ files e. tt

  pub read-Admits :
      (txt_fd : ℕ) (options : Text) (procs : ProcMap)
      → All (λ c. holds filestat_opts_default c ≡ true) options
      → Admits P (read env txt_fd options procs)
  unfolding read
  read-Admits txt_fd options procs h =
      for_each-Admits P
        (λ k proc. add_file_attributes (read_file_stat_attributes env txt_fd options) proc) procs
        λ k p. add_files-Admits txt_fd options p h
