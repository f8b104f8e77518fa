-- ===== src/Builder/Listed.antt =====
-- What `lsof` listed, in the list of `flattenMap` of src/ProcFileEntryBuilder.cpp and in the map.
use cphf.Base.{
  ◌^◌, ◌<◌, ℕ, ◌+◌, ◌≡◌, refl, ◌∙◌, Bool, true, [], ◌∷◌, Any, Any-append_right, Any-weaken, inl, ap,
  List, All, arith,
}
use cphf.Base.Word.{u64}
use cphf.Text.{decimal}
use cphf.Common.Id
use cphf.Map.{int_less}
use cphf.Map.Laws.{find-Any}
use cphf.Map.Entries.{find-entry}
use cphf.Files.{ProcFile, ProcMap}
use cphf.Files.Grows.{Grows}
use cphf.Env.{Env}
use cphf.Lsof.Load.Fields.{Listing, IsListing, numbered, IsInt, Descriptor, entered}
use cphf.Lsof.Load.Finds.{ListsProcess, ListsFile, load_finds, held, ListsWith-IsInt}
use cphf.Lsof.Load.Owned.{
  FilesOf, OwnsFile, OwnsFile-says, load_files-FilesOf, load_files-OwnsFile,
  load_files_keeps-OwnsFile,
}
use cphf.Builder.{flatten_map, init_txt_fd}
use cphf.Builder.Found.{loaded}
use cphf.Builder.Shown.{
  IsProcess, HasFile, ShowsProcess, ShowsFile, IsProcess-Grows, HasFile-Grows, found-Grows,
  flatten_map-IsProc, flatten_map-IsFile,
}

-- Its lines make a process the one of its id, and leave it that.
entered-IsProcess :
    (txt_fd pid : ℕ) (fds : List Descriptor) (counter : ℕ) (p : ProcFile)
    → IsProcess pid (entered txt_fd pid fds counter p)
entered-IsProcess txt_fd pid fds counter p = (
  refl,
  Any-append_right (λ a. a ≡ (Id.pid, decimal pid)) p.attributes ((Id.pid, decimal pid) ∷ [])
      (inl refl),
)

OwnsFile-HasFile :
    (pid n : ℕ) (p : ProcFile) → IsInt pid → OwnsFile pid n p.ul_files → HasFile pid n p
OwnsFile-HasFile pid n p int owns =
    let (f, e₁, e₂, e₃) = OwnsFile-says pid n p.ul_files int owns in
    Any-weaken p.ul_files (λ entry same. (ap (λ g. g.pid) same ∙ e₂, ap (λ g. g.fid) same ∙ e₃))
      (find-Any int_less n f p.ul_files e₁)

-- A process that is listed stands under its id, where the map has no longer keys.
pub listed-entry :
    (env : Env) (l : Listing) (procs : ProcMap) (pid : ℕ)
    → IsListing l
    → All (λ e. e.0 < 2 ^ 32) (loaded env l procs)
    → ListsProcess pid l
    → Any (λ e. e.0 ≡ pid) (loaded env l procs)
listed-entry env l procs pid ints small listed =
    let txt_fd = init_txt_fd env.file_limit in
    let (p, e, any) =
      load_finds txt_fd pid (λ fds. Unit) (λ p. Unit) (λ p. Unit) l (u64 (txt_fd + 1)) procs
        (λ fds counter p ds h. tt) (λ fds counter p ds h. tt) (λ fds counter p ds q h. tt) ints tt
        listed in
    let int = ListsWith-IsInt (λ fds. Unit) pid l ints listed in
    Any-weaken (loaded env l procs) (λ entry same. ap (λ (x : ℕ × ProcFile). x.0) same)
      (find-entry pid p (loaded env l procs) small (omega arith) e)

module _ (env : Env) (l : Listing) (procs : ProcMap) (ints : IsListing l) (m : ProcMap)
    (grows : Grows (loaded env l procs) m) where
  -- A process that is listed is shown.
  pub flatten_map-ShowsProcess :
      (pid : ℕ) (files : Bool)
      → ListsProcess pid l
      → Any (ShowsProcess pid) (flatten_map true files m)
  flatten_map-ShowsProcess pid files listed =
      let txt_fd = init_txt_fd env.file_limit in
      let (p, e, is) =
        load_finds txt_fd pid (λ fds. Unit) (IsProcess pid) (λ p. Unit) l (u64 (txt_fd + 1)) procs
          (λ fds counter p ds h. entered-IsProcess txt_fd pid fds counter p)
          (λ fds counter p ds h. tt)
          (λ fds counter p ds q h. entered-IsProcess txt_fd pid fds counter p) ints tt listed in
      flatten_map-IsProc (IsProcess pid) files m
        (found-Grows (IsProcess pid) pid p (loaded env l procs) m (IsProcess-Grows pid) e is grows)

  -- A file that is listed under its number is there, where the process has only files of its own.
  pub listed-HasFile :
      (pid n : ℕ)
      → FilesOf pid (held (init_txt_fd env.file_limit) pid procs).ul_files
      → ListsFile n pid l
      → Any (λ e. HasFile pid n e.1) m
  listed-HasFile pid n own listed =
      let txt_fd = init_txt_fd env.file_limit in
      let Q = Any (λ d. d ≡ numbered n) in
      let (p, e, owns) =
        load_finds txt_fd pid Q (λ p. OwnsFile pid n p.ul_files) (λ p. FilesOf pid p.ul_files) l
          (u64 (txt_fd + 1)) procs
          (λ fds counter p. load_files_keeps-OwnsFile txt_fd pid n fds counter p.ul_files)
          (λ fds counter p. load_files-FilesOf txt_fd pid fds counter p.ul_files)
          (λ fds counter p. load_files-OwnsFile txt_fd pid n fds counter p.ul_files) ints own
          listed in
      let int = ListsWith-IsInt Q pid l ints listed in
      found-Grows (HasFile pid n) pid p (loaded env l procs) m (HasFile-Grows pid n) e
        (OwnsFile-HasFile pid n p int owns) grows

  -- Such a file is shown.
  pub flatten_map-ShowsFile :
      (pid n : ℕ) (shows_procs : Bool)
      → FilesOf pid (held (init_txt_fd env.file_limit) pid procs).ul_files
      → ListsFile n pid l
      → Any (ShowsFile pid n) (flatten_map shows_procs true m)
  flatten_map-ShowsFile pid n shows_procs own listed =
      flatten_map-IsFile (λ f. (f.pid ≡ pid) × (f.fid ≡ n)) shows_procs m
        (listed-HasFile pid n own listed)
