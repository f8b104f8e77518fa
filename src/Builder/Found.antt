-- ===== src/Builder/Found.antt =====
-- A whole run of `build` of src/ProcFileEntryBuilder.cpp on what `lsof` lists.
use cphf.Base.{◌+◌, ◌≡◌, List, [], ◌∷◌, ◌++◌, ok, Ensures-ok, >>=-eq-ok}
use cphf.Base.Word.{u64}
use cphf.Text.{Text, codes}
use cphf.Files.{ProcMap}
use cphf.Files.Grows.{Grows}
use cphf.Env.{Env}
use cphf.Lsof
use cphf.Lsof.{writes, wait_for, get_files_info}
use cphf.Lsof.Scan.{render}
use cphf.Lsof.Load.{buffered_read-load}
use cphf.Lsof.Load.Fields.{Listing, IsListing, fields, load}
use cphf.Proc.Stat.{ProcInfo}
use cphf.Builder.{World, DataDigger, dig, build, init_txt_fd, cphf_reader_lsof}
use cphf.Builder.Grows.{NotLsof, build-Grows}

-- The arguments of `execvp`.
abbrev pub lsof_command : Text → List Text
lsof_command options = codes "lsof" ∷ codes "-F" ∷ options ∷ codes "+aL1" ∷ []

-- The processes and files of a listing, put into a map.
abbrev pub loaded : Env → Listing → ProcMap → ProcMap
loaded env l procs =
    let txt_fd = init_txt_fd env.file_limit in load txt_fd l (u64 (txt_fd + 1)) procs

-- `lsof` answers with the listing.
abbrev pub Lists : Env → Text → Listing → Type 0
Lists env options l = env.lsof (lsof_command options) ≡ writes (render (fields l))

module _ (env : Env) (fresh : ProcInfo) (options : Text) (l : Listing) (w : World)
    (lists : Lists env options l) (ints : IsListing l) where
  abbrev pub lsof_world : World
  lsof_world = record w {
    flags = Lsof.create_attrib_map w.flags;
    procs = loaded env l w.procs;
    lines = w.lines ++ [];
  }

  pub dig_loaded : dig env fresh (cphf_reader_lsof, options) w ≡ ok lsof_world
  unfolding dig Lsof.read get_files_info wait_for
  dig_loaded = rw (lists, buffered_read-load (init_txt_fd env.file_limit) l w.procs ints)

  -- Where `lsof` answers with a listing, with numbers that fit an `int` and other names that start
  -- with no digit and no sign, a run that succeeds, of the reader of its output and then of any
  -- others in any order, leaves exactly the processes and files that were there and those listed:
  -- each under its number, with its path, and with the attributes that it had and that reading the
  -- listing gave it standing together among those that it has.
  pub build-Grows-loaded :
      (diggers : List DataDigger) {w' : World}
      → NotLsof diggers
      → build env fresh ((cphf_reader_lsof, options) ∷ diggers) w ≡ ok w'
      → Grows (loaded env l w.procs) w'.procs
  unfolding build
  build-Grows-loaded diggers {w'} others e =
      let (w₁, e₁, e₂) = >>=-eq-ok (dig env fresh (cphf_reader_lsof, options) w) _ e in
      Ensures-ok (λ w₂. Grows (loaded env l w.procs) w₂.procs) (build env fresh diggers lsof_world)
        (build-Grows env fresh diggers lsof_world others) (rw dig_loaded at e)
