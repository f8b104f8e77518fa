-- ===== src/Main/Served.antt =====
-- A system that answers: the readers that `main` of src/cphf.cpp runs on one.
use cphf.Reader.{CphfReader}
use cphf.Base.{
  ℕ, ◌^◌, ◌<◌, ◌≡◌, ◌≢◌, ◌⊎◌, inl, inr, refl, ap, ◌∙◌, ◌>>=◌, true, ◌||◌, List, [], ◌∷◌, Option,
  none, some, ◌==◌, length, All, All-weaken, ok, Admits, Admits->>=, Admits-if, Admits-NoFault,
  NoFault, arith,
}
use cphf.Text.{Text, codes, holds}
use cphf.Env.{Env, Stat}
use cphf.Reader.Device.{read_device, build_device_map, build_from}
use cphf.Reader.Device.Listing.{Line, IsLine, render_lines, build_device_map-drivers}
use cphf.Proc.{proc_opts_default, read_ids, entry_of, cached, ProcStates}
use cphf.Proc.Faults as ProcFaults
use cphf.Proc.Owner.{IsFound, read_proc_stat-IsFound}
use cphf.Proc.Stat.{ProcInfo}
use cphf.FileStat
use cphf.FileStat.{filestat_opts_default, read_file_name, read_link, take_link}
use cphf.FileStat.Faults as FileFaults
use cphf.FileStat.Link.{LinksTo, HasMemory, read_file_name-target}
use cphf.Builder.{
  World, DataDigger, dig, build, init_txt_fd, cphf_reader_proc, cphf_reader_filestat, new_reader,
  run_reader, proc_reader, filestat_reader,
}
use cphf.Builder.Grows.{NotLsof}

-- The target of a link of this length is read in whole.
abbrev pub HasTarget : Env → Text → Type 0
HasTarget env path = (target : Text) × LinksTo env path target × (length target < 2 ^ 62)

-- Memory is there, links have a target or cannot be read, the owner and the group of each file that
-- `stat` finds have an entry, and the list of drivers has its format or is not there.
pub record IsServed (env : Env) : Type 0 where
  pub memory : HasMemory env
  pub links : (path : Text) → ((size : ℕ) → env.readlink path size ≡ none) ⊎ HasTarget env path
  pub users : (path : Text) (st : Stat) → env.stat path ≡ some st → env.getpwuid st.st_uid ≢ none
  pub groups : (path : Text) (st : Stat) → env.stat path ≡ some st → env.getgrgid st.st_gid ≢ none
  pub drivers :
      (env.open_file (codes "/proc/tty/drivers") ≡ none)
      ⊎ ((ls : List Line) × All IsLine ls
          × (env.open_file (codes "/proc/tty/drivers") ≡ some (render_lines ls)))

entry_of-NoFault :
    (o found : Option (Text × ℕ)) → found ≢ none → Admits NoFault (entry_of (cached o found))
entry_of-NoFault none none h = absurd (h refl)
entry_of-NoFault none (some e) h = tt
entry_of-NoFault (some e) found h = tt

module _ (env : Env) (served : IsServed env) where
  read_file_name-NoFault : (path : Text) → Admits NoFault (read_file_name env path)
  read_file_name-NoFault path = elim (served.links path) [
    | inl fails ↦
        unfold read_file_name read_link take_link in rw (served.memory 1025, fails 1024) tt
    | inr (target, links, bound) ↦
        rw (read_file_name-target env path target links served.memory bound) tt
  ]

  read_ids-NoFault :
      (option : ℕ) (info : ProcInfo)
      → IsFound env info.info
      → Admits NoFault (read_ids env option info)
  unfolding read_ids
  read_ids-NoFault option info (path, found) =
      Admits-if NoFault (option == b'U' || option == b'u') _ _
        (Admits->>= NoFault (entry_of (cached info.pw (env.getpwuid info.info.st_uid))) _
          (entry_of-NoFault info.pw _ (served.users path info.info found)) λ x e. tt)
        (Admits->>= NoFault (entry_of (cached info.gr (env.getgrgid info.info.st_gid))) _
          (entry_of-NoFault info.gr _ (served.groups path info.info found)) λ x e. tt)

  build_device_map-NoFault : Admits NoFault (build_device_map env [])
  build_device_map-NoFault = elim served.drivers [
    | inl e ↦ unfold build_device_map build_from in rw e tt
    | inr (ls, lines, e) ↦ rw (build_device_map-drivers env ls lines e) tt
  ]

  read_device-NoFault : (info : Stat) → Admits NoFault (read_device env info)
  unfolding read_device
  read_device-NoFault info =
      Admits->>= NoFault (build_device_map env []) _ build_device_map-NoFault λ m e. tt

-- A reader other than that of `lsof`, with options that it has.
abbrev pub IsReadable : DataDigger → Type 0
IsReadable (reader, options) =
    ((reader ≡ cphf_reader_proc) × All (λ c. holds proc_opts_default c ≡ true) options)
    ⊎ ((reader ≡ cphf_reader_filestat) × All (λ c. holds filestat_opts_default c ≡ true) options)

pub IsReadable-NotLsof : (diggers : List DataDigger) → All IsReadable diggers → NotLsof diggers
IsReadable-NotLsof diggers = All-weaken diggers λ d h. ground arith

module _ (env : Env) (served : IsServed env) (fresh : ProcInfo) where
  run_reader-NoFault :
      (cphfr : CphfReader ProcStates) (options : Text) (w : World)
      → Admits NoFault (cphfr.read options w.states w.procs)
      → Admits NoFault (run_reader cphfr options w)
  unfolding run_reader
  run_reader-NoFault cphfr options w h =
      Admits->>= NoFault (cphfr.read options w.states w.procs) _ h λ x e. tt

  dig-NoFault : (d : DataDigger) (w : World) → IsReadable d → Admits NoFault (dig env fresh d w)
  unfolding dig new_reader
  dig-NoFault (reader, options) w (inl (e, h)) = rw e (
      run_reader-NoFault (proc_reader env fresh) options w (
        ProcFaults.read-Admits NoFault (IsFound env) env (read_ids-NoFault env served)
          (read_device-NoFault env served) (read_proc_stat-IsFound env) fresh w.states options
          w.procs h))
  dig-NoFault (reader, options) w (inr (e, h)) =
      let txt_fd = init_txt_fd env.file_limit in
      rw e (
        run_reader-NoFault (filestat_reader env) options w (
          Admits->>= NoFault (FileStat.read env txt_fd options w.procs) _
            (FileFaults.read-Admits NoFault env (read_file_name-NoFault env served)
              (read_device-NoFault env served) txt_fd options w.procs h)
            λ x e'. tt))

  pub build_served :
      (diggers : List DataDigger) (w : World)
      → All IsReadable diggers
      → (w' : World) × (build env fresh diggers w ≡ ok w')
  unfolding build
  build_served [] w h = (w, refl)
  build_served (d ∷ ds) w h =
      let (w₁, e₁) = Admits-NoFault (dig env fresh d w) (dig-NoFault d w h.0) in
      let (w₂, e₂) = build_served ds w₁ h.1 in (w₂, ap (λ m. m >>= build env fresh ds) e₁ ∙ e₂)
