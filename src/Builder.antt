-- ===== src/Builder.antt =====
-- src/ProcFileEntryBuilder.{h,cpp}: the readers in turn, and the list of what they found.
mod Tests
pub mod Sample
pub mod Readers
pub mod Announced
pub mod Agreed
pub mod Steps
pub mod Columns
pub mod Fitting
pub mod OneLine
pub mod WellFormed
pub mod Reread
pub mod Flatten
pub mod Labels
pub mod Paths
pub mod Shape
pub mod Shown
pub mod Listed
pub mod Found
pub mod Grows
pub mod Keeps
use cphf.Base.{
  ℕ, ◌+◌, ◌-◌, ◌^◌, Bool, true, false, List, [], ◌∷◌, ◌++◌, Option, none, some, ◌==◌, if◌then◌else◌,
  Run, ok, ◌>>=◌,
}
use cphf.Base.Word.{u32, u64}
use cphf.Base.Int.{pos, to_int}
use cphf.Text.{Text, codes}
use cphf.Common.{AttributeFlags}
use cphf.Files.{ProcMap, ProcFile, CphfFile, proc_file, flatten}
use cphf.Env.{Env}
use cphf.Lsof
use cphf.FileStat
use cphf.Proc
use cphf.Proc.{ProcStates, procstate}
use cphf.Proc.Stat.{ProcInfo}
use cphf.Reader.{print_int, CphfReader}

-- `init::init_TxtFD`, the value of `ULF_TXT_FD`: unsigned sums wrap around.
unfoldable pub init_txt_fd : Option ℕ → ℕ
init_txt_fd none = u32 (2 ^ 32 - 1 + 1)
init_txt_fd (some rlim_max) = u64 (rlim_max + 1)

-- `enum reader_ids`
abbrev pub cphf_reader_lsof : ℕ
cphf_reader_lsof = 0

abbrev pub cphf_reader_proc : ℕ
cphf_reader_proc = 1

abbrev pub cphf_reader_filestat : ℕ
cphf_reader_filestat = 2

-- `data_digger`: a reader and its options.
abbrev pub DataDigger : Type 0
DataDigger = ℕ × Text

-- What the program keeps: `CPHFFile::attributeFlags`, `procMap_`, `ProcReader::procstate`, and the
-- lines printed so far.
pub record World : Type 0 where
  pub flags : AttributeFlags
  pub procs : ProcMap
  pub states : ProcStates
  pub lines : List Text

abbrev pub initial : World
initial = record { flags = []; procs = []; states = procstate; lines = [] }

abbrev pub lsof_reader : Env → CphfReader ProcStates
lsof_reader env = record {
  create_attrib_map = Lsof.create_attrib_map;
  read = λ options states procs.
      Lsof.read (init_txt_fd env.file_limit) env.lsof options procs >>= λ x. ok (x.0, states, x.1);
}

-- `fresh` is what a new record of a process holds.
abbrev pub proc_reader : Env → ProcInfo → CphfReader ProcStates
proc_reader env fresh = record {
  create_attrib_map = Proc.create_attrib_map;
  read = λ options states procs. Proc.read env fresh states options procs;
}

abbrev pub filestat_reader : Env → CphfReader ProcStates
filestat_reader env = record {
  create_attrib_map = FileStat.create_attrib_map;
  read = λ options states procs.
      FileStat.read env (init_txt_fd env.file_limit) options procs >>= λ procs'.
      ok (procs', states, []);
}

-- The cases of the `switch`; `none` is the null pointer of the default.
unfoldable pub new_reader : Env → ProcInfo → ℕ → Option (CphfReader ProcStates)
new_reader env fresh reader =
    if reader == cphf_reader_lsof
    then some (lsof_reader env)
    else if reader == cphf_reader_proc
    then some (proc_reader env fresh)
    else if reader == cphf_reader_filestat
    then some (filestat_reader env)
    else none

-- What a reader does to the world: `createAttribMap`, then `read`.
unfoldable pub run_reader : CphfReader ProcStates → Text → World → Run World
run_reader cphfr options w = do
  (procs, states, lines) ← cphfr.read options w.states w.procs
  ok (record w {
    flags = cphfr.create_attrib_map w.flags;
    procs = procs;
    states = states;
    lines = w.lines ++ lines;
  })

reader_error : ℕ → Text
reader_error reader =
    codes "ERROR: READER WITH ID '" ++ print_int (to_int (pos reader)) ++ codes "' NOT RECOGNIZE\n"

-- One round of the loop.
unfoldable pub dig : Env → ProcInfo → DataDigger → World → Run World
unfolding new_reader run_reader reader_error
dig env fresh (reader, options) w = elim (new_reader env fresh reader) [
  | none ↦ ok (record w { lines = w.lines ++ reader_error reader ∷ [] })
  | some cphfr ↦ run_reader cphfr options w
]

unfoldable pub build : Env → ProcInfo → List DataDigger → World → Run World
unfolding dig
build env fresh [] w = ok w
build env fresh (digger ∷ diggers) w = do w' ← dig env fresh digger w; build env fresh diggers w'

-- `flattenMap`
unfoldable pub flatten_onto : Bool → Bool → ProcMap → List CphfFile → List CphfFile
unfolding flatten
flatten_onto procs files [] built_list = built_list
flatten_onto procs files ((pid, pf) ∷ m) built_list =
    let list₁ = if procs then built_list ++ proc_file pf ∷ [] else built_list in
    let list₂ = if files then flatten pf list₁ else list₁ in flatten_onto procs files m list₂

unfoldable pub flatten_map : Bool → Bool → ProcMap → List CphfFile
unfolding flatten_onto
flatten_map procs files m = flatten_onto procs files m []
