-- ===== src/Main.antt =====
-- src/cphf.cpp: the options of the command line, and the whole run. `getopt_long` is outside: the
-- model starts from the options that it returns.
mod Tests
pub mod Options
pub mod Accepted
pub mod Report
pub mod Reread
pub mod Served
pub mod Runs
pub mod Live
pub mod Attributed
pub mod Described
use cphf.Base.{
  ℕ, Bool, true, false, List, [], ◌∷◌, ◌++◌, ◌==◌, if◌then◌else◌, length, Run, ok, ◌>>=◌, not,
}
use cphf.Text.{Text, codes, same, holds}
use cphf.Lsof.{lsof_opts_default}
use cphf.FileStat.{filestat_opts_default}
use cphf.Proc.{proc_opts_default}
use cphf.Proc.Stat.{ProcInfo}
use cphf.Env.{Env}
use cphf.Builder.{
  DataDigger, World, initial, build, flatten_map, cphf_reader_lsof, cphf_reader_proc,
  cphf_reader_filestat,
}
use cphf.Printer.{print_files}

abbrev pub is_no : Text → Bool
is_no options = same options (codes "no")

abbrev pub option_error : Text → ℕ → Text
option_error cmd option =
    codes "ERROR: option " ++ option ∷ [] ++ codes " is not a recognized " ++ cmd ++ codes " flag\n"

-- The loop of `checkOptions`: are all flags known, and a line for each that is not.
unfoldable pub check_flags : Text → Text → Text → Bool × List Text
unfolding holds
check_flags defaults [] cmd = (true, [])
check_flags defaults (option ∷ options) cmd =
    let (okay, lines) = check_flags defaults options cmd in
    if holds defaults option then (okay, lines) else (false, option_error cmd option ∷ lines)

unfoldable pub check_options : Text → Text → Text → Bool × List Text
unfolding check_flags
check_options defaults options cmd =
    if is_no options then (true, []) else check_flags defaults options cmd

-- The variables of `main` while the options are read.
pub record Flags : Type 0 where
  pub flags_okay : Bool
  pub proc_ops : Text
  pub file_ops : Text
  pub lines : List Text

abbrev pub default_flags : Flags
default_flags = record {
  flags_okay = true;
  proc_ops = proc_opts_default;
  file_ops = filestat_opts_default;
  lines = [];
}

-- The `switch` on an option that `getopt_long` returned with its argument.
unfoldable pub read_option : ℕ × Text → Flags → Flags
unfolding check_options
read_option (opt, optarg) f =
    if opt == b'p'
    then (let (okay, lines) = check_options proc_opts_default optarg (codes "proc") in
        record f { flags_okay = okay; proc_ops = optarg; lines = f.lines ++ lines })
    else if opt == b'f'
    then (let (okay, lines) = check_options filestat_opts_default optarg (codes "file") in
        record f { flags_okay = okay; file_ops = optarg; lines = f.lines ++ lines })
    else f

unfoldable pub read_options : List (ℕ × Text) → Flags → Flags
unfolding read_option
read_options [] f = f
read_options (o ∷ os) f = read_options os (read_option o f)

-- `funcvector`
unfoldable pub diggers : Flags → List DataDigger
diggers f =
    if f.flags_okay
    then (cphf_reader_lsof, lsof_opts_default)
      ∷ ((if is_no f.proc_ops then [] else (cphf_reader_proc, f.proc_ops) ∷ [])
          ++ (if is_no f.file_ops then [] else (cphf_reader_filestat, f.file_ops) ∷ []))
    else []

-- `procs` and `files`, which stay set where the flags are not okay.
unfoldable pub shows_procs : Flags → Bool
shows_procs f = if f.flags_okay then not (is_no f.proc_ops) else true

unfoldable pub shows_files : Flags → Bool
shows_files f = if f.flags_okay then not (is_no f.file_ops) else true

-- `main` from the options on: the lines that are printed.
unfoldable pub run_flags : Env → ProcInfo → Flags → Run (List Text)
unfolding diggers shows_procs shows_files
run_flags env fresh f = do
  let w₀ : World = record initial { lines = f.lines }
  w ← (if length (diggers f) == 1 then ok w₀ else build env fresh (diggers f) w₀)
  report ← print_files w.flags (flatten_map (shows_procs f) (shows_files f) w.procs)
  ok (w.lines ++ report ∷ [])

unfoldable pub main : Env → ProcInfo → List (ℕ × Text) → Run (List Text)
unfolding run_flags read_options
main env fresh options = run_flags env fresh (read_options options default_flags)
