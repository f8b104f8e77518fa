-- ===== src/Main/Accepted.antt =====
-- The options that `checkOptions` of src/cphf.cpp accepts, and the cases of the readers for them.
pub mod Handled
use cphf.Base.{
  ℕ, zero, suc, ◌+◌, ◌*◌, ◌≡◌, Bool, true, false, ◌||◌, inl, inr, [], ◌∷◌, Option, none, some, ◌==◌,
  ==_iff, ltb, if◌then◌else◌, All, Bool-cases, Run, ok, fault, Fault, indeterminate, bad_option,
  null_pointer, bad_number, out_of_range, buffer_overflow, length, ◌>>=◌,
}
use mathlib.Core.Path.{subst}
use cphf.Text.{Text, codes, holds}
use cphf.Map.{Map}
use cphf.Env.{Env, Stat}
use cphf.Reader.Device.{
  read_device, build_device_map, build_loop, read_driver, DeviceMap, Driver, read_word, build_from,
  build_step, take_label, take_name,
}
use cphf.Proc
use cphf.Proc.Faults as ProcFaults
use cphf.Proc.{proc_opts_default, ProcReading, read_ids, entry_of, cached}
use cphf.Proc.Stat.{ProcInfo}
use cphf.FileStat
use cphf.FileStat.Faults as FileFaults
use cphf.FileStat.{filestat_opts_default, FileInfo, read_link, read_file_name, take_link}
use cphf.Main.{check_options, is_no}
use cphf.Main.Options.{check_options_iff}
use cphf.Main.Accepted.Handled.{
  IsSystemFault, IsHandled, read_file_name-IsHandled, read_ids-IsHandled, read_device-IsHandled,
}

-- Where `checkOptions` accepts the options of `--file`, other than "no", the reader has a case with
-- an id for each: it reads them all, unless the system itself fails it.
pub check_options-file_collect :
    (env : Env) (options cmd : Text) (info : FileInfo)
    → is_no options ≡ false
    → check_options filestat_opts_default options cmd ≡ (true, [])
    → IsHandled (FileStat.collect env options info [])
check_options-file_collect env options cmd info h e =
    FileFaults.collect-Admits IsSystemFault env (read_file_name-IsHandled env)
      (read_device-IsHandled env) options info []
      ((check_options_iff filestat_opts_default options cmd h).0 e)

-- The same of the options of `--proc`.
pub check_options-proc_collect :
    (env : Env) (options cmd : Text) (r : ProcReading)
    → is_no options ≡ false
    → check_options proc_opts_default options cmd ≡ (true, [])
    → IsHandled (Proc.collect env options r [])
check_options-proc_collect env options cmd r h e =
    ProcFaults.collect-Admits IsSystemFault (λ st. Unit) env
      (λ option info seen. read_ids-IsHandled env option info) (read_device-IsHandled env) options r
      [] tt ((check_options_iff proc_opts_default options cmd h).0 e)
