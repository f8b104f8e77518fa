-- ===== src/Proc.antt =====
-- src/ProcReader.{h,cpp}: the attributes of the processes. What `perror` writes to the error stream
-- is left out.
mod Tests
pub mod Sample
pub mod Opt
pub mod StateId
pub mod StateLabel
pub mod Command
pub mod Stat
mod Values
pub mod Cases
pub mod Labels
pub mod Attributes
pub mod OneLine
pub mod Grows
pub mod Faults
pub mod Owner
pub mod Coherent
pub mod Order
pub mod Alone
pub mod Tables
pub mod Shown
pub mod StartTime
unfoldable pub use Values.*
use cphf.Base.{
  ℕ, zero, suc, ◌+◌, ◌-◌, ◌%◌, ◌^◌, Bool, true, false, ◌||◌, List, [], ◌∷◌, ◌++◌, Option, none,
  some, ltb, ◌==◌, if◌then◌else◌, Run, ok, fault, null_pointer, bad_option, ◌>>=◌,
}
use cphf.Base.Word.{u32, u64}
use cphf.Base.Int.{ℤ, pos, negsuc, quot, signed64, pattern64}
use cphf.Text.{Text, codes, decimal, hexadecimal, c_str, skip_space}
use cphf.Common.{Attribute, AttributeFlags}
use cphf.Common.Id
use cphf.Common.Label
use cphf.Map.{Map, insert, find, insert_hash, int_less}
use cphf.Files.{ProcFile, ProcMap, add_proc_attribute}
use cphf.Env.{Env}
use cphf.Reader.{format, read_time, read_etime, read_perms, format_date_time}
use cphf.Reader.Device.{read_device, read_number}
use cphf.Proc.Opt
use cphf.Proc.StateId
use cphf.Proc.StateLabel
use cphf.Proc.Stat.{ProcInfo, read_proc_stat}

-- `PROC_OPTS_DEFAULT`
abbrev pub proc_opts_default : Text
proc_opts_default = codes "PnUqMduGgesvrTDSic"

unfoldable pub create_attrib_map : AttributeFlags → AttributeFlags
create_attrib_map flags₀ =
    let flags₁ = insert_hash (Id.cmd, Label.cmd) flags₀ in
    let flags₂ = insert_hash (Id.ppid, Label.ppid) flags₁ in
    let flags₃ = insert_hash (Id.procgid, Label.procgid) flags₂ in
    let flags₄ = insert_hash (Id.loginname, Label.loginname) flags₃ in
    let flags₅ = insert_hash (Id.uid, Label.uid) flags₄ in
    let flags₆ = insert_hash (Id.ugid_name, Label.ugid_name) flags₅ in
    let flags₇ = insert_hash (Id.ugid, Label.ugid) flags₆ in
    let flags₈ = insert_hash (Id.pstart_time, Label.pstart_time) flags₇ in
    let flags₉ = insert_hash (Id.pcpu_time, Label.pcpu_time) flags₈ in
    let flags₁₀ = insert_hash (Id.device, Label.device) flags₉ in
    let flags₁₁ = insert_hash (Id.pvms, Label.pvms) flags₁₀ in
    let flags₁₂ = insert_hash (Id.prss, Label.prss) flags₁₁ in
    let flags₁₃ = insert_hash (Id.text_region, Label.text_region) flags₁₂ in
    let flags₁₄ = insert_hash (Id.data_region, Label.data_region) flags₁₃ in
    let flags₁₅ = insert_hash (Id.stack_region, Label.stack_region) flags₁₄ in
    let flags₁₆ = insert_hash (Id.epi, Label.epi) flags₁₅ in
    insert_hash (Id.pstate, Label.pstate) (insert_hash (Id.perms, Label.perms) flags₁₆)

-- What a call of `processOpiton` may change: the record of the process, and the table of states.
pub record ProcReading : Type 0 where
  pub info : ProcInfo
  pub states : ProcStates

abbrev with_ids : Env → ℕ → ℕ → ProcReading → Run (Attribute × ProcReading)
with_ids env id option r = do
  (value, info) ← read_ids env option r.info
  ok ((id, value), record r { info = info })

-- `processOpiton`
unfoldable pub process_option : Env → ℕ → ProcReading → Run (Attribute × ProcReading)
unfolding state_label format_range
process_option env option r =
    if option == Opt.command
    then ok ((Id.cmd, read_cmd env info.pid), r)
    else if option == Opt.ppid
    then ok ((Id.ppid, format info.ppid), r)
    else if option == Opt.procgid
    then ok ((Id.procgid, format info.procgid), r)
    else if option == Opt.username
    then with_ids env Id.loginname option r
    else if option == Opt.uid
    then with_ids env Id.uid option r
    else if option == Opt.ugid_name
    then with_ids env Id.ugid_name option r
    else if option == Opt.ugid
    then with_ids env Id.ugid option r
    else if option == Opt.start_time
    then ok ((Id.pstart_time, read_start_time env info.starttime format_date_time), r)
    else if option == Opt.cpu_time
    then ok ((Id.pcpu_time, read_etime env (u64 (info.pstime + info.putime))), r)
    else if option == Opt.state
    then (let (label, states') = state_label info.state r.states in
        ok ((Id.pstate, label), record r { states = states' }))
    else if option == Opt.device
    then (read_device env info.info >>= λ value. ok ((Id.device, value), r))
    else if option == Opt.vms
    then ok ((Id.pvms, format info.vms), r)
    else if option == Opt.rms
    then ok ((Id.prss, format info.rss), r)
    else if option == Opt.mem_text
    then ok ((Id.text_region, format_range info.textbegin info.textend), r)
    else if option == Opt.mem_data
    then ok ((Id.data_region, format_range info.databegin info.dataend), r)
    else if option == Opt.mem_stack
    then ok ((Id.stack_region, format_range info.stackbegin info.esp), r)
    else if option == Opt.inst_ptr
    then ok ((Id.epi, format_range info.epi inst_pointer), r)
    else if option == Opt.perms
    then ok ((Id.perms, read_perms info.info.st_mode), r)
    else fault (bad_option option)
  where
    open r use {info}

-- `addReader`
unfoldable pub add_reader : Attribute → Map ℕ Text → Map ℕ Text
add_reader attribute readers = insert int_less attribute.0 attribute.1 readers

unfoldable pub collect : Env → Text → ProcReading → Map ℕ Text → Run (Map ℕ Text × ProcReading)
unfolding add_reader
collect env [] r readers = ok (readers, r)
collect env (option ∷ options) r readers = do
  (attribute, r') ← process_option env option r
  collect env options r' (add_reader attribute readers)

unfoldable pub run_readers : Map ℕ Text → ProcFile → Run ProcFile
run_readers [] proc = ok proc
run_readers ((id, value) ∷ readers) proc = do
  proc' ← add_proc_attribute id value proc
  run_readers readers proc'

-- The branch of the loop in `do_read` that reads the options.
unfoldable pub fill_process : Env → Text → ℕ → ProcFile → ProcReading → Run (ProcFile × ProcReading)
unfolding collect run_readers
fill_process env options pid proc r = do
  (readers, r') ← collect env options (record r { info = record r.info { pid = pid } }) []
  proc' ← run_readers readers proc
  ok (proc', r')

-- The body of that loop, with the lines that it prints. The record is the same one for every
-- process.
unfoldable pub read_process :
    Env → Text → ℕ → ProcFile → ProcReading → Run (ProcFile × ProcReading × List Text)
unfolding fill_process
read_process env options pid proc r =
    let (found, info, lines) = read_proc_stat env pid r.info in
    let r₁ : ProcReading = record r { info = info } in
    if found
    then (fill_process env options pid proc r₁ >>= λ filled. ok (filled.0, filled.1, lines))
    else ok (proc, r₁, lines)

unfoldable pub read_processes :
    Env → Text → ProcMap → ProcReading → Run (ProcMap × ProcReading × List Text)
unfolding read_process
read_processes env options [] r = ok ([], r, [])
read_processes env options ((pid, proc) ∷ procs) r = do
  (proc', r₁, lines₁) ← read_process env options pid proc r
  (procs', r₂, lines₂) ← read_processes env options procs r₁
  ok ((pid, proc') ∷ procs', r₂, lines₁ ++ lines₂)

-- `do_read`. `fresh` is what the new record holds before anything is written to it.
unfoldable pub read :
    Env → ProcInfo → ProcStates → Text → ProcMap → Run (ProcMap × ProcStates × List Text)
unfolding read_processes
read env fresh states options procs = do
  (procs', r, lines) ← read_processes env options procs (record { info = fresh; states = states })
  ok (procs', r.states, lines)
