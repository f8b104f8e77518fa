-- ===== src/FileStat.antt =====
-- src/FileStatReader.{h,cpp}: the attributes of the unlinked files.
mod Tests
pub mod Opt
pub mod Cases
pub mod Labels
pub mod Attributes
pub mod OneLine
pub mod Grows
pub mod Faults
pub mod Link
pub mod Order
pub mod Shown
use cphf.Base.{
  ℕ, zero, suc, ◌+◌, ◌*◌, Bool, true, false, List, [], ◌∷◌, ◌++◌, Option, none, some, bit_and, ltb,
  ◌==◌, if◌then◌else◌, length, Run, ok, fault, indeterminate, null_pointer, bad_number, bad_option,
  ◌>>=◌,
}
use cphf.Text.{Text, codes, decimal, c_str}
use cphf.Common.{Attribute, AttributeFlags}
use cphf.Common.Id
use cphf.Common.Label
use cphf.Map.{Map, insert, insert_hash, int_less, for_each}
use cphf.Files.{UnlinkedFile, ProcFile, ProcMap, add_unlinked_attribute, add_file_attributes}
use cphf.Env.{Env, Stat}
use cphf.Reader.{format, read_time, read_perms, format_date_time, s_ifmt, s_ifdir}
use cphf.FileStat.Opt
use cphf.Reader.Device.{read_device}

-- `FILESTAT_OPTS_DEFAULT`
abbrev pub filestat_opts_default : Text
filestat_opts_default = codes "niugMamcdsp"

unfoldable pub create_attrib_map : AttributeFlags → AttributeFlags
create_attrib_map flags₀ =
    let flags₁ = insert_hash (Id.filename, Label.filename) flags₀ in
    let flags₂ = insert_hash (Id.inode, Label.inode) flags₁ in
    let flags₃ = insert_hash (Id.uid, Label.uid) flags₂ in
    let flags₄ = insert_hash (Id.ugid, Label.ugid) flags₃ in
    let flags₅ = insert_hash (Id.filemode, Label.filemode) flags₄ in
    let flags₆ = insert_hash (Id.access_t, Label.access_t) flags₅ in
    let flags₇ = insert_hash (Id.mod_t, Label.mod_t) flags₆ in
    let flags₈ = insert_hash (Id.stat_change_t, Label.stat_change_t) flags₇ in
    let flags₉ = insert_hash (Id.device, Label.device) flags₈ in
    insert_hash (Id.perms, Label.perms)
      (insert_hash (Id.filesize, Label.filesize) (insert_hash (Id.pid, Label.pid) flags₉))

-- `formPath`. `txt_fd` is `ULF_TXT_FD`.
unfoldable pub form_path : ℕ → ℕ → ℕ → Text
form_path txt_fd pid fid =
    codes "/proc/"
    ++ decimal pid
    ++ (if ltb txt_fd fid then codes "/exe" else codes "/fd/" ++ decimal fid)

-- What the loop of `readFileName` does with the result of `readlink` at a buffer of `size` bytes.
unfoldable pub take_link : ℕ → Run Text → Option Text → Run Text
take_link size again none = ok []
take_link size again (some bytes) = if length bytes == size then again else ok (c_str bytes)

-- The loop of `readFileName`. The fuel counts how often the size can be shifted before it leaves
-- `long long`. A failed allocation is written to all the same.
unfoldable pub read_link : Env → Text → ℕ → ℕ → Run Text
unfolding take_link
read_link env path zero size = fault bad_number
read_link env path (suc shifts) size =
    let again = read_link env path shifts (size * 4) in
    if env.alloc (size + 1)
    then take_link size again (env.readlink path size)
    else fault null_pointer

unfoldable pub read_file_name : Env → Text → Run Text
unfolding read_link
read_file_name env path = read_link env path 27 1024

-- `readMode`
unfoldable pub read_mode : ℕ → Text
read_mode mode =
    let kind = bit_and mode s_ifmt in
    if kind == 0o100000
    then codes "Regular File"
    else if kind == s_ifdir
    then codes "Directory"
    else if kind == 0o020000
    then codes "Character Device"
    else if kind == 0o060000
    then codes "Block Device"
    else if kind == 0o010000
    then codes "FIFO (named pipe)"
    else if kind == 0o120000
    then codes "Symbolic Link"
    else if kind == 0o140000
    then codes "Socket"
    else codes "UNKNOWN"

-- `struct file_info`, as far as it is set.
pub record FileInfo : Type 0 where
  pub path : Text
  pub stat : Stat

abbrev with_id : ℕ → Run Text → Run Attribute
with_id id value = value >>= λ v. ok (id, v)

-- `processOpiton`. The owner and group names have a case that sets no id.
unfoldable pub process_option : Env → ℕ → FileInfo → Run Attribute
process_option env option info =
    if option == Opt.name
    then with_id Id.filename (read_file_name env info.path)
    else if option == Opt.inode
    then ok (Id.inode, format info.stat.st_ino)
    else if option == Opt.uid
    then ok (Id.uid, format info.stat.st_uid)
    else if option == Opt.uname
    then fault indeterminate
    else if option == Opt.gid
    then ok (Id.ugid, format info.stat.st_gid)
    else if option == Opt.gname
    then fault indeterminate
    else if option == Opt.mode
    then ok (Id.filemode, read_mode info.stat.st_mode)
    else if option == Opt.access_t
    then ok (Id.access_t, read_time env info.stat.st_atime format_date_time)
    else if option == Opt.mod_t
    then ok (Id.mod_t, read_time env info.stat.st_mtime format_date_time)
    else if option == Opt.stat_change_t
    then ok (Id.stat_change_t, read_time env info.stat.st_ctime format_date_time)
    else if option == Opt.device
    then with_id Id.device (read_device env info.stat)
    else if option == Opt.size
    then ok (Id.filesize, format info.stat.st_size)
    else if option == Opt.perms
    then ok (Id.perms, read_perms info.stat.st_mode)
    else fault (bad_option option)

-- `addReader`: the closure that adds the attribute is kept under its id, the first for each id.
unfoldable pub add_reader : Attribute → Map ℕ Text → Map ℕ Text
add_reader attribute readers = insert int_less attribute.0 attribute.1 readers

-- The loop over the options.
unfoldable pub collect : Env → Text → FileInfo → Map ℕ Text → Run (Map ℕ Text)
unfolding add_reader
collect env [] info readers = ok readers
collect env (option ∷ options) info readers = do
  attribute ← process_option env option info
  collect env options info (add_reader attribute readers)

-- The closures run in the order of their ids.
unfoldable pub run_readers : Map ℕ Text → UnlinkedFile → UnlinkedFile
run_readers [] ulf = ulf
run_readers ((id, value) ∷ readers) ulf = run_readers readers (add_unlinked_attribute id value ulf)

-- `readFileStatAttributes`, from the result of `stat` on: where it failed, nothing is added.
unfoldable pub fill_file : Env → Text → Text → UnlinkedFile → Option Stat → Run UnlinkedFile
unfolding collect run_readers
fill_file env path options ulf none = ok ulf
fill_file env path options ulf (some st) = do
  readers ← collect env options (record { path = path; stat = st }) []
  ok (run_readers readers ulf)

-- `readFileStatAttributes`
unfoldable pub read_file_stat_attributes : Env → ℕ → Text → ℕ → ℕ → UnlinkedFile → Run UnlinkedFile
unfolding form_path fill_file
read_file_stat_attributes env txt_fd options fid pid ulf =
    let path = form_path txt_fd pid fid in fill_file env path options ulf (env.stat path)

-- `do_read`
unfoldable pub read : Env → ℕ → Text → ProcMap → Run ProcMap
unfolding read_file_stat_attributes for_each
read env txt_fd options procs =
    for_each (λ k proc. add_file_attributes (read_file_stat_attributes env txt_fd options) proc)
      procs
