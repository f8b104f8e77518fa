-- ===== src/Lsof/Store.antt =====
-- `bufferedRead` of src/LSOFReader.cpp on shared objects: the map of processes and the maps of files
-- hold references, `pf` and `ulf` are references too, and attributes are added to the object that a
-- reference leads to, whoever else holds it.
pub mod Owned
pub mod Processes
pub mod Opened
pub mod Says
pub mod Steps
pub mod Refines
mod Tests
use cphf.Base.{
  ℕ, zero, suc, ◌+◌, List, [], ◌∷◌, ◌++◌, Option, none, some, ltb, ◌==◌, if◌then◌else◌, Run, ok,
  fault, buffer_overflow, ◌>>=◌, length,
}
use cphf.Base.Word.{u32, u64, sign_extend}
use cphf.Text.{Text, c_str, atoi}
use cphf.Common.{Attribute}
use cphf.Common.Id
use cphf.Map.{Map, insert, find, int_less}
use cphf.Files.{UnlinkedFile, new_unlinked_file, add_unlinked_attribute, number, file_key}
use cphf.Lsof.{
  lsof_id_fd, lsof_id_flags, lsof_id_pid, Scanned, end_of_file, id_only, id_and_value, scan,
  set_value, pointer, descriptor, empty_stream,
}

-- A `ProcFile` in memory: its files are pointers.
pub record ProcObject : Type 0 where
  pub pid : ℕ
  pub ppid : ℕ
  pub attributes : List Attribute
  pub ul_files : Map ℕ ℕ

-- Objects are made at `next`, and none is ever deleted.
pub record Memory : Type 0 where
  pub next : ℕ
  pub proc_at : ℕ → ProcObject
  pub file_at : ℕ → UnlinkedFile

abbrev pub write : {A : Type 0} → ℕ → A → (ℕ → A) → ℕ → A
write r a f q = if q == r then a else f q

-- `new ProcFile()`
abbrev pub new_object : ProcObject
new_object = record { pid = 0; ppid = 0; attributes = []; ul_files = [] }

-- `addAttribute` of a process.
unfoldable pub add_object_attribute : ℕ → Text → ProcObject → Run ProcObject
add_object_attribute id value o =
    if id == Id.pid
    then (number (atoi value) >>= λ n.
        ok (record o { pid = n; attributes = o.attributes ++ (id, value) ∷ [] }))
    else if id == Id.cmd
    then ok (record o { attributes = (id, value) ∷ o.attributes })
    else ok (record o { attributes = o.attributes ++ (id, value) ∷ [] })

-- The variables of `bufferedRead`.
pub record Cursor : Type 0 where
  pub charbuff : Option Text
  pub pid : Option ℕ
  pub pf : Option ℕ
  pub ulf : Option ℕ
  pub txt_fd_counter : ℕ
  pub memory : Memory
  pub procs : Map ℕ ℕ

-- `addFile` gives the file that the map has under the key, which need not be the new one.
unfoldable pub read_fd : ℕ → Text → Cursor → Run Cursor
read_fd txt_fd strbuff c = do
  buffer ← set_value c.charbuff
  (fid, counter) ← descriptor (strbuff ++ c_str buffer) (c_str buffer) c.txt_fd_counter
  pid ← set_value c.pid
  pf ← pointer c.pf
  let mem = c.memory
  let o = mem.proc_at pf
  let files = insert int_less (file_key fid) mem.next o.ul_files
  ulf ← pointer (find int_less (file_key fid) files)
  ok (record c {
    ulf = some ulf;
    txt_fd_counter = counter;
    memory = record {
      next = suc mem.next;
      proc_at = write pf (record o { ul_files = files }) mem.proc_at;
      file_at = write mem.next (new_unlinked_file txt_fd pid fid) mem.file_at;
    };
  })

unfoldable pub read_flags : Text → Cursor → Run Cursor
read_flags strbuff c = do
  ulf ← pointer c.ulf
  let mem = c.memory
  let f = add_unlinked_attribute Id.flags strbuff (mem.file_at ulf)
  ok (record c { memory = record mem { file_at = write ulf f mem.file_at } })

-- `insert` gives the process that the map has under the key.
unfoldable pub read_pid : Text → Cursor → Run Cursor
unfolding add_object_attribute
read_pid strbuff c = do
  buffer ← set_value c.charbuff
  n ← number (atoi (c_str buffer))
  let key = u32 (sign_extend n)
  let mem = c.memory
  let proc_at = write mem.next new_object mem.proc_at
  let procs = insert int_less key mem.next c.procs
  pf ← pointer (find int_less key procs)
  o ← add_object_attribute Id.pid (strbuff ++ c_str buffer) (proc_at pf)
  ok (record c {
    pid = some (sign_extend n);
    pf = some pf;
    memory = record mem { next = suc mem.next; proc_at = write pf o proc_at };
    procs = procs;
  })

unfoldable pub read_field : ℕ → ℕ → Cursor → Run Cursor
unfolding read_fd read_flags read_pid
read_field txt_fd lsofid c =
    if lsofid == lsof_id_fd
    then read_fd txt_fd empty_stream c
    else if lsofid == lsof_id_flags
    then read_flags empty_stream c
    else if lsofid == lsof_id_pid
    then read_pid empty_stream c
    else ok c

unfoldable pub store_value : Text → Cursor → Run Cursor
store_value w c =
    if ltb (length w) 1024 then ok (record c { charbuff = some w }) else fault buffer_overflow

unfoldable pub read_round : ℕ → Scanned → Cursor → (Text → Cursor → Run Cursor) → Run Cursor
read_round txt_fd end_of_file c continue = ok c
read_round txt_fd (id_only id) c continue = read_field txt_fd id c >>= λ c'. continue [] c'
read_round txt_fd (id_and_value id w rest) c continue = do
  c₁ ← store_value w c
  c₂ ← read_field txt_fd id c₁
  continue rest c₂

unfoldable pub read_loop : ℕ → ℕ → Text → Cursor → Run Cursor
unfolding read_round
read_loop txt_fd zero s c = ok c
read_loop txt_fd (suc fuel) s c = read_round txt_fd (scan s) c (read_loop txt_fd fuel)

abbrev pub start_reading : ℕ → Memory → Map ℕ ℕ → Cursor
start_reading txt_fd memory procs = record {
  charbuff = none;
  pid = none;
  pf = none;
  ulf = none;
  txt_fd_counter = u64 (txt_fd + 1);
  memory = memory;
  procs = procs;
}

unfoldable pub buffered_read : ℕ → Text → Memory → Map ℕ ℕ → Run (Memory × Map ℕ ℕ)
unfolding read_loop
buffered_read txt_fd output memory procs = do
  c ← read_loop txt_fd (suc (length output)) output (start_reading txt_fd memory procs)
  ok (c.memory, c.procs)
