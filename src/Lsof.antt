-- ===== src/Lsof.antt =====
-- src/LSOFReader.{h,cpp}: reading the output of `lsof -F`. What the child process writes comes from
-- outside, as does the failure to start it.
pub mod Attributes
pub mod Scan
pub mod Load
pub mod Words
pub mod Whole
pub mod Own
pub mod Invariant
pub mod Sorted
pub mod Store
pub mod Keeps
pub mod Pointers
mod Tests
use cphf.Base.{
  ℕ, zero, suc, ◌+◌, ◌^◌, Bool, true, false, List, [], ◌∷◌, ◌++◌, Option, none, some, ltb, ◌==◌,
  if◌then◌else◌, Run, ok, fault, null_pointer, indeterminate, buffer_overflow, ◌>>=◌, length, ◌≡◌,
  refl,
}
use cphf.Base.Word.{u32, u64, sign_extend}
use cphf.Text.{Text, codes, decimal, c_str, is_space, skip_space, same, atoi}
use cphf.Common.{Attribute, AttributeFlags}
use cphf.Common.Id
use cphf.Common.Label
use cphf.Map.{insert, find, assign, insert_hash, int_less}
use cphf.Files.{
  UnlinkedFile, ProcFile, ProcMap, new_unlinked_file, new_proc_file, add_unlinked_attribute,
  add_proc_attribute, number, add_file, file_key,
}

-- `LSOF_OPTS_DEFAULT`
abbrev pub lsof_opts_default : Text
lsof_opts_default = codes "pfg"

-- `enum lsof_flags`
abbrev pub lsof_id_fd : ℕ
lsof_id_fd = b'f'

abbrev pub lsof_id_pid : ℕ
lsof_id_pid = b'p'

abbrev pub lsof_id_flags : ℕ
lsof_id_flags = b'G'

unfoldable pub create_attrib_map : AttributeFlags → AttributeFlags
create_attrib_map flags =
    insert_hash (Id.pid, Label.pid)
      (insert_hash (Id.flags, Label.flags) (insert_hash (Id.fd, Label.fd) flags))

-- A run of bytes that are no white space, and the text behind it: `%s`.
unfoldable pub word : Text → Text × Text
word [] = ([], [])
word (c ∷ s) = let (w, rest) = word s in if is_space c then ([], c ∷ s) else (c ∷ w, rest)

-- One call of `fscanf(fin, "%c%s\n", &lsofid, charbuff)`.
pub data Scanned : Type 0 where
  -- nothing is left: the result is EOF
  end_of_file : Scanned
  -- the text ends behind the id: the result is 1, and the buffer is as it was
  id_only : ℕ → Scanned
  -- the result is 2
  id_and_value : ℕ → Text → Text → Scanned

unfoldable pub scan_value : ℕ → Text → Scanned
scan_value id [] = id_only id
scan_value id (c ∷ s) = let (w, rest) = word (c ∷ s) in id_and_value id w (skip_space rest)

unfoldable pub scan : Text → Scanned
scan [] = end_of_file
scan (id ∷ s) = scan_value id (skip_space s)

-- The variables of `bufferedRead`. A pointer to a process is the key of its entry, a pointer to a
-- file the keys of process and file: no entry is ever taken out. `none` is a null pointer, and for
-- `pid` and `charbuff` a variable that nothing has set. What the string stream `strbuff` holds is
-- passed to each case by `read_field`.
pub record Reading : Type 0 where
  pub charbuff : Option Text
  pub pid : Option ℕ
  pub pf : Option ℕ
  pub ulf : Option (ℕ × ℕ)
  pub txt_fd_counter : ℕ
  pub procs : ProcMap

abbrev pub set_value {ℓ} : {A : Type ℓ} → Option A → Run A
set_value none = fault indeterminate
set_value (some a) = ok a

abbrev pub pointer {ℓ} : {A : Type ℓ} → Option A → Run A
pointer none = fault null_pointer
pointer (some a) = ok a

-- `fid` and the counter behind it, by what the stream holds and by the buffer.
unfoldable pub descriptor : Text → Text → ℕ → Run (ℕ × ℕ)
descriptor strbuff value counter =
    if same strbuff (codes "txt")
    then ok (counter, u64 (counter + 1))
    else (number (atoi value) >>= λ n. ok (sign_extend n, counter))

-- The case `LSOF_ID_FD`. `txt_fd` is `ULF_TXT_FD`, and `strbuff` what the string stream holds.
unfoldable pub read_fd : ℕ → Text → Reading → Run Reading
read_fd txt_fd strbuff r = do
  buffer ← set_value r.charbuff
  (fid, counter) ← descriptor (strbuff ++ c_str buffer) (c_str buffer) r.txt_fd_counter
  pid ← set_value r.pid
  k ← pointer r.pf
  p ← pointer (find int_less k r.procs)
  let p' = add_file fid (new_unlinked_file txt_fd pid fid) p
  ok (record r {
    ulf = some (k, file_key fid);
    txt_fd_counter = counter;
    procs = assign int_less k p' r.procs;
  })

-- The case `LSOF_ID_FLAGS`: nothing is written to the stream before it is stored.
unfoldable pub read_flags : Text → Reading → Run Reading
read_flags strbuff r = do
  (k, fk) ← pointer r.ulf
  p ← pointer (find int_less k r.procs)
  f ← pointer (find int_less fk p.ul_files)
  let f' = add_unlinked_attribute Id.flags strbuff f
  ok (record r {
    procs = assign int_less k (record p { ul_files = assign int_less fk f' p.ul_files }) r.procs;
  })

-- The case `LSOF_ID_PID`: an entry that is there is gone on with.
unfoldable pub read_pid : Text → Reading → Run Reading
read_pid strbuff r = do
  buffer ← set_value r.charbuff
  n ← number (atoi (c_str buffer))
  let key = u32 (sign_extend n)
  let procs = insert int_less key new_proc_file r.procs
  p ← pointer (find int_less key procs)
  p' ← add_proc_attribute Id.pid (strbuff ++ c_str buffer) p
  ok (record r { pid = some (sign_extend n); pf = some key; procs = assign int_less key p' procs })

-- What the string stream holds where the body of the loop starts: it is made before the loop, and
-- emptied at the end of the body, which no case leaves early.
abbrev pub empty_stream : Text
empty_stream = []

-- The body of the loop.
unfoldable pub read_field : ℕ → ℕ → Reading → Run Reading
unfolding read_fd read_flags read_pid
read_field txt_fd lsofid r =
    if lsofid == lsof_id_fd
    then read_fd txt_fd empty_stream r
    else if lsofid == lsof_id_flags
    then read_flags empty_stream r
    else if lsofid == lsof_id_pid
    then read_pid empty_stream r
    else ok r

-- `%s` has no width: a text of 1024 bytes or more overruns the buffer.
unfoldable pub store_value : Text → Reading → Run Reading
store_value w r =
    if ltb (length w) 1024 then ok (record r { charbuff = some w }) else fault buffer_overflow

-- A round of the loop, before the rounds `continue` on the text that is left.
unfoldable pub read_round : ℕ → Scanned → Reading → (Text → Reading → Run Reading) → Run Reading
read_round txt_fd end_of_file r continue = ok r
read_round txt_fd (id_only id) r continue = read_field txt_fd id r >>= λ r'. continue [] r'
read_round txt_fd (id_and_value id w rest) r continue = do
  r₁ ← store_value w r
  r₂ ← read_field txt_fd id r₁
  continue rest r₂

-- The loop, with a unit of fuel for each round.
unfoldable pub read_loop : ℕ → ℕ → Text → Reading → Run Reading
unfolding read_round
read_loop txt_fd zero s r = ok r
read_loop txt_fd (suc fuel) s r = read_round txt_fd (scan s) r (read_loop txt_fd fuel)

abbrev pub start_reading : ℕ → ProcMap → Reading
start_reading txt_fd procs = record {
  charbuff = none;
  pid = none;
  pf = none;
  ulf = none;
  txt_fd_counter = u64 (txt_fd + 1);
  procs = procs;
}

unfoldable pub buffered_read : ℕ → Text → ProcMap → Run ProcMap
unfolding read_loop
buffered_read txt_fd output procs = do
  r ← read_loop txt_fd (suc (length output)) output (start_reading txt_fd procs)
  ok r.procs

-- What becomes of the pipe and the child process.
pub data Child : Type 0 where
  pipe_failed : Child
  fork_failed : Child
  writes : Text → Child

-- The map, and the lines that the parent prints.
unfoldable pub wait_for : ℕ → Child → ProcMap → Run (ProcMap × List Text)
wait_for txt_fd pipe_failed procs =
    ok (procs, codes "ERROR: could not form pipe for LSOFReader\n" ∷ [])
wait_for txt_fd fork_failed procs = ok (procs, codes "ERROR: Could not fork process.\n" ∷ [])
wait_for txt_fd (writes output) procs =
    buffered_read txt_fd output procs >>= λ procs'. ok (procs', [])

unfoldable pub get_files_info :
    ℕ → (List Text → Child) → List Text → ProcMap → Run (ProcMap × List Text)
unfolding wait_for
get_files_info txt_fd child argv procs = wait_for txt_fd (child argv) procs

-- `do_read`
unfoldable pub read : ℕ → (List Text → Child) → Text → ProcMap → Run (ProcMap × List Text)
unfolding get_files_info
read txt_fd child options procs =
    get_files_info txt_fd child (codes "lsof" ∷ codes "-F" ∷ options ∷ codes "+aL1" ∷ []) procs
