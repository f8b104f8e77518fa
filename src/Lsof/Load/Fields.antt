-- ===== src/Lsof/Load/Fields.antt =====
-- The listings that `lsof` prints for the `p`, `g` and `f` fields, and what loading one means: `load`
-- says it with no buffer, no pointers and no cursor, each process put in whole.
use cphf.Map.Update.{update}
use cphf.Base.{false, ℕ, ◌+◌, ◌^◌, ◌<◌, ◌≡◌, ◌≢◌, List, [], ◌∷◌, ◌++◌, All, map}
use cphf.Base.Word.{u32, u64, int_rank}
use cphf.Text.{Text, codes, decimal, is_digit, same}
use cphf.Common.Id
use cphf.Map.{Map, insert, int_less}
use cphf.Files.{UnlinkedFile, ProcFile, ProcMap, new_unlinked_file, new_proc_file}
use cphf.Lsof.Scan.{Field, IsToken}

-- An open file: the program's text, by its number, or one of the names without a number, as `cwd`.
pub data Descriptor : Type 0 where
  txt : Descriptor
  numbered : ℕ → Descriptor
  other : Text → Descriptor

-- A process by its id and that of its group, and the files that it holds.
abbrev pub Entry : Type 0
Entry = ℕ × ℕ × List Descriptor

abbrev pub Listing : Type 0
Listing = List Entry

unfoldable pub descriptor_field : Descriptor → Field
descriptor_field txt = (b'f', codes "txt")
descriptor_field (numbered n) = (b'f', decimal n)
descriptor_field (other name) = (b'f', name)

unfoldable pub fields : Listing → List Field
unfolding descriptor_field
fields [] = []
fields ((pid, pgid, fds) ∷ l) =
    (b'p', decimal pid) ∷ (b'g', decimal pgid) ∷ (map descriptor_field fds ++ fields l)

-- A file without a number is put under 0.
module _ (txt_fd : ℕ) where
  unfoldable pub load_files : ℕ → List Descriptor → ℕ → Map ℕ UnlinkedFile → Map ℕ UnlinkedFile
  load_files pid [] counter files = files
  load_files pid (txt ∷ fds) counter files =
      load_files pid fds (u64 (counter + 1))
        (insert int_less (u32 counter) (new_unlinked_file txt_fd pid counter) files)
  load_files pid (numbered n ∷ fds) counter files =
      load_files pid fds counter (insert int_less n (new_unlinked_file txt_fd pid n) files)
  load_files pid (other name ∷ fds) counter files =
      load_files pid fds counter (insert int_less 0 (new_unlinked_file txt_fd pid 0) files)

unfoldable pub counter_after : List Descriptor → ℕ → ℕ
counter_after [] counter = counter
counter_after (txt ∷ fds) counter = counter_after fds (u64 (counter + 1))
counter_after (numbered n ∷ fds) counter = counter_after fds counter
counter_after (other name ∷ fds) counter = counter_after fds counter

-- What the lines of a process make of it: its id is set, and noted once more; and its files are put in.
abbrev pub entered : ℕ → ℕ → List Descriptor → ℕ → ProcFile → ProcFile
entered txt_fd pid fds counter p = record p {
  pid = pid;
  attributes = p.attributes ++ (Id.pid, decimal pid) ∷ [];
  ul_files = load_files txt_fd pid fds counter p.ul_files;
}

-- A process that is not there starts as a new one.
abbrev pub enter : ℕ → Entry → ℕ → ProcMap → ProcMap
enter txt_fd (pid, pgid, fds) counter =
    update int_rank pid (entered txt_fd pid fds counter) new_proc_file

unfoldable pub load : ℕ → Listing → ℕ → ProcMap → ProcMap
load txt_fd [] counter procs = procs
load txt_fd (e ∷ l) counter procs =
    load txt_fd l (counter_after e.2 counter) (enter txt_fd e counter procs)

abbrev pub IsInt : ℕ → Type 0
IsInt n = n < 2 ^ 31

-- A name that starts with no digit and no sign, and is not that of the text.
abbrev pub IsName : Text → Type 0
IsName [] = ⊥
IsName (c ∷ s) =
    (is_digit c ≡ false)
    × (c ≢ b'-')
    × (c ≢ b'+')
    × (same (c ∷ s) (codes "txt") ≡ false)
    × All (λ d. d ≢ 0) (c ∷ s)

abbrev pub IsDescriptor : Descriptor → Type 0
IsDescriptor txt = Unit
IsDescriptor (numbered n) = IsInt n
IsDescriptor (other name) = IsToken name × IsName name

-- All numbers are those of an `int`.
abbrev pub IsListing : Listing → Type 0
IsListing [] = Unit
IsListing ((pid, pgid, fds) ∷ l) = IsInt pid × IsInt pgid × All IsDescriptor fds × IsListing l
