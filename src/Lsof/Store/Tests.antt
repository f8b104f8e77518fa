-- ===== src/Lsof/Store/Tests.antt =====
-- A run of the reader of `lsof` output on memory that holds a process with a file.
use cphf.Base.{ℕ, ◌≡◌, refl, [], ◌∷◌, ok, ◌>>=◌, Matches, arith}
use cphf.Text.{Text, codes, decimal, c_str, skip_space, same, atoi}
use cphf.Common.Id
use cphf.Map.{Map, insert, find}
use cphf.Map.Mapped.{mapped}
use cphf.Files.{ProcMap, new_unlinked_file, add_unlinked_attribute, file_key}
use cphf.Lsof
use cphf.Lsof.{scan, scan_value, word, descriptor}
use cphf.Lsof.Store.{Memory, buffered_read, read_field, store_value}
use cphf.Lsof.Store.Owned.{IsOwned, view}
use cphf.Lsof.Store.Refines.{Views, buffered_read-Views}

-- The process is listed again, with its file and flags of it, then another.
abbrev listed_again : Text
listed_again = codes "p7\nf3\nGx\np9\nf3\n"

abbrev held : Memory
held = record {
  next = 2;
  proc_at = λ r. record { pid = 7; ppid = 0; attributes = []; ul_files = (3, 1) ∷ [] };
  file_at = λ f. record { path = codes "/proc/7/fd/3"; fid = 3; pid = 7; attributes = [] };
}

abbrev held_procs : Map ℕ ℕ
held_procs = (7, 0) ∷ []

held-IsOwned : IsOwned (λ f. 0) held held_procs
held-IsOwned = ((((omega arith, (((omega arith, refl), tt), (tt, tt))), tt)), (tt, tt))

abbrev now : ProcMap
now =
    (
      7,
      record {
        pid = 7;
        ppid = 0;
        attributes = (Id.pid, codes "7") ∷ [];
        ul_files =
            (
              3,
              record {
                path = codes "/proc/7/fd/3";
                fid = 3;
                pid = 7;
                attributes = (Id.flags, []) ∷ [];
              },
            )
            ∷ [];
      },
    )
    ∷ (
      9,
      record {
        pid = 9;
        ppid = 0;
        attributes = (Id.pid, codes "9") ∷ [];
        ul_files =
            (3, record { path = codes "/proc/9/fd/3"; fid = 3; pid = 9; attributes = [] }) ∷ [];
      },
    )
    ∷ []

-- The file that was there has the flags: the new one of its number is dropped.
flags_shared :
    (buffered_read 1024 listed_again held held_procs >>= λ (mem, procs). ok (view mem procs))
    ≡ ok now
unfolding buffered_read scan scan_value word store_value skip_space read_field descriptor same c_str
    atoi insert find new_unlinked_file add_unlinked_attribute decimal mapped file_key
flags_shared = refl

buffered_read-Views_example :
    Matches Views
      (buffered_read 1024 listed_again held held_procs)
      (Lsof.buffered_read 1024 listed_again (view held held_procs))
buffered_read-Views_example =
    buffered_read-Views 1024 listed_again (λ f. 0) held held_procs held-IsOwned
