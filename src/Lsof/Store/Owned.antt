-- ===== src/Lsof/Store/Owned.antt =====
-- Memory as src/LSOFReader.cpp leaves it: every process stands once in the map, and every file in one
-- process, and once there. So a write through a pointer changes one entry of one map.
use cphf.Base.{ℕ, suc, ◌≡◌, ◌≢◌, ◌<◌, refl, ap, some, false, ◌==◌, ==_refl, arith}
use cphf.Map.{Map, find, int_less}
use cphf.Map.All.{AllValues, AllValues-weaken, find-AllValues}
use cphf.Map.Mapped.{mapped, Distinct, mapped-agree}
use cphf.Files.{UnlinkedFile, ProcFile, ProcMap}
use cphf.Lsof.Store.{ProcObject, Memory, write}

-- The process that an object is, given what its files are.
abbrev pub proc_of : (ℕ → UnlinkedFile) → ProcObject → ProcFile
proc_of file_at o = record {
  pid = o.pid;
  ppid = o.ppid;
  attributes = o.attributes;
  ul_files = mapped file_at o.ul_files;
}

abbrev pub seen : Memory → ℕ → ProcFile
seen mem r = proc_of mem.file_at (mem.proc_at r)

-- The map of processes without references.
abbrev pub view : Memory → Map ℕ ℕ → ProcMap
view mem procs = mapped (seen mem) procs

-- The files of a process are its own.
abbrev pub OwnsFiles : (ℕ → ℕ) → ℕ → ℕ → Map ℕ ℕ → Type 0
OwnsFiles owner next r files = AllValues (λ f. (f < next) × (owner f ≡ r)) files × Distinct files

abbrev pub IsOwned : (ℕ → ℕ) → Memory → Map ℕ ℕ → Type 0
IsOwned owner mem procs =
    AllValues (λ r. (r < mem.next) × OwnsFiles owner mem.next r (mem.proc_at r).ul_files) procs
    × Distinct procs

not_same : (q r : ℕ) → q ≢ r → (q == r) ≡ false
not_same q r h = ground arith

pub write_same : {A : Type 0} (r : ℕ) (a : A) (f : ℕ → A) → write r a f r ≡ a
write_same r a f = rw (==_refl r) refl

pub write_other : {A : Type 0} (r q : ℕ) (a : A) (f : ℕ → A) → q ≢ r → write r a f q ≡ f q
write_other r q a f h = rw (not_same q r h) refl

pub below-other : (r next : ℕ) → r < next → r ≢ next
below-other r next h = omega (arith, h)

-- Files that are as before make the process as before.
pub proc_of-agree :
    (file_at file_at' : ℕ → UnlinkedFile) (o : ProcObject)
    → AllValues (λ f. file_at' f ≡ file_at f) o.ul_files
    → proc_of file_at' o ≡ proc_of file_at o
proc_of-agree file_at file_at' o h =
    ap (λ files. record { pid = o.pid; ppid = o.ppid; attributes = o.attributes; ul_files = files })
      (mapped-agree file_at file_at' o.ul_files h)

pub OwnsFiles-later :
    (owner : ℕ → ℕ) (next r : ℕ) (files : Map ℕ ℕ)
    → OwnsFiles owner next r files
    → OwnsFiles owner (suc next) r files
OwnsFiles-later owner next r files h =
    (AllValues-weaken files (λ f p. (omega (arith, p.0), p.1)) h.0, h.1)

module _ (owner : ℕ → ℕ) (mem : Memory) (procs : Map ℕ ℕ) (owned : IsOwned owner mem procs) where
  module _ (k r : ℕ) (found : find int_less k procs ≡ some r) where
    -- What is known of the process.
    pub entry : (r < mem.next) × OwnsFiles owner mem.next r (mem.proc_at r).ul_files
    entry =
        find-AllValues (λ q. (q < mem.next) × OwnsFiles owner mem.next q (mem.proc_at q).ul_files)
          int_less k procs owned.0 found
