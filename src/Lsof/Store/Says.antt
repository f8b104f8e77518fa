-- ===== src/Lsof/Store/Says.antt =====
-- The variables of `bufferedRead` in src/LSOFReader.cpp, with pointers and with keys, that say the same.
use cphf.Base.{ℕ, ◌≡◌, refl, Option, none, some, ◌==◌, Matches, Matches-bind, Matches-if}
use cphf.Map.{Map, find, int_less}
use cphf.Text.{Text, atoi}
use cphf.Files.{UnlinkedFile, ProcFile, add_proc_attribute, number}
use cphf.Lsof.{Reading, pointer}
use cphf.Lsof.Store
use cphf.Lsof.Store.{Memory, Cursor, ProcObject, write, new_object}
use cphf.Common.Id
use cphf.Lsof.Store.Owned.{IsOwned, view, proc_of}

-- A pointer to a process, and the key that leads to it.
abbrev pub SameProcess : Map ℕ ℕ → Option ℕ → Option ℕ → Type 0
SameProcess procs none none = Unit
SameProcess procs none (some k) = ⊥
SameProcess procs (some r) none = ⊥
SameProcess procs (some r) (some k) = find int_less k procs ≡ some r

abbrev pub LeadsTo : Memory → Map ℕ ℕ → ℕ → ℕ × ℕ → Type 0
LeadsTo mem procs fr (k, fk) =
    (r : ℕ) × (find int_less k procs ≡ some r)
    × (find int_less fk (mem.proc_at r).ul_files ≡ some fr)

-- A pointer to a file, and the keys that lead to it.
abbrev pub SameFile : Memory → Map ℕ ℕ → Option ℕ → Option (ℕ × ℕ) → Type 0
SameFile mem procs none none = Unit
SameFile mem procs none (some ks) = ⊥
SameFile mem procs (some fr) none = ⊥
SameFile mem procs (some fr) (some ks) = LeadsTo mem procs fr ks

-- The variables without references.
abbrev pub reading : Cursor → Option ℕ → Option (ℕ × ℕ) → Reading
reading c pf ulf = record {
  charbuff = c.charbuff;
  pid = c.pid;
  pf = pf;
  ulf = ulf;
  txt_fd_counter = c.txt_fd_counter;
  procs = view c.memory c.procs;
}

-- Variables and memory that say the same.
pub record Says (c : Cursor) (r : Reading) : Type 0 where
  pub owner : ℕ → ℕ
  pub pf : Option ℕ
  pub ulf : Option (ℕ × ℕ)
  pub owned : IsOwned owner c.memory c.procs
  pub process : SameProcess c.procs c.pf pf
  pub file : SameFile c.memory c.procs c.ulf ulf
  pub same : reading c pf ulf ≡ r

pub pointer-SameProcess :
    (procs : Map ℕ ℕ) (o o' : Option ℕ)
    → SameProcess procs o o'
    → Matches (λ r k. find int_less k procs ≡ some r) (pointer o) (pointer o')
pointer-SameProcess procs none none h = refl
pointer-SameProcess procs none (some k) h = absurd h
pointer-SameProcess procs (some r) none h = absurd h
pointer-SameProcess procs (some r) (some k) h = h

pub pointer-SameFile :
    (mem : Memory) (procs : Map ℕ ℕ) (o : Option ℕ) (o' : Option (ℕ × ℕ))
    → SameFile mem procs o o'
    → Matches (LeadsTo mem procs) (pointer o) (pointer o')
pointer-SameFile mem procs none none h = refl
pointer-SameFile mem procs none (some ks) h = absurd h
pointer-SameFile mem procs (some fr) none h = absurd h
pointer-SameFile mem procs (some fr) (some ks) h = h

-- The process that an object is, with the files that another has.
abbrev pub SameObject : (ℕ → UnlinkedFile) → ProcObject → ProcObject → ProcFile → Type 0
SameObject file_at o o' p = (proc_of file_at o' ≡ p) × (o'.ul_files ≡ o.ul_files)

-- An attribute is added to the object as to the process that it is.
pub add_object_attribute-Same :
    (id : ℕ) (value : Text) (file_at : ℕ → UnlinkedFile) (o : ProcObject)
    → Matches
        (SameObject file_at o)
        (Store.add_object_attribute id value o)
        (add_proc_attribute id value (proc_of file_at o))
unfolding Store.add_object_attribute add_proc_attribute
add_object_attribute-Same id value file_at o =
    let R = SameObject file_at o in
    Matches-if R (id == Id.pid) _ _ _ _
      (Matches-bind R (number (atoi value)) _ _ λ n e. (refl, refl))
      (Matches-if R (id == Id.cmd) _ _ _ _ (refl, refl) (refl, refl))
