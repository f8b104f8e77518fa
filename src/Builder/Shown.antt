-- ===== src/Builder/Shown.antt =====
-- The objects that `flattenMap` of src/ProcFileEntryBuilder.cpp lists, for what `lsof` listed.
use cphf.Base.{
  ℕ, ◌≡◌, ◌∙◌, Bool, true, [], ◌∷◌, map, some, Any, Any-append_left, Any-append_right, Any-weaken,
  inl, inr, if◌then◌else◌, sym, Contains-Any,
}
use mathlib.Core.Path.{subst}
use cphf.Text.{decimal}
use cphf.Common.Id
use cphf.Map.{Map, find, int_less, values}
use cphf.Map.Laws.{find-Any}
use cphf.Map.Each.{Each-Any}
use cphf.Files.{UnlinkedFile, ProcFile, ProcMap, CphfFile, proc_file, unlinked_file}
use cphf.Files.Grows.{Grows, ProcGrows, FileGrows}
use cphf.Builder.{flatten_map}
use cphf.Builder.Flatten.{entry_of, entries, flatten_map-entries}

-- The process of this id, which its attributes say.
abbrev pub IsProcess : ℕ → ProcFile → Type 0
IsProcess pid p = (p.pid ≡ pid) × Any (λ a. a ≡ (Id.pid, decimal pid)) p.attributes

abbrev pub HasFile : ℕ → ℕ → ProcFile → Type 0
HasFile pid n p = Any (λ e. (e.1.pid ≡ pid) × (e.1.fid ≡ n)) p.ul_files

-- The object is a process, and `P` holds of it.
abbrev pub IsProc : (ProcFile → Type 0) → CphfFile → Type 0
IsProc P (proc_file p) = P p
IsProc P (unlinked_file f) = ⊥

abbrev pub ShowsProcess : ℕ → CphfFile → Type 0
ShowsProcess pid = IsProc (IsProcess pid)

-- The object is a file, and `P` holds of it.
abbrev pub IsFile : (UnlinkedFile → Type 0) → CphfFile → Type 0
IsFile P (proc_file p) = ⊥
IsFile P (unlinked_file f) = P f

abbrev pub ShowsFile : ℕ → ℕ → CphfFile → Type 0
ShowsFile pid n = IsFile (λ f. (f.pid ≡ pid) × (f.fid ≡ n))

entries-Any :
    (P : CphfFile → Type 0) (procs files : Bool) (m : ProcMap)
    → Any (λ e. Any P (entry_of procs files e.1)) m
    → Any P (entries procs files m)
unfolding entries
entries-Any P procs files [] h = absurd h
entries-Any P procs files ((k, p) ∷ m) (inl h) =
    Any-append_left P (entry_of procs files p) (entries procs files m) h
entries-Any P procs files ((k, p) ∷ m) (inr h) =
    Any-append_right P (entry_of procs files p) (entries procs files m)
      (entries-Any P procs files m h)

values-IsFile :
    (P : UnlinkedFile → Type 0) (m : Map ℕ UnlinkedFile)
    → Any (λ e. P e.1) m
    → Any (IsFile P) (map unlinked_file (values m))
unfolding values
values-IsFile P [] h = absurd h
values-IsFile P ((k, f) ∷ m) (inl h) = inl h
values-IsFile P ((k, f) ∷ m) (inr h) = inr (values-IsFile P m h)

entry-IsProc :
    (P : ProcFile → Type 0) (files : Bool) (p : ProcFile)
    → P p
    → Any (IsProc P) (entry_of true files p)
unfolding entry_of
entry-IsProc P files p h = inl h

-- Where processes are shown, every process in the map is.
pub flatten_map-IsProc :
    (P : ProcFile → Type 0) (files : Bool) (m : ProcMap)
    → Any (λ e. P e.1) m
    → Any (IsProc P) (flatten_map true files m)
flatten_map-IsProc P files m h =
    rw (flatten_map-entries true files m)
      (entries-Any (IsProc P) true files m (Any-weaken m (λ entry. entry-IsProc P files entry.1) h))

entry-IsFile :
    (P : UnlinkedFile → Type 0) (procs : Bool) (p : ProcFile)
    → Any (λ e. P e.1) p.ul_files
    → Any (IsFile P) (entry_of procs true p)
unfolding entry_of
entry-IsFile P procs p h =
    Any-append_right (IsFile P) (if procs then proc_file p ∷ [] else [])
      (map unlinked_file (values p.ul_files)) (values-IsFile P p.ul_files h)

-- Where files are shown, every file in the map is.
pub flatten_map-IsFile :
    (P : UnlinkedFile → Type 0) (shows_procs : Bool) (m : ProcMap)
    → Any (λ e. Any (λ e'. P e'.1) e.1.ul_files) m
    → Any (IsFile P) (flatten_map shows_procs true m)
flatten_map-IsFile P shows_procs m h = rw (flatten_map-entries shows_procs true m) (
    entries-Any (IsFile P) shows_procs true m
      (Any-weaken m (λ entry. entry-IsFile P shows_procs entry.1) h))

pub IsProcess-Grows : (pid : ℕ) (p q : ProcFile) → ProcGrows p q → IsProcess pid p → IsProcess pid q
IsProcess-Grows pid p q g h =
    (g.0 ∙ h.0, Contains-Any (λ a. a ≡ (Id.pid, decimal pid)) p.attributes q.attributes g.1 h.1)

pub HasFile-Grows : (pid n : ℕ) (p q : ProcFile) → ProcGrows p q → HasFile pid n p → HasFile pid n q
HasFile-Grows pid n p q g h =
    Each-Any FileGrows (λ f. (f.pid ≡ pid) × (f.fid ≡ n)) (λ f. (f.pid ≡ pid) × (f.fid ≡ n))
      p.ul_files q.ul_files (λ f f' s k. (s.2 ∙ k.0, s.1 ∙ k.1)) g.2 h

-- The value of a key, in a map that has grown since.
pub found-Grows :
    (P : ProcFile → Type 0) (k : ℕ) (p : ProcFile) (m m' : ProcMap)
    → ((q q' : ProcFile) → ProcGrows q q' → P q → P q')
    → find int_less k m ≡ some p
    → P p
    → Grows m m'
    → Any (λ e. P e.1) m'
found-Grows P k p m m' kept e h g =
    Each-Any ProcGrows P P m m' kept g
      (Any-weaken m (λ entry same. subst P (sym same) h) (find-Any int_less k p m e))
