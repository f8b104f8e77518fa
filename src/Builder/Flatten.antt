-- ===== src/Builder/Flatten.antt =====
-- The order of the report: `flattenMap` of src/ProcFileEntryBuilder.cpp.
use cphf.Base.{
  ℕ, ◌≡◌, refl, ◌∙◌, sym, Bool, true, false, List, [], ◌∷◌, ◌++◌, map, append_assoc, append-nil,
  if◌then◌else◌, All, All-append,
}
use cphf.Common.{Attribute}
use cphf.Map.{Map, values}
use cphf.Map.All.{AllValues}
use cphf.Files.{UnlinkedFile, ProcFile, ProcMap, CphfFile, proc_file, unlinked_file, flatten}
use cphf.Files.Laws.{flatten-append, OfFile, OfProcess, OfObject}
use cphf.Builder.{flatten_onto, flatten_map}

-- What is shown of one process.
unfoldable pub entry_of : Bool → Bool → ProcFile → List CphfFile
entry_of procs files p =
    (if procs then proc_file p ∷ [] else [])
    ++ (if files then map unlinked_file (values p.ul_files) else [])

unfoldable pub entries : Bool → Bool → ProcMap → List CphfFile
unfolding entry_of
entries procs files [] = []
entries procs files ((k, p) ∷ m) = entry_of procs files p ++ entries procs files m

step :
    (procs files : Bool) (p : ProcFile) (l : List CphfFile)
    → (if files
        then flatten p (if procs then l ++ proc_file p ∷ [] else l)
        else (if procs then l ++ proc_file p ∷ [] else l))
      ≡ l ++ entry_of procs files p
unfolding entry_of
step true true p l = flatten-append p _ ∙ append_assoc l _ _
step true false p l = refl
step false true p l = flatten-append p l
step false false p l = sym (append-nil l)

flatten_onto-entries :
    (procs files : Bool) (m : ProcMap) (l : List CphfFile)
    → flatten_onto procs files m l ≡ l ++ entries procs files m
unfolding flatten_onto entries
flatten_onto-entries procs files [] l = sym (append-nil l)
flatten_onto-entries procs files ((k, p) ∷ m) l =
    flatten_onto-entries procs files m _ ∙ rw step (append_assoc l _ _)

-- The list holds the entries of each process in the order of the map: the process itself where
-- processes are shown, then its files by their numbers where files are shown.
pub flatten_map-entries :
    (procs files : Bool) (m : ProcMap) → flatten_map procs files m ≡ entries procs files m
unfolding flatten_map
flatten_map-entries procs files m = flatten_onto-entries procs files m []

module _ (P : List Attribute → Type 0) where
  files-OfObject :
      (m : Map ℕ UnlinkedFile)
      → AllValues (OfFile P) m
      → All (OfObject P) (map unlinked_file (values m))
  unfolding values
  files-OfObject [] h = tt
  files-OfObject ((k, f) ∷ m) h = (h.0, files-OfObject m h.1)

  entry-OfObject :
      (procs files : Bool) (p : ProcFile)
      → OfProcess P p
      → All (OfObject P) (entry_of procs files p)
  unfolding entry_of
  entry-OfObject true true p h = (h.0, files-OfObject p.ul_files h.1)
  entry-OfObject true false p h = (h.0, tt)
  entry-OfObject false true p h = files-OfObject p.ul_files h.1
  entry-OfObject false false p h = tt

  entries-OfObject :
      (procs files : Bool) (m : ProcMap)
      → AllValues (OfProcess P) m
      → All (OfObject P) (entries procs files m)
  unfolding entries
  entries-OfObject procs files [] h = tt
  entries-OfObject procs files ((k, p) ∷ m) h =
      All-append (OfObject P) (entry_of procs files p) (entries procs files m)
        (entry-OfObject procs files p h.0) (entries-OfObject procs files m h.1)

  -- What holds of the processes and files holds of the objects that are listed.
  pub flatten_map-OfObject :
      (procs files : Bool) (m : ProcMap)
      → AllValues (OfProcess P) m
      → All (OfObject P) (flatten_map procs files m)
  flatten_map-OfObject procs files m h =
      rw (flatten_map-entries procs files m) (entries-OfObject procs files m h)
