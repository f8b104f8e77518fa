-- ===== src/Files/Keeps.antt =====
-- What no operation of src/UnlinkedFile.cpp and src/ProcFile.cpp takes from an object, that which adds
-- a file and that which sets the id of a process among them.
use cphf.Base.{
  ℕ, ◌==◌, ◌∷◌, [], Ensures, Ensures->>=, Ensures-if, Contains, Contains-append, Contains-cons,
  Contains-refl, Contains-trans,
}
use cphf.Text.{Text, atoi}
use cphf.Common.Id
use cphf.Map.Below.{Below, Below-refl, Below-insert, Below-trans, Each-Below}
use cphf.Map.Each.{Each-weaken}
use cphf.Files.{UnlinkedFile, ProcFile, ProcMap, add_proc_attribute, number, add_file, file_key}
use cphf.Files.Grows.{FileGrows, FileGrows-refl, FileGrows-trans, ProcGrows, Grows}

-- The attributes that were there, and every file under its key, perhaps among others.
abbrev pub ProcKeeps : ProcFile → ProcFile → Type 0
ProcKeeps p p' = Contains p'.attributes p.attributes × Below FileGrows p.ul_files p'.ul_files

pub ProcKeeps-refl : (p : ProcFile) → ProcKeeps p p
ProcKeeps-refl p = (Contains-refl p.attributes, Below-refl FileGrows FileGrows-refl p.ul_files)

ProcKeeps-trans : (p q r : ProcFile) → ProcKeeps p q → ProcKeeps q r → ProcKeeps p r
ProcKeeps-trans p q r a b = (
  Contains-trans p.attributes q.attributes r.attributes a.0 b.0,
  Below-trans FileGrows FileGrows-trans p.ul_files q.ul_files r.ul_files a.1 b.1,
)

-- Every process under its key, perhaps among others.
abbrev pub Keeps : ProcMap → ProcMap → Type 0
Keeps = Below ProcKeeps

pub Keeps-refl : (m : ProcMap) → Keeps m m
Keeps-refl m = Below-refl ProcKeeps ProcKeeps-refl m

pub Keeps-trans : (m₁ m₂ m₃ : ProcMap) → Keeps m₁ m₂ → Keeps m₂ m₃ → Keeps m₁ m₃
Keeps-trans m₁ m₂ m₃ h h' = Below-trans ProcKeeps ProcKeeps-trans m₁ m₂ m₃ h h'

ProcGrows-ProcKeeps : (p p' : ProcFile) → ProcGrows p p' → ProcKeeps p p'
ProcGrows-ProcKeeps p p' g = (g.1, Each-Below FileGrows p.ul_files p'.ul_files g.2)

pub Grows-Keeps : (m m' : ProcMap) → Grows m m' → Keeps m m'
Grows-Keeps m m' g =
    Each-Below ProcKeeps m m' (Each-weaken ProcGrows ProcKeeps m m' ProcGrows-ProcKeeps g)

pub add_proc_attribute-ProcKeeps :
    (id : ℕ) (value : Text) (p : ProcFile) → Ensures (ProcKeeps p) (add_proc_attribute id value p)
unfolding add_proc_attribute
add_proc_attribute-ProcKeeps id value p =
    let files = Below-refl FileGrows FileGrows-refl p.ul_files in
    let behind = Contains-append p.attributes ((id, value) ∷ []) in
    Ensures-if (ProcKeeps p) (id == Id.pid) _ _
      (Ensures->>= (ProcKeeps p) (number (atoi value)) _ λ n e. (behind, files))
      (Ensures-if (ProcKeeps p) (id == Id.cmd) _ _ (Contains-cons (id, value) p.attributes, files)
        (behind, files))

pub add_file-ProcKeeps :
    (fid : ℕ) (f : UnlinkedFile) (p : ProcFile) → ProcKeeps p (add_file fid f p)
unfolding add_file
add_file-ProcKeeps fid f p =
    (Contains-refl p.attributes, Below-insert FileGrows FileGrows-refl (file_key fid) f p.ul_files)
