-- ===== src/Files/Grows.antt =====
-- What the operations of src/UnlinkedFile.cpp and src/ProcFile.cpp leave of an object.
use cphf.Base.{
  ℕ, ◌≡◌, ◌≢◌, refl, ◌∙◌, false, [], ◌∷◌, ◌++◌, ◌==◌, ok, Run, Ensures, Ensures->>=, Ensures-ok,
  Bool-cases, inl, inr, arith, Contains, Contains-cons, Contains-refl, Contains-trans,
  Contains-append,
}
use cphf.Text.{Text}
use cphf.Common.Id
use cphf.Map.{for_each}
use cphf.Map.Each.{Each, Each-refl, Each-trans, for_each-Each}
use cphf.Files.{
  UnlinkedFile, ProcFile, ProcMap, add_unlinked_attribute, add_proc_attribute, add_file_attributes,
}

-- The same file, perhaps with more attributes.
abbrev pub FileGrows : UnlinkedFile → UnlinkedFile → Type 0
FileGrows f f' =
    (f'.path ≡ f.path) × (f'.fid ≡ f.fid) × (f'.pid ≡ f.pid) × Contains f'.attributes f.attributes

-- The same process with the same files, it and they perhaps with more attributes.
abbrev pub ProcGrows : ProcFile → ProcFile → Type 0
ProcGrows p p' =
    (p'.pid ≡ p.pid) × Contains p'.attributes p.attributes × Each FileGrows p.ul_files p'.ul_files

pub FileGrows-refl : (f : UnlinkedFile) → FileGrows f f
FileGrows-refl f = (refl, refl, refl, Contains-refl f.attributes)

pub FileGrows-trans : (f g h : UnlinkedFile) → FileGrows f g → FileGrows g h → FileGrows f h
FileGrows-trans f g h a b =
    (b.0 ∙ a.0, b.1 ∙ a.1, b.2 ∙ a.2, Contains-trans f.attributes g.attributes h.attributes a.3 b.3)

pub ProcGrows-refl : (p : ProcFile) → ProcGrows p p
ProcGrows-refl p = (refl, Contains-refl p.attributes, Each-refl FileGrows FileGrows-refl p.ul_files)

pub ProcGrows-trans : (p q r : ProcFile) → ProcGrows p q → ProcGrows q r → ProcGrows p r
ProcGrows-trans p q r a b = (
  b.0 ∙ a.0,
  Contains-trans p.attributes q.attributes r.attributes a.1 b.1,
  Each-trans FileGrows FileGrows-trans p.ul_files q.ul_files r.ul_files a.2 b.2,
)

-- The same processes, each perhaps with more attributes.
abbrev pub Grows : ProcMap → ProcMap → Type 0
Grows = Each ProcGrows

pub Grows-refl : (m : ProcMap) → Grows m m
Grows-refl m = Each-refl ProcGrows ProcGrows-refl m

pub Grows-trans : (m m' m'' : ProcMap) → Grows m m' → Grows m' m'' → Grows m m''
Grows-trans m m' m'' h h' = Each-trans ProcGrows ProcGrows-trans m m' m'' h h'

pub add_unlinked_attribute-FileGrows :
    (id : ℕ) (value : Text) (f : UnlinkedFile) → FileGrows f (add_unlinked_attribute id value f)
unfolding add_unlinked_attribute
add_unlinked_attribute-FileGrows id value f = elim (Bool-cases (id == Id.filename)) [
  | inl e ↦ rw e (refl, refl, refl, Contains-cons (id, value) f.attributes)
  | inr e ↦ rw e (refl, refl, refl, Contains-append f.attributes ((id, value) ∷ []))
]

-- An attribute other than the id of the process changes nothing else.
pub add_proc_attribute-ProcGrows :
    (id : ℕ) (value : Text) (p : ProcFile)
    → id ≢ Id.pid
    → (p' : ProcFile) × (add_proc_attribute id value p ≡ ok p') × ProcGrows p p'
unfolding add_proc_attribute
add_proc_attribute-ProcGrows id value p other =
    let not_pid : (id == Id.pid) ≡ false = ground arith in
    let files = Each-refl FileGrows FileGrows-refl p.ul_files in
    elim (Bool-cases (id == Id.cmd)) [
      | inl e ↦ (
        record p { attributes = (id, value) ∷ p.attributes },
        rw (not_pid, e),
        (refl, Contains-cons (id, value) p.attributes, files),
      )
      | inr e ↦ (
        record p { attributes = p.attributes ++ (id, value) ∷ [] },
        rw (not_pid, e),
        (refl, Contains-append p.attributes ((id, value) ∷ []), files),
      )
    ]

pub add_file_attributes-ProcGrows :
    (func : ℕ → ℕ → UnlinkedFile → Run UnlinkedFile) (p : ProcFile)
    → ((fid pid : ℕ) (f : UnlinkedFile) → Ensures (FileGrows f) (func fid pid f))
    → Ensures (ProcGrows p) (add_file_attributes func p)
unfolding add_file_attributes
add_file_attributes-ProcGrows func p h =
    let each = λ (fid : ℕ) (f : UnlinkedFile). func fid p.pid f in
    Ensures->>= (ProcGrows p) (for_each each p.ul_files)
      (λ files. ok (record p { ul_files = files }))
      λ files e. (
        refl,
        Contains-refl p.attributes,
        Ensures-ok (Each FileGrows p.ul_files) (for_each each p.ul_files)
            (for_each-Each FileGrows each p.ul_files (λ fid f. h fid p.pid f)) e,
      )
