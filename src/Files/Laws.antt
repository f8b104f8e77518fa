-- ===== src/Files/Laws.antt =====
-- What the operations on files and processes keep, and the labels that printing needs.
use cphf.Base.{
  ℕ, ◌≡◌, ◌≢◌, refl, sym, ◌∙◌, map, append-nil, append_assoc, Bool, true, false, ◌||◌, List, [],
  ◌∷◌, ◌++◌, none, ◌==◌, arith, All, All-append, All-weaken, Run, ok, Ensures, Ensures->>=,
  Ensures-ok, Bool-cases, Option-cases, inl, inr,
}
use cphf.Text.{Text, atoi}
use cphf.Common.{Attribute, AttributeFlags}
use cphf.Common.Id
use cphf.Map.{Map, find_hash, insert_hash, for_each, values}
use cphf.Map.All.{AllValues, for_each-AllValues}
use cphf.Map.Laws.{find_hash-insert_hash}
use cphf.Files.{
  UnlinkedFile, ProcFile, ProcMap, add_unlinked_attribute, add_proc_attribute, add_file_attributes,
  print_attributes, number, CphfFile, unlinked_file, add_all, flatten, proc_file,
}

-- Does a reader announce the id?
abbrev pub has_key : ℕ → List Attribute → Bool
has_key k [] = false
has_key k ((j, v) ∷ l) = j == k || has_key k l

unfoldable pub insert_all : List Attribute → AttributeFlags → AttributeFlags
insert_all [] flags = flags
insert_all (kv ∷ l) flags = insert_all l (insert_hash kv flags)

abbrev pub IsLabelled : AttributeFlags → ℕ → Type 0
IsLabelled flags id = find_hash id flags ≢ none

abbrev pub Extends : AttributeFlags → AttributeFlags → Type 0
Extends flags flags' = (id : ℕ) → IsLabelled flags id → IsLabelled flags' id

insert_hash-Extends :
    (kv : Attribute) (flags : AttributeFlags) → Extends flags (insert_hash kv flags)
insert_hash-Extends kv flags id h = ground (arith, find_hash-insert_hash id kv.0 kv.1 flags)

pub insert_all-Extends :
    (l : List Attribute) (flags : AttributeFlags) → Extends flags (insert_all l flags)
unfolding insert_all
insert_all-Extends [] flags id h = h
insert_all-Extends (kv ∷ l) flags id h =
    insert_all-Extends l (insert_hash kv flags) id (insert_hash-Extends kv flags id h)

pub insert_all-IsLabelled :
    (l : List Attribute) (flags : AttributeFlags) (id : ℕ)
    → has_key id l ≡ true
    → IsLabelled (insert_all l flags) id
unfolding insert_all
insert_all-IsLabelled [] flags id h = absurd (cc)
insert_all-IsLabelled ((j, v) ∷ l) flags id h = elim (Bool-cases (j == id)) [
  | inl e ↦
      insert_all-Extends l (insert_hash (j, v) flags) id
        (ground (arith, find_hash-insert_hash id j v flags))
  | inr e ↦ insert_all-IsLabelled l (insert_hash (j, v) flags) id (rw e at h)
]

-- A property of the attributes of an object, and of those of a process and of all its files.
module _ (P : List Attribute → Type 0) where
  abbrev pub OfObject : CphfFile → Type 0
  OfObject (proc_file p) = P p.attributes
  OfObject (unlinked_file f) = P f.attributes

  abbrev pub OfFile : UnlinkedFile → Type 0
  OfFile f = P f.attributes

  abbrev pub OfProcess : ProcFile → Type 0
  OfProcess p = P p.attributes × AllValues OfFile p.ul_files

-- Every attribute has a label.
abbrev pub AttributesLabelled : AttributeFlags → List Attribute → Type 0
AttributesLabelled flags = All (λ a. IsLabelled flags a.0)

abbrev pub FileLabelled : AttributeFlags → UnlinkedFile → Type 0
FileLabelled flags f = AttributesLabelled flags f.attributes

abbrev pub ProcLabelled : AttributeFlags → ProcFile → Type 0
ProcLabelled flags p =
    AttributesLabelled flags p.attributes × AllValues (FileLabelled flags) p.ul_files

-- What holds of the attribute that is added, and held of those before.
module _ (Q : Attribute → Type 0) (id : ℕ) (value : Text) where
  pub add_unlinked_attribute-OfFile :
      (f : UnlinkedFile)
      → Q (id, value)
      → OfFile (All Q) f
      → OfFile (All Q) (add_unlinked_attribute id value f)
  unfolding add_unlinked_attribute
  add_unlinked_attribute-OfFile f h all = elim (Bool-cases (id == Id.filename)) [
    | inl e ↦ rw e (h, all)
    | inr e ↦ rw e (All-append Q f.attributes ((id, value) ∷ []) all (h, tt))
  ]

  pub add_proc_attribute-OfProcess :
      (p : ProcFile)
      → Q (id, value)
      → OfProcess (All Q) p
      → Ensures (OfProcess (All Q)) (add_proc_attribute id value p)
  unfolding add_proc_attribute
  add_proc_attribute-OfProcess p h all = elim (Bool-cases (id == Id.pid)) [
    | inl e ↦ rw e (
        Ensures->>= (OfProcess (All Q)) (number (atoi value)) _
          λ n e'. (All-append Q p.attributes ((id, value) ∷ []) all.0 (h, tt), all.1))
    | inr e ↦ rw e (elim (Bool-cases (id == Id.cmd)) [
      | inl e' ↦ rw e' ((h, all.0), all.1)
      | inr e' ↦ rw e' (All-append Q p.attributes ((id, value) ∷ []) all.0 (h, tt), all.1)
    ])
  ]

-- Labels that are added do no harm.
module _ (flags flags' : AttributeFlags) (more : Extends flags flags') where
  AttributesLabelled-Extends :
      (l : List Attribute) → AttributesLabelled flags l → AttributesLabelled flags' l
  AttributesLabelled-Extends l h = All-weaken l (λ a. more a.0) h

  FilesLabelled-Extends :
      (m : Map ℕ UnlinkedFile)
      → AllValues (FileLabelled flags) m
      → AllValues (FileLabelled flags') m
  FilesLabelled-Extends [] h = tt
  FilesLabelled-Extends ((k, f) ∷ m) h =
      (AttributesLabelled-Extends f.attributes h.0, FilesLabelled-Extends m h.1)

  pub ProcsLabelled-Extends :
      (m : ProcMap) → AllValues (ProcLabelled flags) m → AllValues (ProcLabelled flags') m
  ProcsLabelled-Extends [] h = tt
  ProcsLabelled-Extends ((k, p) ∷ m) h = (
    (AttributesLabelled-Extends p.attributes h.0.0, FilesLabelled-Extends p.ul_files h.0.1),
    ProcsLabelled-Extends m h.1,
  )

-- A callback that keeps a property of the attributes of a file keeps it of the process.
pub add_file_attributes-OfProcess :
    (Q : Attribute → Type 0) (func : ℕ → ℕ → UnlinkedFile → Run UnlinkedFile) (p : ProcFile)
    → ((fid pid : ℕ) (f : UnlinkedFile)
        → OfFile (All Q) f
        → Ensures (OfFile (All Q)) (func fid pid f))
    → OfProcess (All Q) p
    → Ensures (OfProcess (All Q)) (add_file_attributes func p)
unfolding add_file_attributes
add_file_attributes-OfProcess Q func p h all =
    let each = λ (fid : ℕ) (f : UnlinkedFile). func fid p.pid f in
    Ensures->>= (OfProcess (All Q)) (for_each each p.ul_files)
      (λ files. ok (record p { ul_files = files }))
      λ files e. (
        all.0,
        Ensures-ok (AllValues (OfFile (All Q))) (for_each each p.ul_files)
            (for_each-AllValues (OfFile (All Q)) (OfFile (All Q)) each p.ul_files
              (λ fid f. h fid p.pid f) all.1)
            e,
      )

-- Where every attribute has a label, `at` does not throw.
pub print_attributes_total :
    (flags : AttributeFlags) (pretty_printer : Text → Text → Text) (l : List Attribute)
    → AttributesLabelled flags l
    → (text : Text) × (print_attributes flags pretty_printer l ≡ ok text)
unfolding print_attributes
print_attributes_total flags pp [] h = ([], refl)
print_attributes_total flags pp ((id, v) ∷ l) h = elim (Option-cases (find_hash id flags)) [
  | inl e ↦ absurd (h.0 e)
  | inr (label, e) ↦
      let (text, e') = print_attributes_total flags pp l h.1 in (pp label v ++ text, ground arith)
]

-- The files of a process go behind the list.
add_all-append :
    (fs : List UnlinkedFile) (l : List CphfFile) → add_all fs l ≡ l ++ map unlinked_file fs
unfolding add_all
add_all-append [] l = sym (append-nil l)
add_all-append (f ∷ fs) l = add_all-append fs _ ∙ append_assoc l _ _

pub flatten-append :
    (p : ProcFile) (l : List CphfFile) → flatten p l ≡ l ++ map unlinked_file (values p.ul_files)
unfolding flatten
flatten-append p l = add_all-append (values p.ul_files) l
