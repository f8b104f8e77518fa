-- ===== src/Printer/Lines.antt =====
-- The lines of the report that `printFiles` of src/PrettyPrinter.cpp writes.
use cphf.Base.{
  ℕ, ◌≡◌, sym, ◌∙◌, ap, List, [], ◌∷◌, ◌++◌, some, Option-cases, Run-cases, ok, >>=-eq-ok,
  ok-injective, Any, inl, inr, Contains, Contains-trans, Contains-append, Contains-behind,
  replicate, arith,
}
use mathlib.Core.Path.{subst}
use cphf.Text.{Text, codes}
use cphf.Common.{Attribute, AttributeFlags}
use cphf.Map.{find_hash}
use cphf.Files.{UnlinkedFile, unlinked_file, ProcFile, CphfFile, proc_file, print_attributes}
use cphf.Printer.{file_line, proc_line, print_file, print_files}

module _ (flags : AttributeFlags) (pp : Text → Text → Text) where
  pub print_attributes_cons :
      (a : Attribute) (rest : List Attribute) {text : Text}
      → print_attributes flags pp (a ∷ rest) ≡ ok text
      → (label lines : Text) × (find_hash a.0 flags ≡ some label)
        × (print_attributes flags pp rest ≡ ok lines)
        × (text ≡ pp label a.1 ++ lines)
  unfolding print_attributes
  print_attributes_cons (i, w) rest {text} e = elim (Option-cases (find_hash i flags)) [
    | inl none_found ↦ absurd (ground arith)
    | inr (label, found) ↦ elim (Run-cases (print_attributes flags pp rest)) [
      | inl (lines, printed) ↦ (label, lines, found, printed, ground arith)
      | inr (x, failed) ↦ absurd (ground arith)
    ]
  ]

  -- The line of each attribute stands in what is printed.
  print_attributes-Contains :
      (id : ℕ) (value label : Text) (l : List Attribute) {text : Text}
      → find_hash id flags ≡ some label
      → Any (λ a. a ≡ (id, value)) l
      → print_attributes flags pp l ≡ ok text
      → Contains text (pp label value)
  print_attributes-Contains id value label [] known h e = absurd h
  print_attributes-Contains id value label (a ∷ rest) {text} known (inl same) e =
      let (label', lines, found, printed, eq) = print_attributes_cons a rest e in
      let ids : a.0 ≡ id = ap (λ (x : Attribute). x.0) same in
      let values : a.1 ≡ value = ap (λ (x : Attribute). x.1) same in
      let both : some label' ≡ some label = sym found ∙ ap (λ i. find_hash i flags) ids ∙ known in
      let labels : label' ≡ label = cc in
      ([], lines, eq ∙ ap (λ t. pp t a.1 ++ lines) labels ∙ ap (λ t. pp label t ++ lines) values)
  print_attributes-Contains id value label (a ∷ rest) {text} known (inr h) e =
      let (label', lines, found, printed, eq) = print_attributes_cons a rest e in
      subst (λ t. Contains t (pp label value)) (sym eq)
        (Contains-trans (pp label value) lines (pp label' a.1 ++ lines)
          (print_attributes-Contains id value label rest known h printed)
          (Contains-behind (pp label' a.1) lines))

-- The line of an attribute of a process stands in what is printed of the process.
pub print_file-Contains :
    (flags : AttributeFlags) (id : ℕ) (value label : Text) (p : ProcFile) {text : Text}
    → find_hash id flags ≡ some label
    → Any (λ a. a ≡ (id, value)) p.attributes
    → print_file flags (proc_file p) ≡ ok text
    → Contains text (proc_line label value)
unfolding print_file
print_file-Contains flags id value label p {text} known h e =
    let (lines, printed, done) = >>=-eq-ok (print_attributes flags proc_line p.attributes) _ e in
    let rule = replicate 80 b'=' ++ codes "\n" in
    let inner =
      print_attributes-Contains flags proc_line id value label p.attributes known h printed in
    subst (λ t. Contains t (proc_line label value)) (ok-injective _ _ done)
      (Contains-trans (proc_line label value) lines (rule ++ lines ++ codes "\n") inner (
        Contains-trans lines (rule ++ lines) (rule ++ lines ++ codes "\n")
          (Contains-behind rule lines) (Contains-append (rule ++ lines) (codes "\n"))))

-- The line of an attribute of a file stands in what is printed of the file.
pub print_file_unlinked-Contains :
    (flags : AttributeFlags) (id : ℕ) (value label : Text) (f : UnlinkedFile) {text : Text}
    → find_hash id flags ≡ some label
    → Any (λ a. a ≡ (id, value)) f.attributes
    → print_file flags (unlinked_file f) ≡ ok text
    → Contains text (file_line label value)
unfolding print_file
print_file_unlinked-Contains flags id value label f {text} known h e =
    let (lines, printed, done) = >>=-eq-ok (print_attributes flags file_line f.attributes) _ e in
    let line = file_line label value in
    subst (λ t. Contains t line) (ok-injective _ _ done)
      (Contains-trans line lines (lines ++ codes "\n")
        (print_attributes-Contains flags file_line id value label f.attributes known h printed)
        (Contains-append lines (codes "\n")))

-- What is printed of an object stands in the report.
pub print_files-Contains :
    (flags : AttributeFlags) (line : Text) (fs : List CphfFile) {text : Text}
    → Any (λ f. (t : Text) → print_file flags f ≡ ok t → Contains t line) fs
    → print_files flags fs ≡ ok text
    → Contains text line
unfolding print_files
print_files-Contains flags line [] h e = absurd h
print_files-Contains flags line (f ∷ fs) {text} h e =
    let (first, e₁, more) = >>=-eq-ok (print_file flags f) _ e in
    let (rest, e₂, done) = >>=-eq-ok (print_files flags fs) _ more in
    subst (λ t. Contains t line) (ok-injective _ _ done)
      (elim h [
        | inl here ↦
            Contains-trans line first (first ++ rest) (here first e₁) (Contains-append first rest)
        | inr there ↦
            Contains-trans line rest (first ++ rest) (print_files-Contains flags line fs there e₂)
              (Contains-behind first rest)
      ])
