-- ===== src/FileStat/Shown.antt =====
-- The attributes of one file, as `readFileStatAttributes` of src/FileStatReader.cpp sets them.
use cphf.Base.{
  ℕ, ◌≡◌, refl, true, [], ◌∷◌, some, ok, Any, Any-append_right, Bool-cases, inl, inr, >>=-eq-ok,
  ok-injective, Ensures-ok, Contains-Any, ◌==◌, sym, ◌∙◌,
}
use mathlib.Core.Path.{subst}
use cphf.Text.{Text, holds}
use cphf.Common.{Attribute}
use cphf.Common.Id
use cphf.Map.{Map, for_each}
use cphf.Map.Each.{for_each-Any}
use cphf.Map.Entries.{find-entry}
use cphf.Files.{UnlinkedFile, ProcFile, ProcMap, add_unlinked_attribute, add_file_attributes}
use cphf.Env.{Env, Stat}
use cphf.Reader.Options.{IsSetBy, Small, collect_value, collect-Small}
use cphf.FileStat.Grows.{run_readers-FileGrows}
use cphf.FileStat.Order.{option_of, process_option-IsSetBy, collect-collect_values}
use cphf.FileStat.{
  FileInfo, process_option, collect, run_readers, form_path, fill_file, read_file_stat_attributes,
  read, for_each,
}

abbrev pub HasAttribute : Attribute → UnlinkedFile → Type 0
HasAttribute a f = Any (λ b. b ≡ a) f.attributes

add_unlinked_attribute-HasAttribute :
    (id : ℕ) (value : Text) (f : UnlinkedFile)
    → HasAttribute (id, value) (add_unlinked_attribute id value f)
unfolding add_unlinked_attribute
add_unlinked_attribute-HasAttribute id value f = elim (Bool-cases (id == Id.filename)) [
  | inl e ↦ rw e (inl refl)
  | inr e ↦
      rw e (Any-append_right (λ b. b ≡ (id, value)) f.attributes ((id, value) ∷ []) (inl refl))
]

-- A value that was collected is added, and stays.
run_readers-HasAttribute :
    (a : Attribute) (m : Map ℕ Text) (f : UnlinkedFile)
    → Any (λ e. e ≡ a) m
    → HasAttribute a (run_readers m f)
unfolding run_readers
run_readers-HasAttribute a [] f h = absurd h
run_readers-HasAttribute a ((id, value) ∷ m) f (inl same) =
    let f' = add_unlinked_attribute id value f in
    Contains-Any (λ b. b ≡ a) f'.attributes (run_readers m f').attributes
      (run_readers-FileGrows m f').3
      (subst (λ b. HasAttribute b f') same (add_unlinked_attribute-HasAttribute id value f))
run_readers-HasAttribute a ((id, value) ∷ m) f (inr h) =
    run_readers-HasAttribute a m (add_unlinked_attribute id value f) h

-- The process of this id, with a file under this number.
abbrev pub HasEntry : ℕ → ℕ → ProcFile → Type 0
HasEntry pid n p = (p.pid ≡ pid) × Any (λ e. e.0 ≡ n) p.ul_files

module _ (env : Env) (txt_fd : ℕ) (options : Text) (pid n c : ℕ) (a : Attribute) (st : Stat)
    (stats : env.stat (form_path txt_fd pid n) ≡ some st) (asked : holds options c ≡ true)
    (value : process_option env c (record { path = form_path txt_fd pid n; stat = st })
      ≡ ok a) where
  abbrev info : FileInfo
  info = record { path = form_path txt_fd pid n; stat = st }

  read_file-HasAttribute :
      (f : UnlinkedFile) {f' : UnlinkedFile}
      → read_file_stat_attributes env txt_fd options n pid f ≡ ok f'
      → HasAttribute a f'
  unfolding read_file_stat_attributes fill_file
  read_file-HasAttribute f {f'} e =
      let read = λ (d : ℕ). process_option env d info in
      let (m, e₁, done) = >>=-eq-ok (collect env options info []) _ (rw stats at e) in
      let collected = sym (collect-collect_values env info options []) ∙ e₁ in
      let tells = λ (d : ℕ). process_option-IsSetBy env d info in
      let small =
        Ensures-ok (Small read option_of) _ (collect-Small read option_of options [] tells tt)
          collected in
      let bound = Ensures-ok (IsSetBy read option_of c) _ (tells c) value in
      subst (HasAttribute a) (ok-injective _ _ done) (
        run_readers-HasAttribute a m f (
          find-entry a.0 a.1 m small bound.0
            (collect_value read option_of options m c a tells collected asked value)))

  files-HasAttribute :
      (p : ProcFile) {p' : ProcFile}
      → HasEntry pid n p
      → add_file_attributes (read_file_stat_attributes env txt_fd options) p ≡ ok p'
      → Any (λ e. HasAttribute a e.1) p'.ul_files
  unfolding add_file_attributes
  files-HasAttribute p {p'} h e =
      let each =
        λ (fid : ℕ) (f : UnlinkedFile). read_file_stat_attributes env txt_fd options fid p.pid f in
      let (files, e₁, done) = >>=-eq-ok (for_each each p.ul_files) _ e in
      subst (λ q. Any (λ e. HasAttribute a e.1) q.ul_files) (ok-injective _ _ done)
        (for_each-Any (λ e. e.0 ≡ n) (HasAttribute a) each p.ul_files
          (λ k f f' same e₂. read_file-HasAttribute f (
            subst (λ i. read_file_stat_attributes env txt_fd options i pid f ≡ ok f') same
              (subst (λ i. read_file_stat_attributes env txt_fd options k i f ≡ ok f') h.0 e₂)))
          e₁ h.1)

  -- After the reader has run, the file has the attribute of the option.
  pub read-HasAttribute :
      (procs : ProcMap) {procs' : ProcMap}
      → read env txt_fd options procs ≡ ok procs'
      → Any (λ e. HasEntry pid n e.1) procs
      → Any (λ e. Any (λ e'. HasAttribute a e'.1) e.1.ul_files) procs'
  unfolding read
  read-HasAttribute procs e h =
      for_each-Any (λ e. HasEntry pid n e.1) (λ p. Any (λ e'. HasAttribute a e'.1) p.ul_files) _
        procs (λ k p p' has e₁. files-HasAttribute p has e₁) e h
