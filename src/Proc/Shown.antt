-- ===== src/Proc/Shown.antt =====
-- The attributes of one process, as the loop of `do_read` of src/ProcReader.cpp sets them.
use cphf.Base.{
  ℕ, ◌≡◌, refl, sym, true, List, [], ◌∷◌, ◌++◌, ◌==◌, ok, Any, Any-append_right, inl, inr,
  >>=-eq-ok, ok-injective, Ensures, Ensures-ok, ensures, Ensures->>=, Ensures-if, Matches-ok,
  Contains, Contains-Any, Contains-refl, Contains-trans, Contains-append, Contains-cons,
}
use mathlib.Core.Path.{subst}
use cphf.Text.{Text, atoi, holds}
use cphf.Common.{Attribute}
use cphf.Common.Id
use cphf.Map.{Map}
use cphf.Map.Entries.{find-entry}
use cphf.Files.{ProcFile, ProcMap, add_proc_attribute, number}
use cphf.Env.{Env}
use cphf.Reader.Options.{IsSetBy, Small, collect_value, collect-Small, collect_values}
use cphf.Proc.Alone.{IsKnown, SameLines, own_record, read_process-by_record}
use cphf.Proc.Tables.{KeepsTable, read_process-Tables}
use cphf.Proc.Order.{option_of, value, value-TellsOptions}
use cphf.Proc.Stat.{ProcInfo}
use cphf.Proc.{ProcReading, ProcStates, procstate, run_readers, read_process, read_processes, read}

abbrev pub HasAttribute : Attribute → ProcFile → Type 0
HasAttribute a p = Any (λ b. b ≡ a) p.attributes

-- An attribute is added to those that are there.
abbrev Adds : Attribute → ProcFile → ProcFile → Type 0
Adds a p p' = HasAttribute a p' × Contains p'.attributes p.attributes

behind : (a : Attribute) (l : List Attribute) → Any (λ b. b ≡ a) (l ++ a ∷ [])
behind a l = Any-append_right (λ b. b ≡ a) l (a ∷ []) (inl refl)

add_proc_attribute-Adds :
    (id : ℕ) (text : Text) (p : ProcFile)
    → Ensures (Adds (id, text) p) (add_proc_attribute id text p)
unfolding add_proc_attribute
add_proc_attribute-Adds id text p =
    let a : Attribute = (id, text) in
    let there = behind a p.attributes in
    let stays = Contains-append p.attributes (a ∷ []) in
    Ensures-if (Adds a p) (id == Id.pid) _ _
      (Ensures->>= (Adds a p) (number (atoi text)) _ λ n e. (there, stays))
      (Ensures-if (Adds a p) (id == Id.cmd) _ _ (inl refl, Contains-cons a p.attributes)
        (there, stays))

run_readers-Contains :
    (m : Map ℕ Text) (p : ProcFile)
    → Ensures (λ p'. Contains p'.attributes p.attributes) (run_readers m p)
unfolding run_readers
run_readers-Contains [] p = Contains-refl p.attributes
run_readers-Contains ((id, text) ∷ m) p =
    let Q = λ (q q' : ProcFile). Contains q'.attributes q.attributes in
    Ensures->>= (Q p) (add_proc_attribute id text p) _ λ p₁ e.
      ensures (Q p) (run_readers m p₁) λ p₂ e'.
        Contains-trans p.attributes p₁.attributes p₂.attributes
          (Ensures-ok (Adds (id, text) p) _ (add_proc_attribute-Adds id text p) e).1
          (Ensures-ok (Q p₁) _ (run_readers-Contains m p₁) e')

-- A value that was collected is added, and stays.
run_readers-HasAttribute :
    (a : Attribute) (m : Map ℕ Text) (p : ProcFile)
    → Any (λ e. e ≡ a) m
    → Ensures (HasAttribute a) (run_readers m p)
unfolding run_readers
run_readers-HasAttribute a [] p h = absurd h
run_readers-HasAttribute a ((id, text) ∷ m) p (inl same) =
    Ensures->>= (HasAttribute a) (add_proc_attribute id text p) _ λ p₁ e.
      ensures (HasAttribute a) (run_readers m p₁) λ p₂ e'.
        Contains-Any (λ b. b ≡ a) p₁.attributes p₂.attributes
          (Ensures-ok (λ q. Contains q.attributes p₁.attributes) _ (run_readers-Contains m p₁) e')
          (subst (λ b. HasAttribute b p₁) same
            (Ensures-ok (Adds (id, text) p) _ (add_proc_attribute-Adds id text p) e).0)
run_readers-HasAttribute a ((id, text) ∷ m) p (inr h) =
    Ensures->>= (HasAttribute a) (add_proc_attribute id text p) _
      λ p₁ e. run_readers-HasAttribute a m p₁ h

-- A process whose file can be scanned gets the attribute of each option, by its own record.
module _ (env : Env) (options : Text) (pid c : ℕ) (info : ProcInfo) (a : Attribute)
    (known : IsKnown env pid) (asked : holds options c ≡ true)
    (says : value env (own_record env pid known info) c ≡ ok a) where
  read_process-HasAttribute :
      (p : ProcFile) (r : ProcReading) {x : ProcFile × ProcReading × List Text}
      → KeepsTable r
      → read_process env options pid p r ≡ ok x
      → HasAttribute a x.0
  read_process-HasAttribute p r {x} j e =
      let own = own_record env pid known info in
      let (p', filled, same) =
        Matches-ok SameLines (read_process env options pid p r) _
          (read_process-by_record env options pid p r info known j) e in
      let (m, collected, added) = >>=-eq-ok (collect_values (value env own) options []) _ filled in
      let tells = value-TellsOptions env own in
      let small =
        Ensures-ok (Small (value env own) option_of) _
          (collect-Small (value env own) option_of options [] tells tt) collected in
      let bound = Ensures-ok (IsSetBy (value env own) option_of c) _ (tells c) says in
      subst (HasAttribute a) (sym same.0) (
        Ensures-ok (HasAttribute a) _
          (run_readers-HasAttribute a m p (
            find-entry a.0 a.1 m small bound.0
              (collect_value (value env own) option_of options m c a tells collected asked says)))
          added)

  read_processes-HasAttribute :
      (procs : ProcMap) (r : ProcReading) {x : ProcMap × ProcReading × List Text}
      → KeepsTable r
      → Any (λ e. e.0 ≡ pid) procs
      → read_processes env options procs r ≡ ok x
      → Any (λ e. HasAttribute a e.1) x.0
  unfolding read_processes
  read_processes-HasAttribute [] r j h e = absurd h
  read_processes-HasAttribute ((k, p) ∷ procs) r j h e =
      let (x₁, e₁, more) = >>=-eq-ok (read_process env options k p r) _ e in
      let (x₂, e₂, done) = >>=-eq-ok (read_processes env options procs x₁.1) _ more in
      subst (λ y. Any (λ e. HasAttribute a e.1) y.0) (ok-injective _ _ done)
        (elim h [
          | inl same ↦ inl (
              read_process-HasAttribute p r j
                (subst (λ i. read_process env options i p r ≡ ok x₁) same e₁))
          | inr there ↦ inr (
              read_processes-HasAttribute procs x₁.1 (read_process-Tables env options k p r j e₁)
                there e₂)
        ])

  -- After the reader has run, the process has the attribute of the option.
  pub read-HasAttribute :
      (fresh : ProcInfo) (procs : ProcMap) {x : ProcMap × ProcStates × List Text}
      → Any (λ e. e.0 ≡ pid) procs
      → read env fresh procstate options procs ≡ ok x
      → Any (λ e. HasAttribute a e.1) x.0
  unfolding read
  read-HasAttribute fresh procs h e =
      let r : ProcReading = record { info = fresh; states = procstate } in
      let (y, e₁, done) = >>=-eq-ok (read_processes env options procs r) _ e in
      subst (λ z. Any (λ e. HasAttribute a e.1) z.0) (ok-injective _ _ done)
        (read_processes-HasAttribute procs r (λ d. refl) h e₁)
