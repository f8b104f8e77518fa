-- ===== src/Proc/Tables.antt =====
-- The table of states through the loop of `do_read` of src/ProcReader.cpp.
use cphf.Base.{
  ℕ, ◌≡◌, ◌∙◌, sym, List, [], ◌∷◌, ◌==◌, ok, All, Ensures, Ensures-ok, Ensures->>=, Ensures-if,
}
use cphf.Text.{Text}
use cphf.Common.{Attribute}
use cphf.Common.Id
use cphf.Map.{Map}
use cphf.Map.All.{AllValues}
use cphf.Files.{ProcFile, UnlinkedFile}
use cphf.Env.{Env}
use cphf.Reader.Device.{read_device}
use cphf.Proc.Attributes.{Gives, Has, read_process-Has}
use cphf.Proc.Coherent.{SameLabels, state_label-SameLabels}
use cphf.Proc.{ProcReading, procstate, process_option, read_ids, read_process}

-- The table gives every state the label that it had at the start.
abbrev pub KeepsTable : ProcReading → Type 0
KeepsTable r = SameLabels r.states procstate

-- Nothing is asked of the attributes.
abbrev Whatever : Attribute → Type 0
Whatever a = Unit

module _ (env : Env) where
  abbrev Tables : Attribute × ProcReading → Type 0
  Tables a = Unit × KeepsTable a.1

  process_option-Tables :
      (c : ℕ) (r : ProcReading) → KeepsTable r → Ensures Tables (process_option env c r)
  unfolding process_option
  process_option-Tables c r j =
      let kept : Unit × KeepsTable r = (tt, j) in
      let ids = λ (id : ℕ).
        Ensures->>= Tables (read_ids env c r.info) (λ x. ok ((id, x.0), record r { info = x.1 }))
          (λ x e. kept) in
      Ensures-if Tables (c == b'c') _ _ kept (
        Ensures-if Tables (c == b'P') _ _ kept (
          Ensures-if Tables (c == b'n') _ _ kept (
            Ensures-if Tables (c == b'U') _ _ (ids Id.loginname) (
              Ensures-if Tables (c == b'u') _ _ (ids Id.uid) (
                Ensures-if Tables (c == b'G') _ _ (ids Id.ugid_name) (
                  Ensures-if Tables (c == b'g') _ _ (ids Id.ugid) (
                    Ensures-if Tables (c == b'e') _ _ kept (
                      Ensures-if Tables (c == b'q') _ _ kept (
                        Ensures-if Tables (c == b's') _ _
                          (tt, λ d. sym (state_label-SameLabels r.info.state r.states d) ∙ j d)
                          (Ensures-if Tables (c == b'd') _ _
                            (Ensures->>= Tables (read_device env r.info.info) _ λ v e. kept)
                            (Ensures-if Tables (c == b'v') _ _ kept (
                              Ensures-if Tables (c == b'r') _ _ kept (
                                Ensures-if Tables (c == b'T') _ _ kept (
                                  Ensures-if Tables (c == b'D') _ _ kept (
                                    Ensures-if Tables (c == b'S') _ _ kept (
                                      Ensures-if Tables (c == b'i') _ _ kept
                                        (Ensures-if Tables (c == b'M') _ _ kept tt)))))))))))))))))

  gives_tables : Gives env Whatever KeepsTable
  gives_tables = record { sets = process_option-Tables; turns = λ pid r j. j; scans = λ pid r j. j }

  everything_goes : (l : List Attribute) → All Whatever l
  everything_goes [] = tt
  everything_goes (a ∷ l) = (tt, everything_goes l)

  files_go : (m : Map ℕ UnlinkedFile) → AllValues (λ f. All Whatever f.attributes) m
  files_go [] = tt
  files_go ((k, f) ∷ m) = (everything_goes f.attributes, files_go m)

  pub read_process-Tables :
      (options : Text) (pid : ℕ) (p : ProcFile) (r : ProcReading)
      {x : ProcFile × ProcReading × List Text}
      → KeepsTable r
      → read_process env options pid p r ≡ ok x
      → KeepsTable x.1
  read_process-Tables options pid p r j e =
      (Ensures-ok (λ x. Has env Whatever KeepsTable gives_tables x.0 × KeepsTable x.1) _
        (read_process-Has env Whatever KeepsTable gives_tables options pid p r j
          (everything_goes p.attributes, files_go p.ul_files))
        e).1
