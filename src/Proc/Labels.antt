-- ===== src/Proc/Labels.antt =====
-- The ids that `processOpiton` of src/ProcReader.cpp sets, and those that `do_createAttribMap`
-- announces.
use cphf.Base.{
  ℕ, ◌≡◌, refl, true, List, [], ◌∷◌, ◌==◌, Ensures, Ensures-ok, All, ensures, All-weaken, all-All,
}
use cphf.Text.{Text}
use cphf.Common.{Attribute, AttributeFlags}
use cphf.Common.Id
use cphf.Common.Label
use cphf.Map.{Map}
use cphf.Map.All.{AllValues}
use cphf.Files.{ProcMap}
use cphf.Files.Laws.{
  has_key, insert_all, insert_all-Extends, Extends, insert_all-IsLabelled, IsLabelled, ProcLabelled,
}
use cphf.Env.{Env}
use cphf.Proc.Stat.{ProcInfo}
use cphf.Proc.Cases.{cases, process_option-cases}
use cphf.Proc.Attributes.{Gives, collect-All, read-OfProcess}
use cphf.Proc.{ProcReading, ProcStates, process_option, create_attrib_map, collect, read}

-- What `do_createAttribMap` puts in, in order.
abbrev pub announced : List Attribute
announced =
    (Id.cmd, Label.cmd)
    ∷ (Id.ppid, Label.ppid)
    ∷ (Id.procgid, Label.procgid)
    ∷ (Id.loginname, Label.loginname)
    ∷ (Id.uid, Label.uid)
    ∷ (Id.ugid_name, Label.ugid_name)
    ∷ (Id.ugid, Label.ugid)
    ∷ (Id.pstart_time, Label.pstart_time)
    ∷ (Id.pcpu_time, Label.pcpu_time)
    ∷ (Id.device, Label.device)
    ∷ (Id.pvms, Label.pvms)
    ∷ (Id.prss, Label.prss)
    ∷ (Id.text_region, Label.text_region)
    ∷ (Id.data_region, Label.data_region)
    ∷ (Id.stack_region, Label.stack_region)
    ∷ (Id.epi, Label.epi)
    ∷ (Id.perms, Label.perms)
    ∷ (Id.pstate, Label.pstate)
    ∷ []

pub create_attrib_map-insert_all :
    (flags : AttributeFlags) → create_attrib_map flags ≡ insert_all announced flags
unfolding create_attrib_map insert_all
create_attrib_map-insert_all flags = refl

pub announced-IsLabelled :
    (flags : AttributeFlags) (id : ℕ)
    → has_key id announced ≡ true
    → IsLabelled (create_attrib_map flags) id
announced-IsLabelled flags id h =
    rw (create_attrib_map-insert_all flags) (insert_all-IsLabelled announced flags id h)

-- Labels are only added.
pub create_attrib_map-Extends : (flags : AttributeFlags) → Extends flags (create_attrib_map flags)
create_attrib_map-Extends flags id h =
    rw (create_attrib_map-insert_all flags) (insert_all-Extends announced flags id h)

-- Each case sets an id that is announced.
pub process_option-announced :
    (env : Env) (c : ℕ) (r : ProcReading)
    → Ensures (λ a. has_key a.0.0 announced ≡ true) (process_option env c r)
process_option-announced env c r =
    process_option-cases (λ id. has_key id announced ≡ true) env c r
      (All-weaken {Q = λ d. (c == d.0) ≡ true → has_key d.1 announced ≡ true} cases (λ d h e. h)
        (all-All (λ d. has_key d.1 announced) cases refl))

gives_announced : (env : Env) → Gives env (λ a. has_key a.0 announced ≡ true) (λ r. Unit)
gives_announced env = record {
  sets = λ c r j.
      ensures (λ a. (has_key a.0.0 announced ≡ true) × Unit) (process_option env c r)
        λ a e. (
          Ensures-ok (λ a. has_key a.0.0 announced ≡ true) (process_option env c r)
              (process_option-announced env c r) e,
          tt,
        );
  turns = λ pid r j. tt;
  scans = λ pid r j. tt;
}

-- So each of them has a label.
gives_label :
    (flags : AttributeFlags) (env : Env)
    → Gives env (λ a. IsLabelled (create_attrib_map flags) a.0) (λ r. Unit)
gives_label flags env = record {
  sets = λ c r j.
      ensures (λ a. IsLabelled (create_attrib_map flags) a.0.0 × Unit) (process_option env c r)
        λ a e. (
          announced-IsLabelled flags a.0.0 (
              Ensures-ok (λ a. has_key a.0.0 announced ≡ true) (process_option env c r)
                (process_option-announced env c r) e),
          tt,
        );
  turns = λ pid r j. tt;
  scans = λ pid r j. tt;
}

abbrev pub AllAnnounced : Map ℕ Text → Type 0
AllAnnounced = All (λ r. has_key r.0 announced ≡ true)

-- All readers in the map have ids that are announced.
pub collect-AllAnnounced :
    (env : Env) (options : Text) (r : ProcReading) (m : Map ℕ Text)
    → AllAnnounced m
    → Ensures (λ c. AllAnnounced c.0) (collect env options r m)
collect-AllAnnounced env options r m all =
    ensures (λ c. AllAnnounced c.0) (collect env options r m)
      λ c e.
        (Ensures-ok (λ c. AllAnnounced c.0 × Unit) (collect env options r m)
          (collect-All env (λ a. has_key a.0 announced ≡ true) (λ r. Unit) (gives_announced env)
            options r m tt all)
          e).0

-- After the reader every attribute has a label, if before it every attribute had one.
pub read-Labelled :
    (flags : AttributeFlags) (env : Env) (fresh : ProcInfo) (states : ProcStates) (options : Text)
    (procs : ProcMap)
    → AllValues (ProcLabelled (create_attrib_map flags)) procs
    → Ensures
        (λ x. AllValues (ProcLabelled (create_attrib_map flags)) x.0)
        (read env fresh states options procs)
read-Labelled flags env fresh states options procs h =
    let Q = λ (a : Attribute). IsLabelled (create_attrib_map flags) a.0 in
    ensures (λ x. AllValues (ProcLabelled (create_attrib_map flags)) x.0)
      (read env fresh states options procs)
      λ x e.
        (Ensures-ok _ (read env fresh states options procs)
          (read-OfProcess env Q (λ r. Unit) (gives_label flags env) fresh states options procs tt h)
          e).0
