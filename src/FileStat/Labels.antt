-- ===== src/FileStat/Labels.antt =====
-- The ids that `processOpiton` of src/FileStatReader.cpp sets, and those that `do_createAttribMap`
-- announces.
use cphf.Base.{
  ℕ, ◌≡◌, refl, true, List, [], ◌∷◌, ◌==◌, Ensures, Ensures-ok, ensures, All-weaken, all-All,
}
use cphf.Text.{Text}
use cphf.Common.{Attribute, AttributeFlags}
use cphf.Common.Id
use cphf.Common.Label
use cphf.Map.All.{AllValues}
use cphf.Files.{ProcMap}
use cphf.Files.Laws.{
  has_key, insert_all, insert_all-Extends, Extends, insert_all-IsLabelled, IsLabelled, ProcLabelled,
}
use cphf.Env.{Env}
use cphf.FileStat.Cases.{cases, process_option-cases}
use cphf.FileStat.Attributes.{read-OfProcess}
use cphf.FileStat.{FileInfo, process_option, create_attrib_map, read}

-- What `do_createAttribMap` puts in, in order.
abbrev pub announced : List Attribute
announced =
    (Id.filename, Label.filename)
    ∷ (Id.inode, Label.inode)
    ∷ (Id.uid, Label.uid)
    ∷ (Id.ugid, Label.ugid)
    ∷ (Id.filemode, Label.filemode)
    ∷ (Id.access_t, Label.access_t)
    ∷ (Id.mod_t, Label.mod_t)
    ∷ (Id.stat_change_t, Label.stat_change_t)
    ∷ (Id.device, Label.device)
    ∷ (Id.pid, Label.pid)
    ∷ (Id.filesize, Label.filesize)
    ∷ (Id.perms, Label.perms)
    ∷ []

pub create_attrib_map-insert_all :
    (flags : AttributeFlags) → create_attrib_map flags ≡ insert_all announced flags
unfolding create_attrib_map insert_all
create_attrib_map-insert_all flags = refl

pub announced-IsLabelled :
    (flags : AttributeFlags) (id : ℕ)
    → has_key id announced ≡ true
    → IsLabelled (create_attrib_map flags) id
announced-IsLabelled flags id h =
    rw (create_attrib_map-insert_all flags) (insert_all-IsLabelled announced flags id h)

-- Labels are only added.
pub create_attrib_map-Extends : (flags : AttributeFlags) → Extends flags (create_attrib_map flags)
create_attrib_map-Extends flags id h =
    rw (create_attrib_map-insert_all flags) (insert_all-Extends announced flags id h)

-- Each case sets an id that is announced.
pub process_option-announced :
    (env : Env) (c : ℕ) (info : FileInfo)
    → Ensures (λ a. has_key a.0 announced ≡ true) (process_option env c info)
process_option-announced env c info =
    process_option-cases (λ id. has_key id announced ≡ true) env c info
      (All-weaken {Q = λ d. (c == d.0) ≡ true → has_key d.1 announced ≡ true} cases (λ d h e. h)
        (all-All (λ d. has_key d.1 announced) cases refl))

-- After the reader every attribute has a label, if before it every attribute had one.
pub read-Labelled :
    (flags : AttributeFlags) (env : Env) (txt_fd : ℕ) (options : Text) (procs : ProcMap)
    → AllValues (ProcLabelled (create_attrib_map flags)) procs
    → Ensures (AllValues (ProcLabelled (create_attrib_map flags))) (read env txt_fd options procs)
read-Labelled flags env txt_fd options procs h =
    let Q = λ (a : Attribute). IsLabelled (create_attrib_map flags) a.0 in
    read-OfProcess env Q
      (λ c info. ensures Q (process_option env c info) λ a e. announced-IsLabelled flags a.0 (
        Ensures-ok (λ a. has_key a.0 announced ≡ true) (process_option env c info)
          (process_option-announced env c info) e))
      txt_fd options procs h
