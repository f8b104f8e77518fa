-- ===== src/Builder/Agreed.antt =====
-- The labels of the attributes: every reader that `build` of src/ProcFileEntryBuilder.cpp
-- runs announces the same.
use cphf.Base.{
  ℕ, ◌≡◌, refl, ap, ◌∙◌, sym, Bool, true, List, [], ◌∷◌, ◌++◌, All-split, Option, none, some, all,
  all-All, All, Ensures-ok, ok, arith, inl, inr, ◌⊎◌,
}
use cphf.Text.{Text, same}
use cphf.Common.Label
use cphf.Common.{Attribute, AttributeFlags}
use cphf.Map.{insert_hash, find_hash}
use cphf.Map.Laws.{find_hash-insert_hash}
use cphf.Files.Laws.{insert_all, IsLabelled}
use cphf.Env.{Env}
use cphf.FileStat
use cphf.Proc
use cphf.FileStat.Labels as FileLabels
use cphf.Proc.Labels as ProcLabels
use cphf.Proc.Stat.{ProcInfo}
use cphf.Printer.Label.{same-eq}
use cphf.Builder.{World, DataDigger, build}
use cphf.Builder.Announced.{build-HasFlags}
use cphf.Builder.Labels.{lsof_announced}

-- The labels that the reader of files and that of processes announce for an id.
unfoldable pub file_label : ℕ → Option Text
unfolding find_hash FileStat.create_attrib_map
file_label id = find_hash id (FileStat.create_attrib_map [])

unfoldable pub proc_label : ℕ → Option Text
unfolding find_hash Proc.create_attrib_map
proc_label id = find_hash id (Proc.create_attrib_map [])

abbrev agrees_with : Text → Option Text → Bool
agrees_with label none = true
agrees_with label (some l) = same label l

agrees : (ℕ → Option Text) → Attribute → Bool
unfolding same
agrees label_by a = agrees_with a.1 (label_by a.0)

-- Whatever any reader announces.
abbrev announced : List Attribute
announced = lsof_announced ++ (ProcLabels.announced ++ FileLabels.announced)

file_labels-agree : all (agrees file_label) announced ≡ true
unfolding agrees insert_hash file_label Label.fd Label.flags Label.pid Label.cmd Label.ppid
    Label.procgid Label.loginname Label.uid Label.ugid_name Label.ugid Label.pstart_time
    Label.pcpu_time Label.device Label.pvms Label.prss Label.text_region Label.data_region
    Label.stack_region Label.epi Label.perms Label.pstate Label.filename Label.inode Label.filemode
    Label.access_t Label.mod_t Label.stat_change_t Label.filesize
file_labels-agree = refl

proc_labels-agree : all (agrees proc_label) announced ≡ true
unfolding agrees insert_hash proc_label Label.fd Label.flags Label.pid Label.cmd Label.ppid
    Label.procgid Label.loginname Label.uid Label.ugid_name Label.ugid Label.pstart_time
    Label.pcpu_time Label.device Label.pvms Label.prss Label.text_region Label.data_region
    Label.stack_region Label.epi Label.perms Label.pstate Label.filename Label.inode Label.filemode
    Label.access_t Label.mod_t Label.stat_change_t Label.filesize
proc_labels-agree = refl

module _ (label_by : ℕ → Option Text) (agree : all (agrees label_by) announced ≡ true) (id : ℕ)
    (label : Text) (known : label_by id ≡ some label) where
  abbrev Agrees : Attribute → Type 0
  Agrees a = agrees label_by a ≡ true

  -- No other label.
  abbrev Says : AttributeFlags → Type 0
  Says flags = (find_hash id flags ≡ none) ⊎ (find_hash id flags ≡ some label)

  agrees-label : (a : Attribute) → agrees label_by a ≡ true → a.0 ≡ id → a.1 ≡ label
  unfolding agrees
  agrees-label a h e = same-eq a.1 label (sym (ap (agrees_with a.1) (ap label_by e ∙ known)) ∙ h)

  insert_all-Says :
      (l : List Attribute) (flags : AttributeFlags)
      → All Agrees l
      → Says flags
      → Says (insert_all l flags)
  unfolding insert_all
  insert_all-Says [] flags h says = says
  insert_all-Says (a ∷ l) flags h says =
      insert_all-Says l (insert_hash a flags) h.1
        (ground (arith, find_hash-insert_hash id a.0 a.1 flags, agrees-label a h.0))

  -- Whatever readers run, an id that has a label has this one.
  build-Says :
      (env : Env) (fresh : ProcInfo) (diggers : List DataDigger) (w : World) {w' : World}
      → w.flags ≡ []
      → build env fresh diggers w ≡ ok w'
      → IsLabelled w'.flags id
      → find_hash id w'.flags ≡ some label
  unfolding find_hash
  build-Says env fresh diggers w {w'} empty e labelled =
      let everything = all-All (agrees label_by) announced agree in
      let (lsof, others) =
        All-split Agrees lsof_announced (ProcLabels.announced ++ FileLabels.announced) everything in
      let (procs, files) = All-split Agrees ProcLabels.announced FileLabels.announced others in
      let says =
        Ensures-ok (λ v. Says v.flags) _
          (build-HasFlags Says (λ flags. insert_all-Says lsof_announced flags lsof)
            (λ flags. insert_all-Says ProcLabels.announced flags procs)
            (λ flags. insert_all-Says FileLabels.announced flags files) env fresh diggers w
            (inl (rw empty refl)))
          e in
      elim says [ inl missing ↦ absurd (labelled missing) | inr found ↦ found ]

pub build-Says_file :
    (id : ℕ) (label : Text) (env : Env) (fresh : ProcInfo) (diggers : List DataDigger) (w : World)
    {w' : World}
    → file_label id ≡ some label
    → w.flags ≡ []
    → build env fresh diggers w ≡ ok w'
    → IsLabelled w'.flags id
    → find_hash id w'.flags ≡ some label
build-Says_file id label env fresh diggers w known =
    build-Says file_label file_labels-agree id label known env fresh diggers w

pub build-Says_proc :
    (id : ℕ) (label : Text) (env : Env) (fresh : ProcInfo) (diggers : List DataDigger) (w : World)
    {w' : World}
    → proc_label id ≡ some label
    → w.flags ≡ []
    → build env fresh diggers w ≡ ok w'
    → IsLabelled w'.flags id
    → find_hash id w'.flags ≡ some label
build-Says_proc id label env fresh diggers w known =
    build-Says proc_label proc_labels-agree id label known env fresh diggers w
