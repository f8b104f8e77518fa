-- ===== src/Builder/Fitting.antt =====
-- The labels that the readers announce, as `printFiles` of src/PrettyPrinter.cpp prints them.
use cphf.Base.{
  ℕ, ◌≡◌, refl, Bool, true, ◌&&◌, List, [], ◌∷◌, some, ◌==◌, All, Ensures, Ensures-ok, Bool-cases,
  inl, inr, arith, ok,
}
use cphf.Text.{Text}
use mathlib.Core.Path.{subst}
use cphf.Common.Label
use cphf.Common.{Attribute, AttributeFlags}
use cphf.Map.{insert_hash, find_hash}
use cphf.Map.All.{AllValues}
use cphf.Files.Laws.{insert_all}
use cphf.Env.{Env}
use cphf.Proc.Labels as ProcLabels
use cphf.Proc.Stat.{ProcInfo}
use cphf.FileStat.Labels as FileLabels
use cphf.Printer.Label.{fits, IsLabel, fits-IsLabel}
use cphf.Builder.{World, DataDigger, build, initial}
use cphf.Builder.Announced.{build-HasFlags}
use cphf.Builder.Labels.{lsof_announced}

abbrev Fits : Text → Type 0
Fits label = fits label ≡ true

insert_hash-Fits :
    (k : ℕ) (v : Text) (flags : AttributeFlags)
    → Fits v
    → AllValues Fits flags
    → AllValues Fits (insert_hash (k, v) flags)
unfolding insert_hash
insert_hash-Fits k v [] h all = (h, tt)
insert_hash-Fits k v ((j, w) ∷ m) h all = elim (Bool-cases (j == k)) [
  | inl e ↦ rw e all
  | inr e ↦ rw e (all.0, insert_hash-Fits k v m h all.1)
]

insert_all-Fits :
    (l : List Attribute) (flags : AttributeFlags)
    → All (λ a. Fits a.1) l
    → AllValues Fits flags
    → AllValues Fits (insert_all l flags)
unfolding insert_all
insert_all-Fits [] flags h all = all
insert_all-Fits (a ∷ l) flags h all =
    insert_all-Fits l (insert_hash a flags) h.1 (insert_hash-Fits a.0 a.1 flags h.0 all)

all_fit : List Attribute → Bool
unfolding fits
all_fit [] = true
all_fit (a ∷ l) = fits a.1 && all_fit l

all_fit-All : (l : List Attribute) → all_fit l ≡ true → All (λ a. Fits a.1) l
unfolding all_fit
all_fit-All [] h = tt
all_fit-All (a ∷ l) h = elim (Bool-cases (fits a.1)) [
  | inl e ↦ (e, all_fit-All l (rw e at h))
  | inr e ↦ absurd (ground arith)
]

lsof_announced-Fits : all_fit lsof_announced ≡ true
unfolding all_fit Label.fd Label.flags Label.pid
lsof_announced-Fits = refl

proc_announced-Fits : all_fit ProcLabels.announced ≡ true
unfolding all_fit Label.cmd Label.ppid Label.procgid Label.loginname Label.uid Label.ugid_name
    Label.ugid Label.pstart_time Label.pcpu_time Label.device Label.pvms Label.prss
    Label.text_region Label.data_region Label.stack_region Label.epi Label.perms Label.pstate
proc_announced-Fits = refl

filestat_announced-Fits : all_fit FileLabels.announced ≡ true
unfolding all_fit Label.filename Label.inode Label.uid Label.ugid Label.filemode Label.access_t
    Label.mod_t Label.stat_change_t Label.device Label.pid Label.filesize Label.perms
filestat_announced-Fits = refl

build-Fits :
    (env : Env) (fresh : ProcInfo) (diggers : List DataDigger) (w : World)
    → AllValues Fits w.flags
    → Ensures (λ w'. AllValues Fits w'.flags) (build env fresh diggers w)
build-Fits env fresh =
    build-HasFlags (AllValues Fits)
      (λ flags.
        insert_all-Fits lsof_announced flags (all_fit-All lsof_announced lsof_announced-Fits))
      (λ flags.
        insert_all-Fits ProcLabels.announced flags
          (all_fit-All ProcLabels.announced proc_announced-Fits))
      (λ flags.
        insert_all-Fits FileLabels.announced flags
          (all_fit-All FileLabels.announced filestat_announced-Fits))
      env fresh

find_hash-Fits :
    (id : ℕ) (label : Text) (flags : AttributeFlags)
    → AllValues Fits flags
    → find_hash id flags ≡ some label
    → Fits label
unfolding find_hash
find_hash-Fits id label [] all e = absurd (cc)
find_hash-Fits id label ((j, w) ∷ m) all e = elim (Bool-cases (j == id)) [
  | inl same ↦ subst Fits (ground arith) all.0
  | inr other ↦ find_hash-Fits id label m all.1 (rw other at e)
]

-- Every label that any readers leave has its place in a line.
pub build-IsLabel :
    (env : Env) (fresh : ProcInfo) (diggers : List DataDigger) (lines : List Text) (id : ℕ)
    (label : Text) {w : World}
    → build env fresh diggers (record initial { lines = lines }) ≡ ok w
    → find_hash id w.flags ≡ some label
    → IsLabel label
build-IsLabel env fresh diggers lines id label {w} e found =
    let all =
      Ensures-ok (λ w'. AllValues Fits w'.flags) _
        (build-Fits env fresh diggers (record initial { lines = lines }) tt) e in
    fits-IsLabel label (find_hash-Fits id label w.flags all found)
