-- ===== src/Builder/Announced.antt =====
-- What the readers that `build` of src/ProcFileEntryBuilder.cpp runs make of `attributeFlags`.
use cphf.Base.{ℕ, ◌≡◌, List, [], ◌∷◌, some, Ensures, Ensures->>=, Ensures-ok, arith, inl, inr}
use cphf.Text.{Text}
use cphf.Common.{Attribute, AttributeFlags}
use cphf.Map.{insert_hash, find_hash}
use cphf.Map.Laws.{find_hash-insert_hash}
use cphf.Files.Laws.{insert_all}
use cphf.Env.{Env}
use cphf.Reader.{CphfReader}
use cphf.Proc.{ProcStates}
use cphf.Proc.Labels as ProcLabels
use cphf.Proc.Stat.{ProcInfo}
use cphf.FileStat.Labels as FileLabels
use cphf.Builder.{
  World, DataDigger, dig, run_reader, build, lsof_reader, proc_reader, filestat_reader,
}
use cphf.Builder.Readers.{new_reader-cases}
use cphf.Builder.Labels.{lsof_announced, lsof_create-insert_all}

-- A property of the labels that putting in what a reader announces keeps.
module _ (P : AttributeFlags → Type 0)
    (lsof : (flags : AttributeFlags) → P flags → P (insert_all lsof_announced flags))
    (procs : (flags : AttributeFlags) → P flags → P (insert_all ProcLabels.announced flags))
    (files : (flags : AttributeFlags) → P flags → P (insert_all FileLabels.announced flags))
    (env : Env) (fresh : ProcInfo) where
  abbrev KeepsFlags : CphfReader ProcStates → Type 0
  KeepsFlags cphfr = (flags : AttributeFlags) → P flags → P (cphfr.create_attrib_map flags)

  abbrev HasFlags : World → Type 0
  HasFlags w = P w.flags

  lsof_reader-KeepsFlags : KeepsFlags (lsof_reader env)
  lsof_reader-KeepsFlags flags h = rw (lsof_create-insert_all flags) (lsof flags h)

  proc_reader-KeepsFlags : KeepsFlags (proc_reader env fresh)
  proc_reader-KeepsFlags flags h =
      rw (ProcLabels.create_attrib_map-insert_all flags) (procs flags h)

  filestat_reader-KeepsFlags : KeepsFlags (filestat_reader env)
  filestat_reader-KeepsFlags flags h =
      rw (FileLabels.create_attrib_map-insert_all flags) (files flags h)

  dig-HasFlags : (d : DataDigger) (w : World) → P w.flags → Ensures HasFlags (dig env fresh d w)
  unfolding dig run_reader
  dig-HasFlags (reader, options) w h =
      elim (new_reader-cases KeepsFlags env fresh reader lsof_reader-KeepsFlags
        proc_reader-KeepsFlags filestat_reader-KeepsFlags) [
          | inl e ↦ rw (dig, e) h
          | inr (cphfr, e, keeps) ↦
              rw (dig, e)
                (Ensures->>= HasFlags (cphfr.read options w.states w.procs) _
                  λ x e'. keeps w.flags h)
        ]

  pub build-HasFlags :
      (diggers : List DataDigger) (w : World)
      → P w.flags
      → Ensures HasFlags (build env fresh diggers w)
  unfolding build
  build-HasFlags [] w h = h
  build-HasFlags (d ∷ ds) w h =
      Ensures->>= HasFlags (dig env fresh d w) _
        λ w' e. build-HasFlags ds w' (Ensures-ok HasFlags _ (dig-HasFlags d w h) e)

insert_all_keeps :
    (id : ℕ) (label : Text) (l : List Attribute) (flags : AttributeFlags)
    → find_hash id flags ≡ some label
    → find_hash id (insert_all l flags) ≡ some label
unfolding insert_all
insert_all_keeps id label [] flags e = e
insert_all_keeps id label ((j, v) ∷ l) flags e =
    insert_all_keeps id label l (insert_hash (j, v) flags)
      (ground (arith, find_hash-insert_hash id j v flags))

-- A label that an id has, it keeps, whatever readers run.
pub build_keeps_label :
    (id : ℕ) (label : Text) (env : Env) (fresh : ProcInfo) (diggers : List DataDigger) (w : World)
    → find_hash id w.flags ≡ some label
    → Ensures (λ w'. find_hash id w'.flags ≡ some label) (build env fresh diggers w)
build_keeps_label id label env fresh =
    build-HasFlags (λ flags. find_hash id flags ≡ some label)
      (insert_all_keeps id label lsof_announced) (insert_all_keeps id label ProcLabels.announced)
      (insert_all_keeps id label FileLabels.announced) env fresh
