-- ===== src/Lsof/Store/Processes.antt =====
-- A process made, and one written to, in the memory of src/LSOFReader.cpp.
use cphf.Base.{
  ℕ, suc, ◌≡◌, ◌<◌, refl, ap, ◌∙◌, sym, some, [], ◌==◌, ==_iff, Bool-cases, inl, inr, arith,
}
use mathlib.Core.Path.{subst}
use cphf.Map.{Map, insert, find, assign, int_less}
use cphf.Map.All.{AllValues-weaken, insert-AllValues}
use cphf.Map.Mapped.{mapped, mapped-insert, mapped-agree, mapped-assign, insert-Distinct}
use cphf.Files.{new_proc_file}
use cphf.Lsof.Store.{ProcObject, Memory, write, new_object}
use cphf.Lsof.Store.Owned.{
  OwnsFiles, IsOwned, seen, view, proc_of, OwnsFiles-later, below-other, write_same, write_other,
}

module _ (owner : ℕ → ℕ) (mem : Memory) (procs : Map ℕ ℕ) (owned : IsOwned owner mem procs) where
  -- A process is made and put in, if its key is free.
  abbrev pub with_process : Memory
  with_process = record mem { next = suc mem.next; proc_at = write mem.next new_object mem.proc_at }

  with_process-seen : (r : ℕ) → r < mem.next → seen with_process r ≡ seen mem r
  with_process-seen r h =
      ap (proc_of mem.file_at) (write_other mem.next r new_object mem.proc_at (omega arith))

  pub view-with_process :
      (k : ℕ)
      → view with_process (insert int_less k mem.next procs)
        ≡ insert int_less k new_proc_file (view mem procs)
  unfolding new_proc_file mapped
  view-with_process k =
      mapped-insert (seen with_process) int_less k mem.next procs
      ∙ ap (λ p. insert int_less k p (mapped (seen with_process) procs))
          (ap (proc_of mem.file_at) (write_same mem.next new_object mem.proc_at))
      ∙ ap (insert int_less k new_proc_file) (
          mapped-agree (seen mem) (seen with_process) procs
            (AllValues-weaken procs (λ r h. with_process-seen r h.0) owned.0))

  with_process-OwnsFiles :
      (r : ℕ)
      → (r < mem.next) × OwnsFiles owner mem.next r (mem.proc_at r).ul_files
      → (r < suc mem.next) × OwnsFiles owner (suc mem.next) r (with_process.proc_at r).ul_files
  with_process-OwnsFiles r h =
      let old = write_other mem.next r new_object mem.proc_at (below-other r mem.next h.0) in
      (
        omega (arith, h.0),
        subst (OwnsFiles owner (suc mem.next) r) (sym (ap (λ o. o.ul_files) old))
            (OwnsFiles-later owner mem.next r (mem.proc_at r).ul_files h.1),
      )

  pub with_process-IsOwned : (k : ℕ) → IsOwned owner with_process (insert int_less k mem.next procs)
  with_process-IsOwned k =
      let fresh =
        insert-Distinct int_less k mem.next procs
          (AllValues-weaken procs (λ r h. below-other r mem.next h.0) owned.0) owned.1 in
      let P = λ (r : ℕ).
        (r < suc mem.next) × OwnsFiles owner (suc mem.next) r (with_process.proc_at r).ul_files in
      let none_yet : (with_process.proc_at mem.next).ul_files ≡ [] =
        ap (λ o. o.ul_files) (write_same mem.next new_object mem.proc_at) in
      (
        insert-AllValues P int_less k mem.next procs
            (omega arith, subst (OwnsFiles owner (suc mem.next) mem.next) (sym none_yet) (tt, tt))
            (AllValues-weaken procs with_process-OwnsFiles owned.0),
        fresh,
      )

  module _ (k r : ℕ) (found : find int_less k procs ≡ some r) where
    -- An object is written to that has the same files.
    abbrev pub with_object : ProcObject → Memory
    with_object o = record mem { proc_at = write r o mem.proc_at }

    pub view-with_object :
        (o : ProcObject)
        → view (with_object o) procs ≡ assign int_less k (proc_of mem.file_at o) (view mem procs)
    view-with_object o =
        mapped-assign (seen mem) (seen (with_object o)) int_less k r procs owned.1 found (
          AllValues-weaken procs
            (λ q h other. ap (proc_of mem.file_at) (write_other r q o mem.proc_at other)) owned.0)
        ∙ ap (λ p. assign int_less k p (view mem procs))
            (ap (proc_of mem.file_at) (write_same r o mem.proc_at))

    pub files_stay :
        (o : ProcObject)
        → o.ul_files ≡ (mem.proc_at r).ul_files
        → (q : ℕ) → (write r o mem.proc_at q).ul_files ≡ (mem.proc_at q).ul_files
    files_stay o same q = elim (Bool-cases (q == r)) [
      | inl e ↦ rw (e, same, (==_iff q r).0 e) refl
      | inr e ↦ rw e refl
    ]

    pub with_object-IsOwned :
        (o : ProcObject)
        → o.ul_files ≡ (mem.proc_at r).ul_files
        → IsOwned owner (with_object o) procs
    with_object-IsOwned o same = (
      AllValues-weaken procs
          (λ q h. (h.0, subst (OwnsFiles owner mem.next q) (sym (files_stay o same q)) h.1))
          owned.0,
      owned.1,
    )
