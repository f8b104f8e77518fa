-- ===== src/Lsof/Store/Opened.antt =====
-- A file made, and one written to, in the memory of src/LSOFReader.cpp.
use cphf.Base.{
  ℕ, suc, ◌≡◌, ◌<◌, refl, ap, ◌∙◌, sym, some, ◌==◌, ==_iff, Bool-cases, inl, inr, arith,
}
use mathlib.Core.Path.{subst}
use cphf.Map.{Map, insert, find, assign, int_less}
use cphf.Map.All.{AllValues-weaken, insert-AllValues, find-AllValues}
use cphf.Map.Mapped.{mapped, mapped-insert, mapped-agree, mapped-assign, insert-Distinct}
use cphf.Files.{UnlinkedFile}
use cphf.Lsof.Store.{ProcObject, Memory, write}
use cphf.Lsof.Store.Owned.{
  OwnsFiles, IsOwned, seen, view, proc_of, proc_of-agree, below-other, write_same, write_other,
  entry,
}

module _ (owner : ℕ → ℕ) (mem : Memory) (procs : Map ℕ ℕ) (owned : IsOwned owner mem procs) where
  module _ (k r : ℕ) (found : find int_less k procs ≡ some r) where
    -- A file is made, and put in the process if its key is free.
    abbrev pub with_file : ℕ → UnlinkedFile → Memory
    with_file key f =
        let o = mem.proc_at r in
        record {
          next = suc mem.next;
          proc_at =
              write r (record o { ul_files = insert int_less key mem.next o.ul_files }) mem.proc_at;
          file_at = write mem.next f mem.file_at;
        }

    with_file-seen :
        (key : ℕ) (f : UnlinkedFile)
        → seen (with_file key f) r
          ≡ record (seen mem r) { ul_files = insert int_less key f (seen mem r).ul_files }
    with_file-seen key f =
        let o = mem.proc_at r in
        let file_at' = write mem.next f mem.file_at in
        let grown : ProcObject = record o { ul_files = insert int_less key mem.next o.ul_files } in
        ap (proc_of file_at') (write_same r grown mem.proc_at)
        ∙ ap
            (λ files. record {
              pid = o.pid;
              ppid = o.ppid;
              attributes = o.attributes;
              ul_files = files;
            })
            (mapped-insert file_at' int_less key mem.next o.ul_files
              ∙ ap (λ g. insert int_less key g (mapped file_at' o.ul_files))
                  (write_same mem.next f mem.file_at)
              ∙ ap (insert int_less key f) (
                  mapped-agree mem.file_at file_at' o.ul_files (
                    AllValues-weaken o.ul_files
                      (λ g b. write_other mem.next g f mem.file_at (below-other g mem.next b.0))
                      (entry owner mem procs owned k r found).1.0)))

    pub view-with_file :
        (key : ℕ) (f : UnlinkedFile)
        → view (with_file key f) procs
          ≡ assign int_less k
              (record (seen mem r) { ul_files = insert int_less key f (seen mem r).ul_files })
              (view mem procs)
    view-with_file key f =
        let o = mem.proc_at r in
        let mem' = with_file key f in
        let grown : ProcObject = record o { ul_files = insert int_less key mem.next o.ul_files } in
        mapped-assign (seen mem) (seen mem') int_less k r procs owned.1 found (
          AllValues-weaken procs
            (λ q h other.
              ap (proc_of mem'.file_at) (write_other r q grown mem.proc_at other)
              ∙ proc_of-agree mem.file_at mem'.file_at (mem.proc_at q) (
                  AllValues-weaken (mem.proc_at q).ul_files
                    (λ g b. write_other mem.next g f mem.file_at (below-other g mem.next b.0))
                    h.1.0))
            owned.0)
        ∙ ap (λ p. assign int_less k p (view mem procs)) (with_file-seen key f)

    -- The files of a process, once one of `r` is made.
    with_file-OwnsFiles :
        (key : ℕ) (f : UnlinkedFile) (q : ℕ)
        → OwnsFiles owner mem.next q (mem.proc_at q).ul_files
        → OwnsFiles (write mem.next r owner) (suc mem.next) q ((with_file key f).proc_at q).ul_files
    with_file-OwnsFiles key f q h =
        let o = mem.proc_at r in
        let owner' = write mem.next r owner in
        let grown : ProcObject = record o { ul_files = insert int_less key mem.next o.ul_files } in
        let later : OwnsFiles owner' (suc mem.next) q (mem.proc_at q).ul_files = (
          AllValues-weaken (mem.proc_at q).ul_files
              (λ g b. (
                omega (arith, b.0),
                write_other mem.next g r owner (below-other g mem.next b.0) ∙ b.1,
              ))
              h.0,
          h.1,
        ) in
        elim (Bool-cases (q == r)) [
          | inl e ↦
              let same : q ≡ r = (==_iff q r).0 e in
              let files : ((with_file key f).proc_at q).ul_files
                  ≡ insert int_less key mem.next (mem.proc_at q).ul_files =
                rw (e, same) refl in
              subst (OwnsFiles owner' (suc mem.next) q) (sym files) (
                insert-AllValues (λ g. (g < suc mem.next) × (owner' g ≡ q)) int_less key mem.next
                    (mem.proc_at q).ul_files (omega arith, write_same mem.next r owner ∙ sym same)
                    later.0,
                insert-Distinct int_less key mem.next (mem.proc_at q).ul_files
                    (AllValues-weaken (mem.proc_at q).ul_files (λ g b. below-other g mem.next b.0)
                      h.0)
                    h.1,
              )
          | inr e ↦
              subst (OwnsFiles owner' (suc mem.next) q)
                (sym (
                  ap (λ o. o.ul_files)
                    (write_other r q grown mem.proc_at (λ eq. absurd (ground (arith, e, eq))))))
                later
        ]

    pub with_file-IsOwned :
        (key : ℕ) (f : UnlinkedFile) → IsOwned (write mem.next r owner) (with_file key f) procs
    with_file-IsOwned key f = (
      AllValues-weaken procs (λ q h. (omega (arith, h.0), with_file-OwnsFiles key f q h.1)) owned.0,
      owned.1,
    )

    -- A file of the process is written to.
    abbrev pub with_flags : ℕ → UnlinkedFile → Memory
    with_flags fr f = record mem { file_at = write fr f mem.file_at }

    pub view-with_flags :
        (key fr : ℕ) (f : UnlinkedFile)
        → find int_less key (mem.proc_at r).ul_files ≡ some fr
        → view (with_flags fr f) procs
          ≡ assign int_less k
              (record (seen mem r) { ul_files = assign int_less key f (seen mem r).ul_files })
              (view mem procs)
    view-with_flags key fr f there =
        let files = (mem.proc_at r).ul_files in
        let file_at' = write fr f mem.file_at in
        let mine : owner fr ≡ r =
          (find-AllValues (λ g. (g < mem.next) × (owner g ≡ r)) int_less key files
            (entry owner mem procs owned k r found).1.0 there).1 in
        mapped-assign (seen mem) (seen (with_flags fr f)) int_less k r procs owned.1 found (
          AllValues-weaken procs
            (λ q h other. proc_of-agree mem.file_at file_at' (mem.proc_at q) (
              AllValues-weaken (mem.proc_at q).ul_files
                (λ g b. write_other fr g f mem.file_at (λ eq. other (sym b.1 ∙ ap owner eq ∙ mine)))
                h.1.0))
            owned.0)
        ∙ ap (λ fs. assign int_less k (record (seen mem r) { ul_files = fs }) (view mem procs))
            (mapped-assign mem.file_at file_at' int_less key fr files
                (entry owner mem procs owned k r found).1.1 there
                (AllValues-weaken files (λ g b other. write_other fr g f mem.file_at other)
                  (entry owner mem procs owned k r found).1.0)
              ∙ ap (λ g. assign int_less key g (mapped mem.file_at files))
                  (write_same fr f mem.file_at))
