-- ===== src/Lsof/Load/Finds.antt =====
-- What is found in the map after a listing was loaded.
use cphf.Map.Update.{find-update_self, find-update}
use cphf.Lsof.Load.Fields.{
  Descriptor, numbered, Listing, IsInt, IsDescriptor, IsListing, load, counter_after, Entry, enter,
  entered,
}
use cphf.Base.{
  ℕ, ◌≡◌, ◌∙◌, sym, List, [], ◌∷◌, some, arith, All, Any, inl, inr, Bool-cases, ◌≢◌, ◌==◌,
}
use mathlib.Core.Path.{subst}
use cphf.Base.Word.{int_rank, int_rank-injective}
use cphf.Map.{find, int_less}
use cphf.Map.Laws.{or_else}
use cphf.Files.{ProcFile, ProcMap, new_proc_file}

-- The process with this id is in the listing with files of which `Q` holds.
abbrev pub ListsWith : (List Descriptor → Type 0) → ℕ → Listing → Type 0
ListsWith Q pid = Any (λ e. (e.0 ≡ pid) × Q e.2)

-- The process with this id is in the listing, and so is the descriptor, under it.
abbrev pub ListsProcess : ℕ → Listing → Type 0
ListsProcess = ListsWith (λ fds. Unit)

abbrev pub ListsFile : ℕ → ℕ → Listing → Type 0
ListsFile n = ListsWith (Any (λ d. d ≡ numbered n))

pub ListsWith-IsInt :
    (Q : List Descriptor → Type 0) (pid : ℕ) (l : Listing)
    → IsListing l
    → ListsWith Q pid l
    → IsInt pid
ListsWith-IsInt Q pid [] ints h = absurd h
ListsWith-IsInt Q pid ((k, g, fds) ∷ l) ints (inl h) = subst IsInt h.0 ints.0
ListsWith-IsInt Q pid ((k, g, fds) ∷ l) ints (inr h) = ListsWith-IsInt Q pid l ints.3 h

module _ (txt_fd pid : ℕ) where
  -- The process of this id, or the new one that an entry of it starts from.
  abbrev pub held : ProcMap → ProcFile
  held procs = or_else (find int_less pid procs) new_proc_file

  find-enter_self :
      (e : Entry) (counter : ℕ) (procs : ProcMap)
      → e.0 ≡ pid
      → find int_less pid (enter txt_fd e counter procs)
        ≡ some (entered txt_fd pid e.2 counter (held procs))
  find-enter_self (k, g, fds) counter procs same =
      subst
        (λ i.
          find int_less pid (enter txt_fd (i, g, fds) counter procs)
          ≡ some (entered txt_fd pid fds counter (held procs)))
        (sym same)
        (find-update_self int_rank pid (entered txt_fd pid fds counter) new_proc_file procs)

  find-enter_other :
      (e : Entry) (counter : ℕ) (procs : ProcMap)
      → IsInt e.0
      → IsInt pid
      → e.0 ≢ pid
      → find int_less pid (enter txt_fd e counter procs) ≡ find int_less pid procs
  find-enter_other (k, g, fds) counter procs int int' differs =
      rw (find-update int_rank pid k (entered txt_fd k fds counter) new_proc_file procs)
        (ground (arith, int_rank-injective k pid))

  -- A property that the lines of this process keep.
  abbrev pub IsKept : (ProcFile → Type 0) → Type 0
  IsKept I =
      (fds : List Descriptor) (counter : ℕ) (p : ProcFile)
      → All IsDescriptor fds
      → I p
      → I (entered txt_fd pid fds counter p)

  load_keeps :
      (I : ProcFile → Type 0) (l : Listing) (counter : ℕ) (procs : ProcMap) (p : ProcFile)
      → IsInt pid
      → IsKept I
      → IsListing l
      → find int_less pid procs ≡ some p
      → I p
      → (p' : ProcFile) × (find int_less pid (load txt_fd l counter procs) ≡ some p') × I p'
  unfolding load
  load_keeps I [] counter procs p int kept ints e h = (p, e, h)
  load_keeps I ((k, g, fds) ∷ l) counter procs p int kept ints e h = elim (Bool-cases (k == pid)) [
    | inl same ↦
        let found = find-enter_self (k, g, fds) counter procs (ground arith) in
        load_keeps I l _ _ (entered txt_fd pid fds counter (held procs)) int kept ints.3 found
          (rw e (kept fds counter p ints.2 h))
    | inr differs ↦
        let other = find-enter_other (k, g, fds) counter procs ints.0 int (ground arith) in
        load_keeps I l _ _ p int kept ints.3 (other ∙ e) h
  ]

  -- What is found of a process that is listed: `I`, which the lines that list it with `Q` give to a
  -- process of which `J` holds.
  pub load_finds :
      (Q : List Descriptor → Type 0) (I J : ProcFile → Type 0) (l : Listing) (counter : ℕ)
      (procs : ProcMap)
      → IsKept I
      → IsKept J
      → ((fds : List Descriptor) (counter' : ℕ) (p : ProcFile)
          → All IsDescriptor fds
          → Q fds
          → J p
          → I (entered txt_fd pid fds counter' p))
      → IsListing l
      → J (held procs)
      → ListsWith Q pid l
      → (p : ProcFile) × (find int_less pid (load txt_fd l counter procs) ≡ some p) × I p
  unfolding load
  load_finds Q I J [] counter procs kept kept' gives ints start h = absurd h
  load_finds Q I J ((k, g, fds) ∷ l) counter procs kept kept' gives ints start (inl h) =
      load_keeps I l _ _ (entered txt_fd pid fds counter (held procs)) (subst IsInt h.0 ints.0) kept
        ints.3 (find-enter_self (k, g, fds) counter procs h.0)
        (gives fds counter (held procs) ints.2 h.1 start)
  load_finds Q I J ((k, g, fds) ∷ l) counter procs kept kept' gives ints start (inr h) =
      let later = load_finds Q I J l (counter_after fds counter) _ kept kept' gives ints.3 in
      let int = ListsWith-IsInt Q pid l ints.3 h in
      elim (Bool-cases (k == pid)) [
        | inl same ↦
            later
              (rw (find-enter_self (k, g, fds) counter procs (ground arith))
                (kept' fds counter (held procs) ints.2 start))
              h
        | inr differs ↦
            later (rw (find-enter_other (k, g, fds) counter procs ints.0 int (ground arith)) start)
              h
      ]
