-- ===== src/Files/WellFormed.antt =====
-- The order, the numbers and the paths of the objects of src/ProcFile.cpp and src/UnlinkedFile.cpp in
-- the map of the processes.
use cphf.Base.{ℕ, ◌<◌, ◌^◌, ◌≡◌, ◌++◌, ◌∙◌, All, ltb, if◌then◌else◌}
use cphf.Base.Word.{u32, sign_extend, int_rank}
use cphf.Text.{codes, decimal}
use cphf.Map.Laws.{IsSorted}
use cphf.Map.Entries.{Each-All, Each-IsSorted}
use cphf.Files.{UnlinkedFile, ProcFile, ProcMap}
use cphf.Files.Grows.{FileGrows, ProcGrows, Grows}

module _ (txt_fd : ℕ) where
  -- The file of a process under its number: its path is the executable where the number stands for
  -- the text, and that of the descriptor else.
  abbrev pub IsOwnFile : ℕ → ℕ × UnlinkedFile → Type 0
  IsOwnFile k (key, f) =
      (fid : ℕ) × (key ≡ u32 fid)
      × (f.fid ≡ key)
      × (f.pid ≡ k)
      × (f.path
          ≡ codes "/proc/"
            ++ decimal (sign_extend k)
            ++ (if ltb txt_fd fid then codes "/exe" else codes "/fd/" ++ decimal fid))

  -- The process under its id, with its own files.
  abbrev pub IsOwn : ℕ × ProcFile → Type 0
  IsOwn (k, p) = (k < 2 ^ 32) × (p.pid ≡ k) × All (IsOwnFile k) p.ul_files

  -- The files of the process in the order of their numbers, each number once.
  abbrev pub HasOrder : ℕ × ProcFile → Type 0
  HasOrder (k, p) = IsSorted int_rank p.ul_files

  abbrev pub IsWellFormed : ProcMap → Type 0
  IsWellFormed m = IsSorted int_rank m × All HasOrder m × All IsOwn m

  IsOwnFile-FileGrows :
      (k j : ℕ) (f f' : UnlinkedFile) → FileGrows f f' → IsOwnFile k (j, f) → IsOwnFile k (j, f')
  IsOwnFile-FileGrows k j f f' g (fid, key, fids, pid, path) =
      (fid, key, g.1 ∙ fids, g.2 ∙ pid, g.0 ∙ path)

  IsOwn-ProcGrows : (k : ℕ) (p p' : ProcFile) → ProcGrows p p' → IsOwn (k, p) → IsOwn (k, p')
  IsOwn-ProcGrows k p p' g own = (
    own.0,
    g.0 ∙ own.1,
    Each-All FileGrows (IsOwnFile k) (IsOwnFile k) p.ul_files p'.ul_files (IsOwnFile-FileGrows k)
        g.2 own.2,
  )

  -- Attributes alone change nothing of that.
  pub Grows-IsWellFormed : (m m' : ProcMap) → Grows m m' → IsWellFormed m → IsWellFormed m'
  Grows-IsWellFormed m m' g (sorted, files, own) = (
    Each-IsSorted ProcGrows m m' g sorted,
    Each-All ProcGrows HasOrder HasOrder m m'
        (λ k p p' g' h. Each-IsSorted FileGrows p.ul_files p'.ul_files g'.2 h) g files,
    Each-All ProcGrows IsOwn IsOwn m m' IsOwn-ProcGrows g own,
  )
