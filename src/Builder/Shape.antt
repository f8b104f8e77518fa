-- ===== src/Builder/Shape.antt =====
-- The set of processes and files, under the readers that src/ProcFileEntryBuilder.cpp runs.
use cphf.Base.{ℕ, ◌≡◌, ◌≢◌, refl, List, [], ◌∷◌, ok}
use cphf.Text.{Text}
use cphf.Map.{keys}
use cphf.Map.Each.{Each-keys}
use cphf.Files.{ProcMap}
use cphf.Files.Grows.{Grows, FileGrows}
use cphf.Env.{Env}
use cphf.Proc.Stat.{ProcInfo}
use cphf.Builder.{World, dig, cphf_reader_lsof}
use cphf.Builder.Grows.{dig-Grows}

-- The ids of the processes, each with the numbers of its files.
unfoldable shape : ProcMap → List (ℕ × List ℕ)
shape [] = []
shape ((k, p) ∷ m) = (k, keys p.ul_files) ∷ shape m

shape-Grows : (m m' : ProcMap) → Grows m m' → shape m' ≡ shape m
unfolding shape
shape-Grows [] [] h = refl
shape-Grows [] (e ∷ m') h = absurd h
shape-Grows (e ∷ m) [] h = absurd h
shape-Grows ((k, p) ∷ m) ((j, q) ∷ m') h =
    rw (h.0, Each-keys FileGrows p.ul_files q.ul_files h.1.2, shape-Grows m m' h.2)

-- Only the reader of `lsof` puts processes and files in. After any other the ids of the processes
-- and the numbers of their files are the same, in the same order.
dig-shape :
    (env : Env) (fresh : ProcInfo) (reader : ℕ) (options : Text) (w : World) {w' : World}
    → reader ≢ cphf_reader_lsof
    → dig env fresh (reader, options) w ≡ ok w'
    → shape w'.procs ≡ shape w.procs
dig-shape env fresh reader options w {w'} other e =
    shape-Grows w.procs w'.procs (dig-Grows env fresh reader options w other e)
