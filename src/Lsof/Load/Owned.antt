-- ===== src/Lsof/Load/Owned.antt =====
-- The files of a process of a listing, each under its own number.

use cphf.Lsof.Load.Fields.{Descriptor, txt, numbered, other, IsInt, IsDescriptor, load_files}
use cphf.Base.{ℕ, ◌^◌, ◌<◌, ◌≡◌, refl, ◌∙◌, sym, List, [], ◌∷◌, some, arith, All, Any, inl, inr}
use mathlib.Core.Path.{subst}
use cphf.Base.Word.{u32, int_rank, int_rank-injective, u32-int}
use cphf.Map.{Map, insert, find, int_less}
use cphf.Map.Laws.{insert_keeps, insert_origin, insert_finds, or_else}
use cphf.Files.{UnlinkedFile, new_unlinked_file}

-- Every file is under its own number, and is one of the process.
abbrev pub FilesOf : ℕ → Map ℕ UnlinkedFile → Type 0
FilesOf pid m =
    (k : ℕ) (f : UnlinkedFile)
    → k < 2 ^ 32
    → find int_less k m ≡ some f
    → (f.pid ≡ u32 pid) × (f.fid ≡ k)

insert-FilesOf :
    (txt_fd pid key fid : ℕ) (m : Map ℕ UnlinkedFile)
    → key ≡ u32 fid
    → FilesOf pid m
    → FilesOf pid (insert int_less key (new_unlinked_file txt_fd pid fid) m)
unfolding new_unlinked_file
insert-FilesOf txt_fd pid key fid m same h k f bound e =
    elim (insert_origin int_rank k key (new_unlinked_file txt_fd pid fid) f m e) [
      | inl old ↦ h k f bound old
      | inr (ranks, new) ↦
          let keys : k ≡ key = int_rank-injective k key bound (omega arith) ranks in
          rw new (refl, sym (keys ∙ same))
    ]

pub load_files-FilesOf :
    (txt_fd pid : ℕ) (fds : List Descriptor) (counter : ℕ) (m : Map ℕ UnlinkedFile)
    → All IsDescriptor fds
    → FilesOf pid m
    → FilesOf pid (load_files txt_fd pid fds counter m)
unfolding load_files
load_files-FilesOf txt_fd pid [] counter m ds h = h
load_files-FilesOf txt_fd pid (txt ∷ fds) counter m ds h =
    load_files-FilesOf txt_fd pid fds _ _ ds.1
      (insert-FilesOf txt_fd pid (u32 counter) counter m refl h)
load_files-FilesOf txt_fd pid (numbered n ∷ fds) counter m ds h =
    load_files-FilesOf txt_fd pid fds _ _ ds.1
      (insert-FilesOf txt_fd pid n n m (sym (u32-int n ds.0)) h)
load_files-FilesOf txt_fd pid (other name ∷ fds) counter m ds h =
    load_files-FilesOf txt_fd pid fds _ _ ds.1 (insert-FilesOf txt_fd pid 0 0 m refl h)

load_files_keeps :
    (txt_fd pid : ℕ) (fds : List Descriptor) (counter k : ℕ) (f : UnlinkedFile)
    (m : Map ℕ UnlinkedFile)
    → find int_less k m ≡ some f
    → find int_less k (load_files txt_fd pid fds counter m) ≡ some f
unfolding load_files
load_files_keeps txt_fd pid [] counter k f m e = e
load_files_keeps txt_fd pid (txt ∷ fds) counter k f m e =
    load_files_keeps txt_fd pid fds _ k f _ (insert_keeps int_rank k (u32 counter) _ f m e)
load_files_keeps txt_fd pid (numbered n ∷ fds) counter k f m e =
    load_files_keeps txt_fd pid fds _ k f _ (insert_keeps int_rank k n _ f m e)
load_files_keeps txt_fd pid (other name ∷ fds) counter k f m e =
    load_files_keeps txt_fd pid fds _ k f _ (insert_keeps int_rank k 0 _ f m e)

-- A number that is listed is that of some file.
load_files_finds :
    (txt_fd pid : ℕ) (fds : List Descriptor) (counter n : ℕ) (m : Map ℕ UnlinkedFile)
    → Any (λ d. d ≡ numbered n) fds
    → (f : UnlinkedFile) × (find int_less n (load_files txt_fd pid fds counter m) ≡ some f)
unfolding load_files
load_files_finds txt_fd pid [] counter n m h = absurd h
load_files_finds txt_fd pid (txt ∷ fds) counter n m (inl e) = absurd (cc)
load_files_finds txt_fd pid (txt ∷ fds) counter n m (inr h) =
    load_files_finds txt_fd pid fds _ n _ h
load_files_finds txt_fd pid (numbered k ∷ fds) counter n m (inl e) =
    let f = new_unlinked_file txt_fd pid k in
    let g = or_else (find int_less k m) f in
    let same : k ≡ n = cc in
    (
      g,
      subst
          (λ i.
            find int_less i (load_files txt_fd pid fds counter (insert int_less k f m)) ≡ some g)
          same (load_files_keeps txt_fd pid fds counter k g _ (insert_finds int_rank k f m)),
    )
load_files_finds txt_fd pid (numbered k ∷ fds) counter n m (inr h) =
    load_files_finds txt_fd pid fds _ n _ h
load_files_finds txt_fd pid (other name ∷ fds) counter n m (inl e) = absurd (cc)
load_files_finds txt_fd pid (other name ∷ fds) counter n m (inr h) =
    load_files_finds txt_fd pid fds _ n _ h

listed-IsInt :
    (n : ℕ) (fds : List Descriptor) → All IsDescriptor fds → Any (λ d. d ≡ numbered n) fds → IsInt n
listed-IsInt n [] ds h = absurd h
listed-IsInt n (d ∷ fds) ds (inl e) = subst IsDescriptor e ds.0
listed-IsInt n (d ∷ fds) ds (inr h) = listed-IsInt n fds ds.1 h

-- The files are of the process, and one of them has this number.
abbrev pub OwnsFile : ℕ → ℕ → Map ℕ UnlinkedFile → Type 0
OwnsFile pid n m =
    FilesOf pid m × (n < 2 ^ 31) × ((f : UnlinkedFile) × (find int_less n m ≡ some f))

pub load_files-OwnsFile :
    (txt_fd pid n : ℕ) (fds : List Descriptor) (counter : ℕ) (m : Map ℕ UnlinkedFile)
    → All IsDescriptor fds
    → Any (λ d. d ≡ numbered n) fds
    → FilesOf pid m
    → OwnsFile pid n (load_files txt_fd pid fds counter m)
load_files-OwnsFile txt_fd pid n fds counter m ds listed own = (
  load_files-FilesOf txt_fd pid fds counter m ds own,
  listed-IsInt n fds ds listed,
  load_files_finds txt_fd pid fds counter n m listed,
)

pub load_files_keeps-OwnsFile :
    (txt_fd pid n : ℕ) (fds : List Descriptor) (counter : ℕ) (m : Map ℕ UnlinkedFile)
    → All IsDescriptor fds
    → OwnsFile pid n m
    → OwnsFile pid n (load_files txt_fd pid fds counter m)
load_files_keeps-OwnsFile txt_fd pid n fds counter m ds (own, bound, (f, e)) = (
  load_files-FilesOf txt_fd pid fds counter m ds own,
  bound,
  (f, load_files_keeps txt_fd pid fds counter n f m e),
)

-- What is found of that file.
pub OwnsFile-says :
    (pid n : ℕ) (m : Map ℕ UnlinkedFile)
    → IsInt pid
    → OwnsFile pid n m
    → (f : UnlinkedFile) × (find int_less n m ≡ some f) × (f.pid ≡ pid) × (f.fid ≡ n)
OwnsFile-says pid n m int (own, bound, (f, e)) =
    let (e₁, e₂) = own n f (omega arith) e in (f, e, e₁ ∙ u32-int pid int, e₂)
