-- ===== src/Builder/Paths.antt =====
-- The path under which a file is looked up: `formPath` of src/FileStatReader.cpp and the constructor
-- in src/UnlinkedFile.cpp, at the value that src/ProcFileEntryBuilder.cpp gives `ULF_TXT_FD`.
use cphf.Base.{
  ℕ, ◌+◌, ◌-◌, ◌^◌, ◌<◌, ◌≡◌, refl, ◌⊎◌, inl, inr, ◌++◌, Option, none, some, ltb, arith, true, ◌%◌,
  if◌then◌else◌, Bool-cases,
}
use cphf.Text.{Text, codes, decimal}
use cphf.Files.{new_unlinked_file, file_key}
use cphf.Builder.{init_txt_fd}
use cphf.FileStat.{form_path}

abbrev pub exe_path : ℕ → Text
exe_path pid = codes "/proc/" ++ decimal pid ++ codes "/exe"

abbrev pub fd_path : ℕ → ℕ → Text
fd_path pid fid = codes "/proc/" ++ decimal pid ++ (codes "/fd/" ++ decimal fid)

-- With a limit on open files that leaves room in 32 bits, a number of 32 bits is looked up as the
-- executable where it is above the limit by more than one, as those that stand for the text of a
-- process are, and as the descriptor of that number else, though it is kept under a key of 32 bits.
-- The object's own path is the same.
pub form_path_limited :
    (limit pid fid : ℕ)
    → limit + 1 < 2 ^ 32
    → fid < 2 ^ 32
    → let txt_fd = init_txt_fd (some limit) in
      let path = if ltb (limit + 1) fid then exe_path pid else fd_path pid fid in
      (form_path txt_fd pid (file_key fid) ≡ path)
      × ((new_unlinked_file txt_fd pid fid).path ≡ path)
unfolding form_path file_key init_txt_fd new_unlinked_file
form_path_limited limit pid fid h k =
    let e : fid % 2 ^ 32 ≡ fid = omega arith in
    let w : (limit + 1) % 2 ^ 64 ≡ limit + 1 = omega arith in
    elim (Bool-cases (ltb (limit + 1) fid)) [
      | inl t ↦ rw (e, w, t) (refl, refl)
      | inr t ↦ rw (e, w, t) (refl, refl)
    ]

-- With no limit, or where the limit cannot be read, the sum wraps around to 0, and every descriptor
-- but 0 is looked up as the executable.
pub form_path_unlimited :
    (limit : Option ℕ) (pid fid : ℕ)
    → (limit ≡ none) ⊎ (limit ≡ some (2 ^ 64 - 1))
    → 0 < fid
    → form_path (init_txt_fd limit) pid fid ≡ exe_path pid
unfolding form_path init_txt_fd
form_path_unlimited limit pid fid (inl e) k = let t : ltb 0 fid ≡ true = ground arith in rw (e, t)
form_path_unlimited limit pid fid (inr e) k = let t : ltb 0 fid ≡ true = ground arith in rw (e, t)
