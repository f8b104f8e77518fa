-- ===== src/Builder/Steps.antt =====
-- The steps of `build` of src/ProcFileEntryBuilder.cpp: the reader of processes, and that of files as
-- the last one.
use cphf.Base.{
  ℕ, ◌≡◌, refl, ◌∙◌, sym, ap, List, [], ◌∷◌, ◌++◌, ok, ok-injective, >>=-eq-ok, All, Any,
  Any-All_weaken, inl, inr, ◌>>=◌,
}
use cphf.Text.{Text}
use cphf.Env.{Env}
use cphf.FileStat
use cphf.Proc
use cphf.Proc.{ProcStates}
use cphf.FileStat.Shown.{HasEntry}
use cphf.Files.WellFormed.{IsWellFormed, IsOwnFile}
use cphf.Files.{UnlinkedFile, ProcMap}
use cphf.Map.{Map}
use cphf.Proc.Stat.{ProcInfo}
use cphf.Builder.Shown.{HasFile}
use cphf.Builder.{
  World, DataDigger, dig, build, new_reader, run_reader, init_txt_fd, cphf_reader_filestat,
  cphf_reader_proc,
}

pub build_split :
    (env : Env) (fresh : ProcInfo) (first second : List DataDigger) (w : World) {w' : World}
    → build env fresh (first ++ second) w ≡ ok w'
    → (w₁ : World) × (build env fresh first w ≡ ok w₁) × (build env fresh second w₁ ≡ ok w')
unfolding build
build_split env fresh [] second w e = (w, refl, e)
build_split env fresh (d ∷ first) second w e =
    let (w₀, e₀, more) = >>=-eq-ok (dig env fresh d w) _ e in
    let (w₁, e₁, e₂) = build_split env fresh first second w₀ more in
    (w₁, ap (λ m. m >>= build env fresh first) e₀ ∙ e₁, e₂)

pub build_files :
    (env : Env) (fresh : ProcInfo) (options : Text) (w : World) {w' : World}
    → build env fresh ((cphf_reader_filestat, options) ∷ []) w ≡ ok w'
    → (FileStat.read env (init_txt_fd env.file_limit) options w.procs ≡ ok w'.procs)
      × (w'.flags ≡ FileStat.create_attrib_map w.flags)
unfolding build dig new_reader run_reader
build_files env fresh options w {w'} e =
    let (w₁, e₁, done) = >>=-eq-ok (dig env fresh (cphf_reader_filestat, options) w) _ e in
    let (x, e₂, made) = >>=-eq-ok _ _ e₁ in
    let (procs, e₃, packed) =
      >>=-eq-ok (FileStat.read env (init_txt_fd env.file_limit) options w.procs) _ e₂ in
    let same = ok-injective _ _ (made ∙ done) in
    (
      e₃ ∙ ap ok (ap (λ y. y.0) (ok-injective _ _ packed) ∙ ap (λ v. v.procs) same),
      sym (ap (λ v. v.flags) same),
    )

pub dig_procs :
    (env : Env) (fresh : ProcInfo) (options : Text) (w : World) {w' : World}
    → dig env fresh (cphf_reader_proc, options) w ≡ ok w'
    → (x : ProcMap × ProcStates × List Text) × (Proc.read env fresh w.states options w.procs ≡ ok x)
      × (x.0 ≡ w'.procs)
      × (w'.flags ≡ Proc.create_attrib_map w.flags)
unfolding dig new_reader run_reader
dig_procs env fresh options w {w'} e =
    let (x, read, made) = >>=-eq-ok (Proc.read env fresh w.states options w.procs) _ e in
    let same = ok-injective _ _ made in
    (x, read, ap (λ v. v.procs) same, sym (ap (λ v. v.flags) same))

-- The files of which one has a number are those of a process with an id.
own_files :
    (txt_fd k pid n : ℕ) (files : Map ℕ UnlinkedFile)
    → All (IsOwnFile txt_fd k) files
    → Any (λ e. (e.1.pid ≡ pid) × (e.1.fid ≡ n)) files
    → (k ≡ pid) × Any (λ e. e.0 ≡ n) files
own_files txt_fd k pid n [] own h = absurd h
own_files txt_fd k pid n ((j, f) ∷ files) ((fid, key, fids, pids, path), own) (inl h) =
    (sym pids ∙ h.0, inl (sym fids ∙ h.1))
own_files txt_fd k pid n (e ∷ files) own (inr h) =
    let (ids, there) = own_files txt_fd k pid n files own.1 h in (ids, inr there)

-- In a map in order, a file of this number of a process of this id stands under that number.
pub HasFile-HasEntry :
    (txt_fd pid n : ℕ) (m : ProcMap)
    → IsWellFormed txt_fd m
    → Any (λ e. HasFile pid n e.1) m
    → Any (λ e. HasEntry pid n e.1) m
HasFile-HasEntry txt_fd pid n m formed =
    Any-All_weaken m
      (λ (k, p) own has.
        let (ids, there) = own_files txt_fd k pid n p.ul_files own.2 has in (own.1 ∙ ids, there))
      formed.2
