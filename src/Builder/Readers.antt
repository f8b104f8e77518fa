-- ===== src/Builder/Readers.antt =====
-- The readers that the `switch` in `build` of src/ProcFileEntryBuilder.cpp makes.
use cphf.Base.{ℕ, ◌≡◌, ◌≢◌, refl, ◌⊎◌, inl, inr, false, none, some, ◌==◌, Bool-cases, arith}
use cphf.Env.{Env}
use cphf.Reader.{CphfReader}
use cphf.Proc.{ProcStates}
use cphf.Proc.Stat.{ProcInfo}
use cphf.Builder.{
  new_reader, lsof_reader, proc_reader, filestat_reader, cphf_reader_lsof, cphf_reader_proc,
  cphf_reader_filestat,
}

module _ (Law : CphfReader ProcStates → Type 0) (env : Env) (fresh : ProcInfo) (reader : ℕ) where
  abbrev Obeys : Type 0
  Obeys =
      (new_reader env fresh reader ≡ none)
      ⊎ ((cphfr : CphfReader ProcStates) × (new_reader env fresh reader ≡ some cphfr) × Law cphfr)

  later_readers :
      (reader == cphf_reader_lsof) ≡ false
      → Law (proc_reader env fresh)
      → Law (filestat_reader env)
      → Obeys
  unfolding new_reader
  later_readers e₀ by_proc by_filestat = elim (Bool-cases (reader == cphf_reader_proc)) [
    | inl e₁ ↦ inr (proc_reader env fresh, rw (e₀, e₁) refl, by_proc)
    | inr e₁ ↦ elim (Bool-cases (reader == cphf_reader_filestat)) [
      | inl e₂ ↦ inr (filestat_reader env, rw (e₀, e₁, e₂) refl, by_filestat)
      | inr e₂ ↦ inl (rw (e₀, e₁, e₂) refl)
    ]
  ]

  -- A law of each of the readers holds of the one that is made, if one is.
  pub new_reader-cases :
      Law (lsof_reader env) → Law (proc_reader env fresh) → Law (filestat_reader env) → Obeys
  unfolding new_reader
  new_reader-cases by_lsof by_proc by_filestat = elim (Bool-cases (reader == cphf_reader_lsof)) [
    | inl e₀ ↦ inr (lsof_reader env, rw e₀ refl, by_lsof)
    | inr e₀ ↦ later_readers e₀ by_proc by_filestat
  ]

  -- The same for a reader other than that of `lsof`.
  pub new_reader-other :
      reader ≢ cphf_reader_lsof → Law (proc_reader env fresh) → Law (filestat_reader env) → Obeys
  new_reader-other other by_proc by_filestat = later_readers (ground arith) by_proc by_filestat
