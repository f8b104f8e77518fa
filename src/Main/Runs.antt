-- ===== src/Main/Runs.antt =====
-- A run of `main` of src/cphf.cpp on a system that answers.
use cphf.Base.{
  ℕ, ◌≡◌, inl, inr, refl, true, false, ◌&&◌, List, [], ◌∷◌, ◌++◌, ok, ◌==◌, length, All, All-append,
  Bool-cases, if◌then◌else◌, arith, Ensures-ok, some,
}
use cphf.Text.{Text, codes}
use cphf.Common.Id
use cphf.Common.Label
use cphf.Lsof
use cphf.Builder.Announced.{build_keeps_label}
use cphf.Map.{find_hash, insert_hash}
use cphf.Env.{Env}
use cphf.Files.Grows.{Grows}
use cphf.Lsof.{lsof_opts_default}
use cphf.Lsof.Load.Fields.{Listing, IsListing}
use cphf.Proc.{proc_opts_default}
use cphf.Proc.Stat.{ProcInfo}
use cphf.FileStat.{filestat_opts_default}
use cphf.Builder.{
  World, DataDigger, build, cphf_reader_lsof, cphf_reader_proc, cphf_reader_filestat,
}
use cphf.Builder.Found.{Lists, loaded, lsof_world, dig_loaded}
use cphf.Builder.Grows.{build-Grows}
use cphf.Main.{Flags, default_flags, read_options, check_options, is_no, diggers}
use cphf.Main.Options.{check_options_iff}
use cphf.Main.Report.{started, Reports, main-Reports}
use cphf.Main.Served.{IsServed, IsReadable, IsReadable-NotLsof, build_served}

-- The flags are okay, and `checkOptions` accepts the options of both readers.
abbrev pub IsAccepted : Flags → Type 0
IsAccepted f =
    (f.flags_okay ≡ true)
    × (check_options proc_opts_default f.proc_ops (codes "proc") ≡ (true, []))
    × (check_options filestat_opts_default f.file_ops (codes "file") ≡ (true, []))

-- The readers behind that of `lsof`.
abbrev pub later_diggers : Flags → List DataDigger
later_diggers f =
    (if is_no f.proc_ops then [] else (cphf_reader_proc, f.proc_ops) ∷ [])
    ++ (if is_no f.file_ops then [] else (cphf_reader_filestat, f.file_ops) ∷ [])

proc_digger-IsReadable :
    (f : Flags)
    → IsAccepted f
    → All IsReadable (if is_no f.proc_ops then [] else (cphf_reader_proc, f.proc_ops) ∷ [])
proc_digger-IsReadable f h = elim (Bool-cases (is_no f.proc_ops)) [
  | inl e ↦ rw e tt
  | inr e ↦
      rw e (inl (refl, (check_options_iff proc_opts_default f.proc_ops (codes "proc") e).0 h.1), tt)
]

file_digger-IsReadable :
    (f : Flags)
    → IsAccepted f
    → All IsReadable (if is_no f.file_ops then [] else (cphf_reader_filestat, f.file_ops) ∷ [])
file_digger-IsReadable f h = elim (Bool-cases (is_no f.file_ops)) [
  | inl e ↦ rw e tt
  | inr e ↦
      rw e (
        inr (refl, (check_options_iff filestat_opts_default f.file_ops (codes "file") e).0 h.2),
        tt,
      )
]

later_diggers-IsReadable : (f : Flags) → IsAccepted f → All IsReadable (later_diggers f)
later_diggers-IsReadable f h =
    All-append IsReadable (if is_no f.proc_ops then [] else (cphf_reader_proc, f.proc_ops) ∷ [])
      (if is_no f.file_ops then [] else (cphf_reader_filestat, f.file_ops) ∷ [])
      (proc_digger-IsReadable f h) (file_digger-IsReadable f h)

diggers_accepted :
    (f : Flags) → IsAccepted f → diggers f ≡ (cphf_reader_lsof, lsof_opts_default) ∷ later_diggers f
unfolding diggers
diggers_accepted f h = rw h.0

several_diggers :
    (f : Flags)
    → IsAccepted f
    → (is_no f.proc_ops && is_no f.file_ops) ≡ false
    → (length (diggers f) == 1) ≡ false
several_diggers f h some_wanted = rw (diggers_accepted f h) (elim (Bool-cases (is_no f.proc_ops)) [
  | inl e ↦ elim (Bool-cases (is_no f.file_ops)) [
    | inl e' ↦ absurd (ground arith)
    | inr e' ↦ rw (e, e') refl
  ]
  | inr e ↦ elim (Bool-cases (is_no f.file_ops)) [
    | inl e' ↦ rw (e, e') refl
    | inr e' ↦ rw (e, e') refl
  ]
])

-- The flags that the options of the command line set.
abbrev pub flags_of : List (ℕ × Text) → Flags
flags_of options = read_options options default_flags

-- The label that the reader of `lsof` output puts in first.
pid_label : find_hash Id.pid (Lsof.create_attrib_map []) ≡ some Label.pid
unfolding find_hash insert_hash Lsof.create_attrib_map
pid_label = refl

module _ (env : Env) (fresh : ProcInfo) (options : List (ℕ × Text)) (l : Listing)
    (served : IsServed env) (accepted : IsAccepted (flags_of options))
    (lists : Lists env lsof_opts_default l) (ints : IsListing l) where
  pub main_runs :
      (is_no (flags_of options).proc_ops && is_no (flags_of options).file_ops) ≡ false
      → (w : World) × Reports env fresh options (flags_of options) w
        × Grows (loaded env l []) w.procs
        × (find_hash Id.pid w.flags ≡ some Label.pid)
        × (build env fresh (diggers (flags_of options)) (started (flags_of options)) ≡ ok w)
  main_runs some_wanted =
      let f = flags_of options in
      let w₀ = started f in
      let readable = later_diggers-IsReadable f accepted in
      let w₁ = lsof_world env fresh lsof_opts_default l w₀ lists ints in
      let (w, e) = build_served env served fresh (later_diggers f) w₁ readable in
      let runs : build env fresh (diggers f) w₀ ≡ ok w =
        rw (diggers_accepted f accepted)
          (unfold build in rw (dig_loaded env fresh lsof_opts_default l w₀ lists ints) e) in
      (
        w,
        main-Reports env fresh options (several_diggers f accepted some_wanted) runs,
        Ensures-ok (λ w₂. Grows (loaded env l []) w₂.procs) (build env fresh (later_diggers f) w₁)
            (build-Grows env fresh (later_diggers f) w₁
              (IsReadable-NotLsof (later_diggers f) readable))
            e,
        Ensures-ok (λ w₂. find_hash Id.pid w₂.flags ≡ some Label.pid)
            (build env fresh (later_diggers f) w₁)
            (build_keeps_label Id.pid Label.pid env fresh (later_diggers f) w₁ pid_label) e,
        runs,
      )
