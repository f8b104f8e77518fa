-- ===== src/Proc/Stat/Fails.antt =====
-- A file of a process in which `readProcStat` of src/ProcReader.cpp finds no number.
use cphf.Base.{
  ℕ, ◌≡◌, ◌==◌, refl, ap, ◌∙◌, true, List, [], ◌∷◌, ◌++◌, none, some, Bool-cases, inl, inr, All,
  false, ◌≢◌, arith,
}
use cphf.Base.Int.{pos, to_int}
use cphf.Text.{Text, codes, decimal, skip_space, is_space, is_digit}
use cphf.Env.{Env, Stat}
use cphf.Reader.{print_int}
use cphf.Proc.Stat.{
  ProcInfo, Directive, skip, skip_word, character, int, long, scan_step, scan_number, scan_format,
  scan_formats, formats, read_exe, after_scan, read_proc_stat, scan_magnitude, unsigned_long,
  no_number,
}

skip_space_twice : (s : Text) → skip_space (skip_space s) ≡ skip_space s
unfolding skip_space
skip_space_twice [] = refl
skip_space_twice (c ∷ s) = elim (Bool-cases (is_space c)) [
  | inl e ↦ rw e (skip_space_twice s)
  | inr e ↦ rw (e, skip_space, e) refl
]

-- At the end of the file, or before a character that no number starts with.
abbrev pub HasNoNumber : Text → Type 0
HasNoNumber [] = Unit
HasNoNumber (c ∷ s) = (is_digit c ≡ false) × (c ≢ b'-') × (c ≢ b'+')

-- Nothing is taken of such a text.
scan_number-HasNoNumber : (s : Text) → HasNoNumber s → scan_number s ≡ no_number s
unfolding scan_number scan_magnitude
scan_number-HasNoNumber [] h = refl
scan_number-HasNoNumber (c ∷ s) h =
    let minus : (c == b'-') ≡ false = ground (arith, h) in
    let plus : (c == b'+') ≡ false = ground (arith, h) in
    rw (scan_number, minus, plus, scan_magnitude, h.0)

-- The calls of which the first directive is a number store nothing, and leave the text.
abbrev StartsWithNumber : List Directive → Type 0
StartsWithNumber [] = ⊥
StartsWithNumber (skip ∷ ds) = Unit
StartsWithNumber (unsigned_long set ∷ ds) = Unit
StartsWithNumber (d ∷ ds) = ⊥

scan_format_fails :
    (ds : List Directive) (s : Text) (info : ProcInfo)
    → StartsWithNumber ds
    → HasNoNumber (skip_space s)
    → scan_format ds s info ≡ (info, 0, skip_space s)
unfolding scan_format scan_step
scan_format_fails [] s info h e = absurd h
scan_format_fails (skip ∷ ds) s info h e =
    rw (scan_format, scan_step, scan_number-HasNoNumber (skip_space s) e) refl
scan_format_fails (skip_word ∷ ds) s info h e = absurd h
scan_format_fails (character set ∷ ds) s info h e = absurd h
scan_format_fails (int set ∷ ds) s info h e = absurd h
scan_format_fails (long set ∷ ds) s info h e = absurd h
scan_format_fails (unsigned_long set ∷ ds) s info h e =
    rw (scan_format, scan_step, scan_number-HasNoNumber (skip_space s) e) refl

scan_formats_fails :
    (fs : List (List Directive)) (s : Text) (info : ProcInfo)
    → All StartsWithNumber fs
    → HasNoNumber (skip_space s)
    → scan_formats fs s info ≡ (info, 0)
unfolding scan_formats
scan_formats_fails [] s info h e = refl
scan_formats_fails (f ∷ fs) s info h e =
    rw
      (
        scan_formats,
        scan_format_fails f s info h.0 e,
        scan_formats_fails fs (skip_space s) info h.1 (rw (skip_space_twice s) e),
      )
      refl

-- Where the file of a process is there and, behind white space, is empty or starts with neither a
-- digit nor a sign, an error is printed; but where the executable is found, so is the process, and
-- every number of the record is what it was before, as it was read for another process.
pub read_proc_stat_fails :
    (env : Env) (pid : ℕ) (s : Text) (info : ProcInfo) (st : Stat)
    → env.open_file (codes "/proc/" ++ decimal pid ++ codes "/stat") ≡ some s
    → HasNoNumber (skip_space s)
    → env.stat (codes "/proc/" ++ decimal pid ++ codes "/exe") ≡ some st
    → read_proc_stat env pid info ≡ (
      true,
      record info { info = st; pw = none; gr = none },
      (codes "ERROR: problem reading /proc/" ++ print_int (to_int (pos pid)) ++ codes "/stat\n")
          ∷ [],
    )
unfolding read_proc_stat
read_proc_stat_fails env pid s info st e fails e' =
    rw (read_proc_stat, e)
      (ap (after_scan env pid)
          (scan_formats_fails formats s info (tt, (tt, (tt, (tt, (tt, tt))))) fails)
        ∙ rw (after_scan, read_exe, e') refl)
