-- ===== src/Proc/Stat/Missing.antt =====
-- A process of which `readProcStat` of src/ProcReader.cpp finds no executable.
use cphf.Proc.Stat.Values.{IsEnd}
use cphf.Base.{◌≡◌, refl, ap, ◌∙◌, ℕ, false, [], ◌++◌, none, some, ◌⊎◌, inl, inr}
use cphf.Text.{codes, decimal, Text}
use cphf.Env.{Env}
use cphf.Proc.Stat.{ProcInfo, formats, read_exe, after_scan, read_proc_stat, Text}
use cphf.Proc.Stat.Line.{
  Fields, AreFields, stat_line, stored_fields, scan_formats-stat_line, counted_formats,
}

-- The file holds a line of values, and the executable is not found.
abbrev pub IsHidden : Env → ℕ → Type 0
IsHidden env pid =
    (vs : Fields formats) × (rest : Text) × AreFields formats vs
    × IsEnd rest
    × (env.open_file (codes "/proc/" ++ decimal pid ++ codes "/stat") ≡ some (stat_line vs rest))
    × (env.stat (codes "/proc/" ++ decimal pid ++ codes "/exe") ≡ none)

-- The file is not there, and no file has the name that is looked up for the executable then.
abbrev pub IsGone : Env → ℕ → Type 0
IsGone env pid =
    (env.open_file (codes "/proc/" ++ decimal pid ++ codes "/stat") ≡ none)
    × (env.stat (
          codes "ERROR looking up PID "
          ++ decimal pid
          ++ codes "/proc/"
          ++ decimal pid
          ++ codes "/exe")
        ≡ none)

read_proc_stat_hidden :
    (env : Env) (pid : ℕ) (info : ProcInfo)
    → IsHidden env pid
    → (info' : ProcInfo) × (read_proc_stat env pid info ≡ (false, info', []))
unfolding read_proc_stat
read_proc_stat_hidden env pid info (vs, rest, h, end, e, e') = (
  record (stored_fields formats vs info) { pw = none; gr = none },
  rw (read_proc_stat, e)
      (ap (after_scan env pid) (scan_formats-stat_line vs rest info h end)
        ∙ rw (after_scan, counted_formats, read_exe, e') refl),
)

read_proc_stat_gone :
    (env : Env) (pid : ℕ) (info : ProcInfo)
    → IsGone env pid
    → (info' : ProcInfo) × (read_proc_stat env pid info ≡ (false, info', []))
unfolding read_proc_stat
read_proc_stat_gone env pid info (e, e') = (info, rw (read_proc_stat, e, read_exe, e') refl)

-- In both cases no line goes to the standard output and the process is not found.
pub read_proc_stat_missing :
    (env : Env) (pid : ℕ) (info : ProcInfo)
    → IsHidden env pid ⊎ IsGone env pid
    → (info' : ProcInfo) × (read_proc_stat env pid info ≡ (false, info', []))
read_proc_stat_missing env pid info (inl h) = read_proc_stat_hidden env pid info h
read_proc_stat_missing env pid info (inr h) = read_proc_stat_gone env pid info h
