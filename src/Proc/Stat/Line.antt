-- ===== src/Proc/Stat/Line.antt =====
-- The line of /proc/<pid>/stat and the five calls of `fscanf` in `readProcStat` of
-- src/ProcReader.cpp.
use cphf.Base.{ℕ, ◌+◌, ◌≡◌, refl, ap, ◌∙◌, Bool, true, List, [], ◌∷◌, ◌++◌, none, some, drop, sym}
use cphf.Text.Space.{skip_space_skips}
use cphf.Text.{Text, codes, decimal, skip_space}
use cphf.Env.{Env, Stat}
use cphf.Proc.Stat.{
  ProcInfo, Directive, scan_format, scan_formats, formats, format_1, read_exe, read_proc_stat,
  after_scan, skip, signed_pattern,
}
use cphf.Proc.Stat.Values.{
  Value, print_value, IsValue, stored, counted, IsEnd, scan_step-print_value,
  skip_space-print_value,
}

-- A value for each directive of a call, and for each call.
abbrev pub Values : List Directive → Type 0
Values [] = Unit
Values (d ∷ ds) = Value d × Values ds

abbrev pub Fields : List (List Directive) → Type 0
Fields [] = Unit
Fields (f ∷ fs) = Values f × Fields fs

abbrev pub AreValues : (ds : List Directive) → Values ds → Type 0
AreValues [] vs = Unit
AreValues (d ∷ ds) (v, vs) = IsValue d v × AreValues ds vs

abbrev pub AreFields : (fs : List (List Directive)) → Fields fs → Type 0
AreFields [] vs = Unit
AreFields (f ∷ fs) (v, vs) = AreValues f v × AreFields fs vs

-- The values as the system writes them, a space before each, and what follows them.
unfoldable pub print_values : (ds : List Directive) → Values ds → Text → Text
print_values [] vs rest = rest
print_values (d ∷ ds) (v, vs) rest = b' ' ∷ (print_value d v ++ print_values ds vs rest)

unfoldable pub print_fields : (fs : List (List Directive)) → Fields fs → Text → Text
print_fields [] vs rest = rest
print_fields (f ∷ fs) (v, vs) rest = print_values f v (print_fields fs vs rest)

unfoldable pub stored_values : (ds : List Directive) → Values ds → ProcInfo → ProcInfo
stored_values [] vs info = info
stored_values (d ∷ ds) (v, vs) info = stored_values ds vs (stored d v info)

unfoldable pub stored_fields : (fs : List (List Directive)) → Fields fs → ProcInfo → ProcInfo
stored_fields [] vs info = info
stored_fields (f ∷ fs) (v, vs) info = stored_fields fs vs (stored_values f v info)

unfoldable pub counted_values : List Directive → ℕ
counted_values [] = 0
counted_values (d ∷ ds) = counted d + counted_values ds

unfoldable pub counted_fields : List (List Directive) → ℕ
counted_fields [] = 0
counted_fields (f ∷ fs) = counted_values f + counted_fields fs

values-IsEnd :
    (ds : List Directive) (vs : Values ds) (rest : Text)
    → IsEnd rest
    → IsEnd (print_values ds vs rest)
unfolding print_values
values-IsEnd [] vs rest h = h
values-IsEnd (d ∷ ds) vs rest h = refl

fields-IsEnd :
    (fs : List (List Directive)) (vs : Fields fs) (rest : Text)
    → IsEnd rest
    → IsEnd (print_fields fs vs rest)
unfolding print_fields
fields-IsEnd [] vs rest end = end
fields-IsEnd (f ∷ fs) (v, vs) rest end =
    values-IsEnd f v (print_fields fs vs rest) (fields-IsEnd fs vs rest end)

scan_format-print_values :
    (ds : List Directive) (vs : Values ds) (rest : Text) (info : ProcInfo)
    → AreValues ds vs
    → IsEnd rest
    → scan_format ds (print_values ds vs rest) info
      ≡ (stored_values ds vs info, counted_values ds, rest)
unfolding scan_format print_values stored_values counted_values
scan_format-print_values [] vs rest info h end = refl
scan_format-print_values (d ∷ ds) (v, vs) rest info h end =
    let more = print_values ds vs rest in
    let started : skip_space (b' ' ∷ (print_value d v ++ more)) ≡ print_value d v ++ more =
      skip_space_skips b' ' (print_value d v ++ more) refl ∙ skip_space-print_value d v more h.0 in
    rw (
      scan_format,
      started,
      scan_step-print_value d v more info h.0 (values-IsEnd ds vs rest end),
      scan_format-print_values ds vs rest (stored d v info) h.1 end,
    )

scan_formats-print_fields :
    (fs : List (List Directive)) (vs : Fields fs) (rest : Text) (info : ProcInfo)
    → AreFields fs vs
    → IsEnd rest
    → scan_formats fs (print_fields fs vs rest) info ≡ (stored_fields fs vs info, counted_fields fs)
unfolding scan_formats print_fields stored_fields counted_fields
scan_formats-print_fields [] vs rest info h end = refl
scan_formats-print_fields (f ∷ fs) (v, vs) rest info h end = rw (
  scan_formats,
  scan_format-print_values f v (print_fields fs vs rest) info h.0 (fields-IsEnd fs vs rest end),
  scan_formats-print_fields fs vs rest (stored_values f v info) h.1 end,
)

-- The whole line, with no space at its start: the fields that are scanned, and the rest of it.
unfoldable pub stat_line : Fields formats → Text → Text
unfolding print_fields print_values
stat_line vs rest = drop 1 (print_fields formats vs rest)

scan_format-space :
    (d : Directive) (ds : List Directive) (s : Text) (info : ProcInfo)
    → scan_format (d ∷ ds) (b' ' ∷ s) info ≡ scan_format (d ∷ ds) s info
unfolding scan_format
scan_format-space d ds s info = rw (scan_format, skip_space_skips b' ' s refl)

scan_formats-space :
    (d : Directive) (ds : List Directive) (fs : List (List Directive)) (s : Text) (info : ProcInfo)
    → scan_formats ((d ∷ ds) ∷ fs) (b' ' ∷ s) info ≡ scan_formats ((d ∷ ds) ∷ fs) s info
unfolding scan_formats
scan_formats-space d ds fs s info = rw (scan_formats, scan_format-space d ds s info)

pub scan_formats-stat_line :
    (vs : Fields formats) (rest : Text) (info : ProcInfo)
    → AreFields formats vs
    → IsEnd rest
    → scan_formats formats (stat_line vs rest) info
      ≡ (stored_fields formats vs info, counted_fields formats)
unfolding stat_line
scan_formats-stat_line vs rest info h end =
    sym (scan_formats-space skip (drop 1 format_1) (drop 1 formats) (stat_line vs rest) info)
    ∙ scan_formats-print_fields formats vs rest info h end

pub counted_formats : counted_fields formats ≡ 18
unfolding counted_fields counted_values counted
counted_formats = refl

abbrev pattern_of : ℕ → Bool × ℕ → ℕ
pattern_of bits (negative, n) = signed_pattern bits negative n

-- The record by the places of the values in the line: the state is the third, and so on.
unfoldable pub parsed : Fields formats → ProcInfo → Stat → ProcInfo
parsed (c₁, (c₂, (c₃, (c₄, (c₅, end))))) info st = record info {
  state = c₁.1.1.0;
  ppid = pattern_of 32 c₁.1.1.1.0;
  procgid = pattern_of 32 c₁.1.1.1.1.0;
  device = pattern_of 32 c₁.1.1.1.1.1.1.0;
  putime = pattern_of 64 c₂.1.1.1.0;
  pstime = pattern_of 64 c₂.1.1.1.1.0;
  pcutime = pattern_of 64 c₂.1.1.1.1.1.0;
  pcstime = pattern_of 64 c₂.1.1.1.1.1.1.0;
  starttime = pattern_of 64 c₃.1.0;
  vms = pattern_of 64 c₃.1.1.0;
  rss = pattern_of 64 c₃.1.1.1.0;
  textbegin = pattern_of 64 c₃.1.1.1.1.1.0;
  textend = pattern_of 64 c₄.0;
  stackbegin = pattern_of 64 c₄.1.0;
  esp = pattern_of 64 c₄.1.1.0;
  epi = pattern_of 64 c₄.1.1.1.0;
  databegin = pattern_of 64 c₅.1.1.1.1.1.1.1.1.1.1.1.1.1.1.1.0;
  dataend = pattern_of 64 c₅.1.1.1.1.1.1.1.1.1.1.1.1.1.1.1.1.0;
  info = st;
  pw = none;
  gr = none;
}

stored-parsed :
    (vs : Fields formats) (info : ProcInfo) (st : Stat)
    → record (stored_fields formats vs info) { info = st; pw = none; gr = none } ≡ parsed vs info st
unfolding stored_fields stored_values stored parsed
stored-parsed vs info st = refl

-- Where the file of a process starts with the 47 fields that are scanned, numbers that fit their
-- types (int, long or unsigned long), a name without white space and a state, whatever fields
-- follow, and the executable is found, every member of the record has the value at its place, no
-- error is printed, and the entries of the user and group are reset.
pub read_proc_stat-line :
    (env : Env) (pid : ℕ) (vs : Fields formats) (rest : Text) (info : ProcInfo) (st : Stat)
    → AreFields formats vs
    → IsEnd rest
    → env.open_file (codes "/proc/" ++ decimal pid ++ codes "/stat") ≡ some (stat_line vs rest)
    → env.stat (codes "/proc/" ++ decimal pid ++ codes "/exe") ≡ some st
    → read_proc_stat env pid info ≡ (true, parsed vs info st, [])
unfolding read_proc_stat
read_proc_stat-line env pid vs rest info st h end e e' =
    rw (read_proc_stat, e)
      (ap (after_scan env pid) (scan_formats-stat_line vs rest info h end)
        ∙ rw (after_scan, counted_formats, read_exe, e')
            (ap (λ (x : ProcInfo). (true, x, [])) (stored-parsed vs info st)))
