-- ===== src/Proc/OneLine.antt =====
-- The values that `processOpiton` of src/ProcReader.cpp sets have no newline, where what the system
-- gives has none.
use cphf.Proc.Values.{read_time_t}
use cphf.Base.{
  ◌>>=◌, ◌||◌, if◌then◌else◌, ℕ, [], ◌∷◌, ◌++◌, Option, none, some, Option-cases, inl, inr, Ensures,
  Ensures->>=, Ensures-ok, Ensures-if, arith, ◌==◌, Bool, ok,
}
use cphf.Text.{Text, codes, decimal}
use cphf.Text.Lines.{IsLine}
use cphf.Text.OneLine.{IsLine-if, IsLine-append, hexadecimal-IsLine, decimal-IsLine}
use cphf.Common.{Attribute}
use cphf.Common.Id
use cphf.Env.{Env}
use cphf.Env.Lines.{GivesLines, OfOption, IsNamed}
use cphf.Map.{find}
use cphf.Map.All.{AllValues, insert-AllValues, find-AllValues}
use cphf.Reader.OneLine.{format-IsLine, read_time-IsLine, read_etime-IsLine, read_perms-IsLine}
use cphf.Reader.Device.{read_device}
use cphf.Reader.Device.OneLine.{read_device-IsLine}
use cphf.Proc.Opt
use cphf.Proc.Attributes.{Gives}
use cphf.Proc.Stat.{ProcInfo, read_proc_stat, read_exe, after_scan, scan_formats, formats}
use cphf.Proc.{
  ProcReading, ProcStates, process_option, state_label, format_range, command_words, read_cmd,
  cached, entry_of, read_ids, read_start_time, char_less, inst_pointer, decimal, read_time_t,
}

command_words-IsLine : (piece s : Text) → IsLine piece → IsLine s → IsLine (command_words piece s)
unfolding command_words
command_words-IsLine [] [] h k = tt
command_words-IsLine (d ∷ piece) [] h k =
    (h.0, IsLine-append piece (b' ' ∷ []) h.1 (omega arith, tt))
command_words-IsLine piece (c ∷ s) h k =
    IsLine-if (c == 0) _ _ (IsLine-append piece _ h (omega arith, command_words-IsLine [] s tt k.1))
      (command_words-IsLine (piece ++ c ∷ []) s (IsLine-append piece (c ∷ []) h (k.0, tt)) k.1)

format_range-IsLine : (begin end : ℕ) → IsLine (format_range begin end)
unfolding format_range
format_range-IsLine begin end = IsLine-append _ _ (hexadecimal-IsLine begin) (
    IsLine-if (end == inst_pointer) _ _ tt
      (IsLine-append (codes "  -  ") _ (ground arith) (hexadecimal-IsLine end)))

abbrev pub HasLines : ProcStates → Type 0
HasLines = AllValues IsLine

state_label-IsLine :
    (c : ℕ) (states : ProcStates)
    → HasLines states
    → IsLine (state_label c states).0 × HasLines (state_label c states).1
unfolding state_label
state_label-IsLine c states h = elim (Option-cases (find char_less c states)) [
  | inl e ↦ rw (state_label, e) (tt, insert-AllValues IsLine char_less c [] states tt h)
  | inr (label, e) ↦ rw (state_label, e) (find-AllValues IsLine char_less c states h e, h)
]

cached-IsNamed :
    (o found : Option (Text × ℕ)) → IsNamed o → IsNamed found → IsNamed (cached o found)
cached-IsNamed none found h k = k
cached-IsNamed (some entry) found h k = h

-- The names in the record of the process have no newline.
abbrev pub NamedRecord : ProcInfo → Type 0
NamedRecord info = IsNamed info.pw × IsNamed info.gr

abbrev pub NamedReading : ProcReading → Type 0
NamedReading r = NamedRecord r.info × HasLines r.states

abbrev NamedValue : Text × ProcInfo → Type 0
NamedValue x = IsLine x.0 × NamedRecord x.1

abbrev NamedAttribute : Attribute × ProcReading → Type 0
NamedAttribute a = IsLine a.0.1 × NamedReading a.1

-- The entry that is followed, if there is one.
entry_value :
    (o : Option (Text × ℕ)) (as_name : Bool) (info : ProcInfo)
    → IsNamed o
    → NamedRecord info
    → Ensures NamedValue
        (entry_of o >>= λ entry. ok (if as_name then entry.0 else decimal entry.1, info))
entry_value none as_name info h k = tt
entry_value (some entry) as_name info h k = (IsLine-if as_name _ _ h (decimal-IsLine entry.1), k)

read_exe-NamedRecord :
    (env : Env) (path : Text) (info : ProcInfo)
    → NamedRecord info
    → NamedRecord (read_exe env path info).1
unfolding read_exe
read_exe-NamedRecord env path info h = elim (Option-cases (env.stat path)) [
  | inl e ↦ rw (read_exe, e) h
  | inr (st, e) ↦ rw (read_exe, e) h
]

after_scan-NamedRecord :
    (env : Env) (pid : ℕ) (x : ProcInfo × ℕ) → NamedRecord (after_scan env pid x).1
unfolding after_scan
after_scan-NamedRecord env pid (info, count) = read_exe-NamedRecord env _ _ (tt, tt)

read_proc_stat-NamedRecord :
    (env : Env) (pid : ℕ) (info : ProcInfo)
    → NamedRecord info
    → NamedRecord (read_proc_stat env pid info).1
unfolding read_proc_stat
read_proc_stat-NamedRecord env pid info h =
    elim (Option-cases (env.open_file (codes "/proc/" ++ decimal pid ++ codes "/stat"))) [
      | inl e ↦ rw (read_proc_stat, e) (read_exe-NamedRecord env _ info h)
      | inr (s, e) ↦
          rw (read_proc_stat, e) (after_scan-NamedRecord env pid (scan_formats formats s info))
    ]

module _ (env : Env) (gives : GivesLines env) where
  read_cmd-IsLine : (pid : ℕ) → IsLine (read_cmd env pid)
  unfolding read_cmd
  read_cmd-IsLine pid = words (env.open_file _) (gives.arguments pid)
    where
      words :
          (o : Option Text)
          → OfOption IsLine o
          → IsLine (elim o [ none ↦ [] | some s ↦ command_words [] s ])
      words none h = tt
      words (some s) h = command_words-IsLine [] s tt h

  read_ids-NamedRecord :
      (option : ℕ) (info : ProcInfo)
      → NamedRecord info
      → Ensures NamedValue (read_ids env option info)
  unfolding read_ids
  read_ids-NamedRecord option info h =
      let pw = cached-IsNamed info.pw _ h.0 (gives.users info.info.st_uid) in
      let gr = cached-IsNamed info.gr _ h.1 (gives.groups info.info.st_gid) in
      Ensures-if NamedValue (option == Opt.username || option == Opt.uid) _ _
        (entry_value _ _ _ pw (pw, h.1)) (entry_value _ _ _ gr (h.0, gr))

  read_start_time-IsLine : (t : ℕ) (f : Text) → IsLine (read_start_time env t f)
  unfolding read_start_time
  read_start_time-IsLine t f = elim (Option-cases (env.open_file (codes "/proc/uptime"))) [
    | inl e ↦ rw (read_start_time, e) (ground arith)
    | inr (s, e) ↦ elim (Option-cases (read_time_t s)) [
      | inl e' ↦ rw (read_start_time, e, e') (ground arith)
      | inr (n, e') ↦ rw (read_start_time, e, e') (read_time-IsLine env gives _ f)
    ]
  ]

  with_ids-Named :
      (id option : ℕ) (r : ProcReading)
      → NamedReading r
      → Ensures NamedAttribute
          (read_ids env option r.info >>= λ x. ok ((id, x.0), record r { info = x.1 }))
  with_ids-Named id option r j = Ensures->>= NamedAttribute (read_ids env option r.info) _ λ x e.
      let (value, named) = Ensures-ok NamedValue _ (read_ids-NamedRecord option r.info j.0) e in
      (value, (named, j.1))

  process_option-Named :
      (c : ℕ) (r : ProcReading) → NamedReading r → Ensures NamedAttribute (process_option env c r)
  unfolding process_option
  process_option-Named c r j =
      let info = r.info in
      Ensures-if NamedAttribute (c == b'c') _ _ (read_cmd-IsLine info.pid, j)
        (Ensures-if NamedAttribute (c == b'P') _ _ (format-IsLine info.ppid, j)
          (Ensures-if NamedAttribute (c == b'n') _ _ (format-IsLine info.procgid, j)
            (Ensures-if NamedAttribute (c == b'U') _ _ (with_ids-Named Id.loginname c r j) (
              Ensures-if NamedAttribute (c == b'u') _ _ (with_ids-Named Id.uid c r j) (
                Ensures-if NamedAttribute (c == b'G') _ _ (with_ids-Named Id.ugid_name c r j) (
                  Ensures-if NamedAttribute (c == b'g') _ _ (with_ids-Named Id.ugid c r j) (
                    Ensures-if NamedAttribute (c == b'e') _ _
                      (read_start_time-IsLine info.starttime _, j)
                      (Ensures-if NamedAttribute (c == b'q') _ _ (read_etime-IsLine env _, j)
                        (Ensures-if NamedAttribute (c == b's') _ _
                          (let (label, rest) = state_label-IsLine info.state r.states j.1 in
                            (label, (j.0, rest)))
                          (Ensures-if NamedAttribute (c == b'd') _ _
                            (Ensures->>= NamedAttribute (read_device env info.info) _
                              λ v e. (Ensures-ok IsLine _ (read_device-IsLine env info.info) e, j))
                            (Ensures-if NamedAttribute (c == b'v') _ _ (format-IsLine info.vms, j)
                              (Ensures-if NamedAttribute (c == b'r') _ _ (format-IsLine info.rss, j)
                                (Ensures-if NamedAttribute (c == b'T') _ _
                                  (format_range-IsLine _ _, j)
                                  (Ensures-if NamedAttribute (c == b'D') _ _
                                    (format_range-IsLine _ _, j)
                                    (Ensures-if NamedAttribute (c == b'S') _ _
                                      (format_range-IsLine _ _, j)
                                      (Ensures-if NamedAttribute (c == b'i') _ _
                                        (format_range-IsLine _ inst_pointer, j)
                                        (Ensures-if NamedAttribute (c == b'M') _ _
                                          (read_perms-IsLine _, j) tt)))))))))))))))))

  pub gives_lines : Gives env (λ a. IsLine a.1) NamedReading
  gives_lines = record {
    sets = process_option-Named;
    turns = λ pid r j. j;
    scans = λ pid r j. (read_proc_stat-NamedRecord env pid r.info j.0, j.1);
  }
