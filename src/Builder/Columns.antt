-- ===== src/Builder/Columns.antt =====
-- The columns of the report: `printFiles` of src/PrettyPrinter.cpp, for the labels that the readers
-- announce.
use cphf.Base.{
  ℕ, ◌+◌, ◌-◌, ◌≤◌, ◌≡◌, refl, ◌∙◌, ap, append_assoc, List, ◌++◌, some, length, drop, take-append,
  drop-append, replicate, length-append, length-replicate, ok, arith, take, [],
}
use cphf.Text.{Text, codes, c_str, pad_right}
use cphf.Text.Holds.{c_str_whole}
use cphf.Map.{find_hash}
use cphf.Env.{Env}
use cphf.Proc.Stat.{ProcInfo}
use cphf.Printer.{proc_line, file_line}
use cphf.Builder.{World, DataDigger, build, initial}
use cphf.Builder.Fitting.{build-IsLabel}
use cphf.Printer.Label.{IsLabel}

-- A line without a tab, for a label that has no NUL.
abbrev line : ℕ → Text → Text → Text
line width label value =
    label ++ replicate (width - length label) b' ' ++ codes "  " ++ value ++ codes "\n"

line-take : (width : ℕ) (label value : Text) → take (length label) (line width label value) ≡ label
line-take width label value =
    let padding = replicate (width - length label) b' ' in
    ap (take (length label)) (
      append_assoc (label ++ padding ++ codes "  ") value (codes "\n")
      ∙ append_assoc (label ++ padding) (codes "  ") (value ++ codes "\n")
      ∙ append_assoc label padding _)
    ∙ take-append (length label) label _ refl

line-drop :
    (width column : ℕ) (label value : Text)
    → length label ≤ width
    → column ≡ width + 2
    → drop column (line width label value) ≡ value ++ codes "\n"
line-drop width column label value h e =
    let padding = replicate (width - length label) b' ' in
    ap (drop column) (append_assoc (label ++ padding ++ codes "  ") value (codes "\n"))
    ∙ drop-append column (label ++ padding ++ codes "  ") (value ++ codes "\n") (
        omega (
          arith,
          length-append (label ++ padding) (codes "  "),
          length-append label padding,
          length-replicate {A = ℕ} (width - length label) b' ',
        ))

-- In a line the label stands whole at the start, and the value behind `column` bytes.
abbrev pub HasColumns : ℕ → Text → Text → Text → Type 0
HasColumns column label value line =
    (take (length label) line ≡ label) × (drop column line ≡ c_str value ++ codes "\n")

proc_line-HasColumns :
    (label value : Text) → IsLabel label → HasColumns 25 label value (proc_line label value)
unfolding proc_line pad_right
proc_line-HasColumns label value h =
    let whole = c_str_whole label h.no_nul in
    rw whole (line-take 23 label (c_str value), line-drop 23 25 label (c_str value) h.short refl)

file_line-HasColumns :
    (label value : Text)
    → IsLabel label
    → HasColumns 27 label value (drop 1 (file_line label value))
unfolding file_line pad_right
file_line-HasColumns label value h =
    let whole = c_str_whole label h.no_nul in
    rw whole (
      line-take 25 label (c_str value),
      line-drop 25 27 label (c_str value) (omega (arith, h.short)) refl,
    )

-- Under a label that any readers leave, the text that is printed for one attribute, of any value,
-- has two columns: the label, whole, at its start, and the value, up to its first NUL and with the
-- newline that is put behind it, behind 25 bytes for a process, and behind 27 for a file, not
-- counting the tab in front.
pub lines-HasColumns :
    (env : Env) (fresh : ProcInfo) (diggers : List DataDigger) (id : ℕ) (label value : Text)
    {w : World}
    → build env fresh diggers initial ≡ ok w
    → find_hash id w.flags ≡ some label
    → HasColumns 25 label value (proc_line label value)
      × HasColumns 27 label value (drop 1 (file_line label value))
lines-HasColumns env fresh diggers id label value {w} e found =
    let h = build-IsLabel env fresh diggers [] id label e found in
    (proc_line-HasColumns label value h, file_line-HasColumns label value h)
