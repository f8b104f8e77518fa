-- ===== src/Printer/Reread.antt =====
-- A report that `printFiles` of src/PrettyPrinter.cpp writes is read back as what it shows.
use cphf.Files.Laws.{OfObject}
use cphf.Base.{
  ℕ, zero, suc, ◌+◌, ◌≤◌, ◌≡◌, ◌≢◌, refl, List, [], ◌∷◌, ◌++◌, Option, none, some, ◌==◌, All,
  All-append, length, length-append, ok, ok-injective, sym, map, >>=-eq-ok, length-replicate,
  take-append, drop-append, append_assoc, ap, ◌∙◌, ◌-◌, false, replicate, arith, take, drop,
}
use cphf.Text.{Text, codes, c_str, pad_right}
use cphf.Text.Lines.{IsLine, lines_of, lines_of-append}
use cphf.Text.Trim.{trim, trim-append}
use cphf.Text.Holds.{c_str_whole, c_str-All}
use cphf.Common.{Attribute, AttributeFlags}
use cphf.Map.{find_hash}
use cphf.Files.{CphfFile, proc_file, unlinked_file, print_attributes}
use cphf.Printer.{proc_line, file_line, print_file, print_files}
use cphf.Printer.Label.{IsLabel}
use cphf.Printer.Read.{
  Shown, Block, process, file, close, pending, columns, read_line, read_lines, read_report,
}
use cphf.Printer.Lines.{print_attributes_cons}

-- What is shown of an attribute.
abbrev label_of : Option Text → Text
label_of none = []
label_of (some label) = label

unfoldable pub shown : AttributeFlags → List Attribute → List Shown
shown flags [] = []
shown flags ((id, value) ∷ l) = (label_of (find_hash id flags), c_str value) ∷ shown flags l

unfoldable pub block_of : AttributeFlags → CphfFile → Block
unfolding shown
block_of flags (proc_file p) = process (shown flags p.attributes)
block_of flags (unlinked_file f) = file (shown flags f.attributes)

-- No value has a newline.
abbrev pub OneLine : List Attribute → Type 0
OneLine = All (λ a. IsLine a.1)

replicate-IsLine : (n c : ℕ) → c ≢ b'\n' → IsLine (replicate n c)
replicate-IsLine zero c h = tt
replicate-IsLine (suc n) c h = (h, replicate-IsLine n c h)

-- A line of this format is read as the label and the value that it was printed from.
abbrev pub IsRead : (Text → Text → Text) → Type 0
IsRead pretty_printer =
    (label value : Text) (open_lines : Option (List Shown)) (blocks : List Block)
    → IsLabel label
    → IsLine value
    → (line : Text) × (pretty_printer label value ≡ line ++ codes "\n")
      × IsLine line
      × (read_line line (open_lines, blocks)
          ≡ (some ((label, c_str value) ∷ pending open_lines), blocks))

columns_padded :
    (width : ℕ) (label value : Text)
    → IsLabel label
    → length label ≤ width
    → columns width (pad_right width label ++ codes "  " ++ value) ≡ (label, value)
unfolding pad_right
columns_padded width label value h fits =
    let pad = label ++ replicate (width - length label) b' ' in
    let whole : length pad ≡ width = omega (
      arith,
      length-append label (replicate (width - length label) b' '),
      length-replicate {A = ℕ} (width - length label) b' ',
    ) in
    let front : trim (take width (pad ++ codes "  " ++ value)) ≡ label =
      ap (λ t. trim (take width t)) (append_assoc pad (codes "  ") value)
      ∙ ap trim (take-append width pad (codes "  " ++ value) whole)
      ∙ trim-append label (width - length label)
      ∙ h.trimmed in
    let back : drop (width + 2) (pad ++ codes "  " ++ value) ≡ value =
      drop-append (width + 2) (pad ++ codes "  ") value
        (omega (arith, whole, length-append pad (codes "  "))) in
    rw (front, back) refl

padded-IsLine :
    (width : ℕ) (label value : Text)
    → IsLabel label
    → IsLine value
    → IsLine (pad_right width label ++ codes "  " ++ c_str value)
unfolding pad_right
padded-IsLine width label value h one_line =
    All-append _ (pad_right width label ++ codes "  ") (c_str value)
      (All-append _ (pad_right width label) (codes "  ")
        (All-append _ label _ h.one_line (replicate-IsLine _ b' ' (omega arith)))
        (omega arith, (omega arith, tt)))
      (c_str-All (λ c. c ≢ b'\n') value one_line)

file_line-IsRead : IsRead file_line
unfolding file_line read_line
file_line-IsRead label value open_lines blocks h one_line =
    let line = pad_right 25 label ++ codes "  " ++ c_str value in
    rw (c_str_whole label h.no_nul) (
      b'\t' ∷ line,
      refl,
      (omega arith, padded-IsLine 25 label value h one_line),
      rw (columns_padded 25 label (c_str value) h (omega (arith, h.short))) refl,
    )

proc_line-IsRead : IsRead proc_line
unfolding proc_line read_line pad_right
proc_line-IsRead [] value open_lines blocks h one_line = absurd (cc (h.starts))
proc_line-IsRead (c ∷ s) value open_lines blocks h one_line =
    let line = pad_right 23 (c ∷ s) ++ codes "  " ++ c_str value in
    let starts : ((c == b'=') ≡ false) × ((c == b'\t') ≡ false) = ground (arith, h.starts) in
    rw (c_str_whole (c ∷ s) h.no_nul) (
      line,
      refl,
      padded-IsLine 23 (c ∷ s) value h one_line,
      rw (starts.0, starts.1, columns_padded 23 (c ∷ s) (c_str value) h h.short) refl,
    )

-- Every label has its place.
abbrev pub AllLabels : AttributeFlags → Type 0
AllLabels flags = (id : ℕ) (label : Text) → find_hash id flags ≡ some label → IsLabel label

read_lines-line :
    (line rest : Text)
    → IsLine line
    → read_lines (lines_of (line ++ b'\n' ∷ rest)) ≡ read_line line (read_lines (lines_of rest))
unfolding read_lines
read_lines-line line rest h = ap read_lines (lines_of-append line rest h)

module _ (flags : AttributeFlags) (labels : AllLabels flags) where
  -- The lines of an object, and the blank line behind them.
  print_attributes-Read :
      (pp : Text → Text → Text) (l : List Attribute) (rest : Text) {text : Text}
      → IsRead pp
      → OneLine l
      → print_attributes flags pp l ≡ ok text
      → read_lines (lines_of (text ++ b'\n' ∷ rest)) ≡ (some (shown flags l), read_report rest)
  unfolding print_attributes shown read_report
  print_attributes-Read pp [] rest reads one_line e =
      ap (λ t. read_lines (lines_of (t ++ b'\n' ∷ rest))) (sym (ok-injective [] _ e))
      ∙ read_lines-line [] rest tt
  print_attributes-Read pp (a ∷ l) rest {text} reads one_line e =
      let (label, more, found, printed, eq) = print_attributes_cons flags pp a l e in
      let ih = print_attributes-Read pp l rest reads one_line.1 printed in
      let (line, is, one, read) =
        reads label a.1 (some (shown flags l)) (read_report rest) (labels a.0 label found)
          one_line.0 in
      let tail = b'\n' ∷ rest in
      ap (λ t. read_lines (lines_of (t ++ tail))) (eq ∙ ap (λ t. t ++ more) is)
      ∙ ap (λ t. read_lines (lines_of t))
          (append_assoc (line ++ codes "\n") more tail
            ∙ append_assoc line (codes "\n") (more ++ tail))
      ∙ read_lines-line line (more ++ tail) one
      ∙ ap (read_line line) ih
      ∙ read
      ∙ rw found refl

  print_file-Read :
      (f : CphfFile) (rest : Text) {text : Text}
      → OfObject OneLine f
      → print_file flags f ≡ ok text
      → read_report (text ++ rest) ≡ block_of flags f ∷ read_report rest
  unfolding print_file block_of read_report read_line
  print_file-Read (proc_file p) rest one_line e =
      let (lines, printed, done) = >>=-eq-ok (print_attributes flags proc_line p.attributes) _ e in
      let rule : Text = replicate 80 b'=' in
      let tail = codes "\n" ++ rest in
      ap (λ t. read_report (t ++ rest)) (sym (ok-injective _ _ done))
      ∙ ap read_report (
          append_assoc (rule ++ codes "\n" ++ lines) (codes "\n") rest
          ∙ append_assoc (rule ++ codes "\n") lines tail
          ∙ append_assoc rule (codes "\n") (lines ++ tail))
      ∙ ap close (
          read_lines-line rule (lines ++ tail) (replicate-IsLine 80 b'=' (omega arith))
          ∙ ap (read_line rule)
              (print_attributes-Read proc_line p.attributes rest proc_line-IsRead one_line printed))
  print_file-Read (unlinked_file f) rest one_line e =
      let (lines, printed, done) = >>=-eq-ok (print_attributes flags file_line f.attributes) _ e in
      ap (λ t. read_report (t ++ rest)) (sym (ok-injective _ _ done))
      ∙ ap read_report (append_assoc lines (codes "\n") rest)
      ∙ ap close
          (print_attributes-Read file_line f.attributes rest file_line-IsRead one_line printed)

  pub print_files-Read :
      (fs : List CphfFile) {text : Text}
      → All (OfObject OneLine) fs
      → print_files flags fs ≡ ok text
      → read_report text ≡ map (block_of flags) fs
  unfolding print_files read_report read_lines lines_of
  print_files-Read [] one_line e = ap read_report (sym (ok-injective [] _ e))
  print_files-Read (f ∷ fs) one_line e =
      let (first, e₁, more) = >>=-eq-ok (print_file flags f) _ e in
      let (rest, e₂, done) = >>=-eq-ok (print_files flags fs) _ more in
      ap read_report (sym (ok-injective _ _ done))
      ∙ print_file-Read f rest one_line.0 e₁
      ∙ ap (λ bs. block_of flags f ∷ bs) (print_files-Read fs one_line.1 e₂)
