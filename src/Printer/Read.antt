-- ===== src/Printer/Read.antt =====
-- Reading a report back: what the lines that `printFiles` of src/PrettyPrinter.cpp writes say of the
-- processes and files.
use cphf.Base.{ℕ, ◌+◌, List, [], ◌∷◌, Option, none, some, ◌==◌, if◌then◌else◌, take, drop}
use cphf.Text.{Text}
use cphf.Text.Lines.{lines_of}
use cphf.Text.Trim.{trim}

-- A label and a value.
abbrev pub Shown : Type 0
Shown = Text × Text

-- A process or a file, by what is shown of it.
pub data Block : Type 0 where
  process : List Shown → Block
  file : List Shown → Block

-- The lines behind a line: those that an object ends with, if a blank line ends it, and the blocks
-- behind it.
abbrev pub Behind : Type 0
Behind = Option (List Shown) × List Block

-- Lines with no rule before them are those of a file.
abbrev pub close : Behind → List Block
close (none, blocks) = blocks
close (some shown, blocks) = file shown ∷ blocks

abbrev pub pending : Option (List Shown) → List Shown
pending none = []
pending (some shown) = shown

abbrev pub columns : ℕ → Text → Shown
columns width line = (trim (take width line), drop (width + 2) line)

unfoldable pub read_line : Text → Behind → Behind
unfolding trim
read_line [] behind = (some [], close behind)
read_line (c ∷ s) (open_lines, blocks) =
    if c == b'='
    then (none, process (pending open_lines) ∷ blocks)
    else if c == b'\t'
    then (some (columns 25 s ∷ pending open_lines), blocks)
    else (some (columns 23 (c ∷ s) ∷ pending open_lines), blocks)

unfoldable pub read_lines : List Text → Behind
unfolding read_line
read_lines [] = (none, [])
read_lines (l ∷ ls) = read_line l (read_lines ls)

unfoldable pub read_report : Text → List Block
unfolding read_lines lines_of
read_report text = close (read_lines (lines_of text))
