-- ===== src/Printer.antt =====
-- src/PrettyPrinter.{h,cpp}: the report.
pub mod Lines
pub mod Label
pub mod Read
pub mod Reread
use cphf.Base.{List, [], ◌∷◌, ◌++◌, replicate, Run, ok, ◌>>=◌}
use cphf.Text.{Text, codes, c_str, pad_right}
use cphf.Common.{AttributeFlags}
use cphf.Files.{
  CphfFile, proc_file, unlinked_file, print_proc_attributes, print_unlinked_attributes,
}

-- The closures given to `printAttributes`: "%-23s  %s\n" and "\t%-25s  %s\n".
unfoldable pub proc_line : Text → Text → Text
unfolding c_str pad_right
proc_line label value = pad_right 23 (c_str label) ++ codes "  " ++ c_str value ++ codes "\n"

unfoldable pub file_line : Text → Text → Text
unfolding c_str pad_right
file_line label value =
    codes "\t" ++ pad_right 25 (c_str label) ++ codes "  " ++ c_str value ++ codes "\n"

unfoldable pub print_file : AttributeFlags → CphfFile → Run Text
unfolding proc_line file_line
print_file flags (proc_file p) = do
  lines ← print_proc_attributes flags proc_line p
  ok (replicate 80 b'=' ++ codes "\n" ++ lines ++ codes "\n")
print_file flags (unlinked_file f) = do
  lines ← print_unlinked_attributes flags file_line f
  ok (lines ++ codes "\n")

-- `printFiles`
unfoldable pub print_files : AttributeFlags → List CphfFile → Run Text
unfolding print_file
print_files flags [] = ok []
print_files flags (f ∷ fs) = do
  text ← print_file flags f
  rest ← print_files flags fs
  ok (text ++ rest)
