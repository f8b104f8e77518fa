-- ===== src/Builder/Reread.antt =====
-- The report on what the readers that `build` of src/ProcFileEntryBuilder.cpp runs have found, read
-- back.
use cphf.Base.{◌≡◌, Bool, List, map, ok, []}
use cphf.Text.{Text}
use cphf.Env.{Env}
use cphf.Env.Lines.{GivesLines}
use cphf.Proc.Stat.{ProcInfo}
use cphf.Proc.OneLine.{NamedRecord}
use cphf.Printer.{print_files}
use cphf.Printer.Read.{read_report}
use cphf.Printer.Reread.{OneLine, block_of, print_files-Read}
use cphf.Builder.{World, DataDigger, initial, build, flatten_map}
use cphf.Builder.Flatten.{flatten_map-OfObject}
use cphf.Builder.Fitting.{build-IsLabel}
use cphf.Builder.OneLine.{build-IsOneLine}

-- The same where lines were printed before the readers ran.
pub print_files-read_after :
    (env : Env) (fresh : ProcInfo) (diggers : List DataDigger) (lines : List Text)
    (procs files : Bool) {w : World} {text : Text}
    → GivesLines env
    → NamedRecord fresh
    → build env fresh diggers (record initial { lines = lines }) ≡ ok w
    → print_files w.flags (flatten_map procs files w.procs) ≡ ok text
    → read_report text ≡ map (block_of w.flags) (flatten_map procs files w.procs)
print_files-read_after env fresh diggers lines procs files {w} gives named e printed =
    print_files-Read w.flags (λ id label. build-IsLabel env fresh diggers lines id label e)
      (flatten_map procs files w.procs)
      (flatten_map-OfObject OneLine procs files w.procs
        (build-IsOneLine env fresh gives named diggers lines e))
      printed

-- Where the system gives the program no text with a newline (no target of a link, argument of a
-- process, time, or name of a user or group), and the new record of a process points to no name with
-- one, the report that is printed after any readers have run from the start says again all that it
-- was printed from: reading it gives the objects in their order, each process as a process and each
-- file as a file, with the labels and the values of all its attributes in theirs, each value up to
-- its first NUL.
pub print_files-read_report :
    (env : Env) (fresh : ProcInfo) (diggers : List DataDigger) (procs files : Bool) {w : World}
    {text : Text}
    → GivesLines env
    → NamedRecord fresh
    → build env fresh diggers initial ≡ ok w
    → print_files w.flags (flatten_map procs files w.procs) ≡ ok text
    → read_report text ≡ map (block_of w.flags) (flatten_map procs files w.procs)
print_files-read_report env fresh diggers procs files gives named e printed =
    print_files-read_after env fresh diggers [] procs files gives named e printed
