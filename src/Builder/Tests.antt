-- ===== src/Builder/Tests.antt =====
-- Runs of the readers one after the other.
use cphf.Common.{Attribute}
use cphf.Printer.Reread.{block_of}
use cphf.Printer.Read.{read_report}
use cphf.Builder.Reread.{print_files-read_report}
use cphf.Env.Sample.{sample_env-GivesLines}
use cphf.Builder.Columns.{HasColumns, lines-HasColumns}
use cphf.Common.Id
use cphf.Common.Label
use cphf.Lsof
use cphf.FileStat
use cphf.Builder.Sample.{
  found_world, filled_world, sample_diggers, build_sample, small_listing, small_listing-Lists,
  small_listing-IsListing, again_world, build_again,
}
use cphf.Base.{List, map, [], ◌∷◌, ◌≡◌, refl, true, none, ok, arith, inl, [], drop, some}
use cphf.Text.{Text, codes, c_str, pad_right}
use cphf.Env.Sample.{sample_env, sample_info}
use cphf.Files.{new_unlinked_file, file_key, print_attributes, CphfFile, unlinked_file}
use cphf.FileStat.{form_path}
use cphf.Printer.{print_files, proc_line, file_line}
use cphf.Builder.{
  initial, flatten_map, init_txt_fd, cphf_reader_filestat, cphf_reader_lsof, CphfFile,
}
use cphf.Builder.Labels.{print_files-build}
use cphf.Builder.Paths.{form_path_limited, form_path_unlimited, exe_path}
use cphf.Files.Grows.{Grows}
use cphf.Files.Keeps.{Keeps}
use cphf.Files.WellFormed.{IsWellFormed}
use cphf.Builder.WellFormed.{build-IsWellFormed}
use cphf.Builder.Keeps.{build-Keeps}
use cphf.Lsof.{lsof_opts_default}
use cphf.Map.{find_hash, insert_hash}
use cphf.Builder.Found.{loaded, build-Grows-loaded}
use cphf.Builder.Flatten.{entries, flatten_map-entries}

print_files-build_example :
    (text : Text) × (print_files filled_world.flags (flatten_map true true filled_world.procs)
      ≡ ok text)
print_files-build_example =
    print_files-build sample_env sample_info sample_diggers true true build_sample

flatten_map-entries_example :
    flatten_map true true filled_world.procs ≡ entries true true filled_world.procs
flatten_map-entries_example = flatten_map-entries true true filled_world.procs

form_path_limited_example :
    (form_path 1025 7 (file_key 1028) ≡ exe_path 7)
    × ((new_unlinked_file 1025 7 1028).path ≡ exe_path 7)
unfolding init_txt_fd
form_path_limited_example = form_path_limited 1024 7 1028 (omega arith) (omega arith)

form_path_unlimited_example : form_path (init_txt_fd none) 7 3 ≡ exe_path 7
form_path_unlimited_example = form_path_unlimited none 7 3 (inl refl) (omega arith)

build-Grows-loaded_example : Grows (loaded sample_env small_listing []) filled_world.procs
build-Grows-loaded_example =
    build-Grows-loaded sample_env sample_info lsof_opts_default small_listing initial
      small_listing-Lists small_listing-IsListing ((cphf_reader_filestat, codes "pi") ∷ [])
      (ground arith, tt) build_sample

pid_label : find_hash Id.pid filled_world.flags ≡ some Label.pid
unfolding find_hash insert_hash Lsof.create_attrib_map FileStat.create_attrib_map
pid_label = refl

lines-HasColumns_example :
    HasColumns 25 Label.pid (codes "7") (proc_line Label.pid (codes "7"))
    × HasColumns 27 Label.pid (codes "7") (drop 1 (file_line Label.pid (codes "7")))
lines-HasColumns_example =
    lines-HasColumns sample_env sample_info sample_diggers Id.pid Label.pid (codes "7") build_sample
      pid_label

build-IsWellFormed_example : IsWellFormed (init_txt_fd sample_env.file_limit) filled_world.procs
build-IsWellFormed_example = build-IsWellFormed sample_env sample_info sample_diggers build_sample

build-Keeps_example : Keeps found_world.procs again_world.procs
build-Keeps_example =
    build-Keeps sample_env sample_info ((cphf_reader_lsof, codes "pfg") ∷ []) found_world
      build_again

sample_report :
    (text : Text) × (print_files filled_world.flags (flatten_map true true filled_world.procs)
      ≡ ok text)
sample_report = print_files-build sample_env sample_info sample_diggers true true build_sample

print_files-read_report_example :
    read_report sample_report.0
    ≡ map (block_of filled_world.flags) (flatten_map true true filled_world.procs)
print_files-read_report_example =
    print_files-read_report sample_env sample_info sample_diggers true true sample_env-GivesLines
      (tt, tt) build_sample sample_report.1

-- A newline in the name of a file forges a line of the report: here the inode.
named : List Attribute → CphfFile
named attributes = unlinked_file (record { path = []; fid = 3; pid = 7; attributes = attributes })

forged :
    print_files filled_world.flags
      (named ((Id.filename, codes "a\n\tInode                      77") ∷ []) ∷ [])
    ≡ print_files filled_world.flags
        (named ((Id.filename, codes "a") ∷ (Id.inode, codes "77") ∷ []) ∷ [])
unfolding named print_files print_attributes file_line c_str pad_right find_hash insert_hash
    Lsof.create_attrib_map FileStat.create_attrib_map Label.filename Label.inode
forged = refl
