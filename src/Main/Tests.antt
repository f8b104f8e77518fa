-- ===== src/Main/Tests.antt =====
-- Runs of the command line.
use cphf.Printer.{proc_line}
use cphf.Builder.Sample.{small_listing, small_listing-Lists, small_listing-IsListing}
use cphf.Common.Label
use cphf.Main.Runs.{IsAccepted, flags_of}
use cphf.Main.Live.{main-PrintsProcess, PrintsLine}
use cphf.Main.Attributed.{main-PrintsAttribute}
use cphf.FileStat.Link.{read_file_name-target}
use cphf.FileStat.Opt as FileOpt
use cphf.Proc.Opt as ProcOpt
use cphf.Proc.Alone.{IsKnown}
use cphf.Proc.Stat.Line.{stat_line, parsed}
use cphf.Proc.Sample.{sample_values, sample_values-AreFields, sample_rest}
use cphf.Builder.Found.{Lists}
use cphf.Builder.Agreed.{proc_label}
use cphf.Main.Described.{main-DescribesProcess}
use cphf.Lsof.{lsof_opts_default}
use cphf.Env.{Env}
use cphf.Base.{some, none, if◌then◌else◌}
use cphf.Reader.{format}
use cphf.FileStat.{form_path}
use cphf.Common.Id
use cphf.Printer.{file_line}
use cphf.Builder.Agreed.{file_label}
use cphf.Builder.{init_txt_fd}
use cphf.Text.{c_str}
use cphf.Map.{insert_hash}
use cphf.Main.Served.{IsServed}
use cphf.Base.{◌≡◌, refl, true, [], ◌∷◌, ◌++◌, ok, ◌↔◌, All, inl, inr, arith}
use cphf.Text.{codes, same, holds, decimal}
use cphf.Main.Reread.{Rereads, main-read_report}
use cphf.Env.Sample.{sample_env-GivesLines, sample_env, sample_info, sample_stat, sample_target}
use cphf.FileStat
use cphf.FileStat.{FileInfo, filestat_opts_default}
use cphf.Proc
use cphf.Proc.{ProcReading, proc_opts_default, procstate}
use cphf.Main.{check_flags, check_options, default_flags, read_options, read_option, main}
use cphf.Main.Options.{main_nothing, check_options_iff, read_options_last}
use cphf.Main.Accepted.{check_options-file_collect, check_options-proc_collect}
use cphf.Main.Accepted.Handled.{IsHandled}

abbrev sample_file : FileInfo
sample_file = record { path = codes "/proc/7/fd/3"; stat = sample_stat }

abbrev sample_reading : ProcReading
sample_reading = record { info = sample_info; states = procstate }

check_options-file_collect_example :
    IsHandled (FileStat.collect sample_env (codes "nd") sample_file [])
unfolding check_options same
check_options-file_collect_example =
    check_options-file_collect sample_env (codes "nd") (codes "file") sample_file refl refl

check_options-proc_collect_example :
    IsHandled (Proc.collect sample_env (codes "cu") sample_reading [])
unfolding check_options same
check_options-proc_collect_example =
    check_options-proc_collect sample_env (codes "cu") (codes "proc") sample_reading refl refl

check_options_iff_example :
    (check_options filestat_opts_default (codes "nz") (codes "file") ≡ (true, []))
    ↔ All (λ c. holds filestat_opts_default c ≡ true) (codes "nz")
unfolding same
check_options_iff_example = check_options_iff filestat_opts_default (codes "nz") (codes "file") refl

-- A wrong option for processes is forgotten after a right one for files.
read_options_last_example :
    ((read_options ((b'p', codes "z") ∷ (b'f', codes "n") ∷ []) default_flags).flags_okay
      ≡ (check_options filestat_opts_default (codes "n") (codes "file")).0)
    × ((read_options ((b'p', codes "z") ∷ (b'p', codes "n") ∷ []) default_flags).flags_okay
        ≡ (check_options proc_opts_default (codes "n") (codes "proc")).0)
read_options_last_example = read_options_last ((b'p', codes "z") ∷ []) (codes "n") default_flags

sample_env-IsServed : IsServed sample_env
sample_env-IsServed = record {
  memory = λ size. refl;
  links = λ path. inr (sample_target, (λ size. refl), omega arith);
  users = λ path st e. ground arith;
  groups = λ path st e. ground arith;
  drivers = inl refl;
}

default_flags-IsAccepted : IsAccepted (flags_of [])
unfolding read_options check_options check_flags same holds
default_flags-IsAccepted = (refl, refl, refl)

main-PrintsProcess_example : PrintsLine (proc_line Label.pid (codes "7")) sample_env sample_info []
unfolding read_options same decimal
main-PrintsProcess_example =
    main-PrintsProcess sample_env sample_info [] small_listing sample_env-IsServed
      default_flags-IsAccepted small_listing-Lists small_listing-IsListing 7 refl (inl (refl, tt))

-- The name of the file that `lsof` lists.
sample_name :
    FileStat.process_option sample_env FileOpt.name
      (record { path = form_path (init_txt_fd sample_env.file_limit) 7 3; stat = sample_stat })
    ≡ ok (Id.filename, sample_target)
unfolding FileStat.process_option c_str
sample_name =
    rw
      (read_file_name-target sample_env (form_path (init_txt_fd sample_env.file_limit) 7 3)
        sample_target (λ size. refl) (λ size. refl) (omega arith))
      refl

main-PrintsAttribute_example :
    PrintsLine (file_line Label.filename (codes "/tmp/a (deleted)")) sample_env sample_info []
unfolding read_options same holds file_label insert_hash
main-PrintsAttribute_example =
    main-PrintsAttribute sample_env sample_info [] small_listing sample_env-IsServed
      default_flags-IsAccepted small_listing-Lists small_listing-IsListing 7 3 FileOpt.name
      sample_stat (Id.filename, sample_target) Label.filename refl (inl (refl, inl refl)) refl refl
      sample_name refl

-- The system where the process has a line of values.
abbrev line_env : Env
line_env = record sample_env {
  open_file = λ path.
      if same path (codes "/proc/7/stat") then some (stat_line sample_values sample_rest) else none;
}

line_env-IsServed : IsServed line_env
unfolding same
line_env-IsServed = record {
  memory = λ size. refl;
  links = λ path. inr (sample_target, (λ size. refl), omega arith);
  users = λ path st e. ground arith;
  groups = λ path st e. ground arith;
  drivers = inl refl;
}

seven_line :
    line_env.open_file (codes "/proc/" ++ decimal 7 ++ codes "/stat")
    ≡ some (stat_line sample_values sample_rest)
unfolding same decimal
seven_line = refl

abbrev seven-IsKnown : IsKnown line_env 7
seven-IsKnown =
    (sample_values, sample_rest, sample_stat, sample_values-AreFields, refl, seven_line, refl)

line_env-Lists : Lists line_env lsof_opts_default small_listing
line_env-Lists = small_listing-Lists

-- The fourth number of the line is the id of the parent.
main-DescribesProcess_example :
    PrintsLine (proc_line Label.ppid (codes "4")) line_env sample_info []
unfolding read_options same holds proc_label insert_hash parsed format decimal Proc.process_option
main-DescribesProcess_example =
    main-DescribesProcess line_env sample_info [] small_listing line_env-IsServed
      default_flags-IsAccepted line_env-Lists small_listing-IsListing 7 ProcOpt.ppid seven-IsKnown
      (Id.ppid, codes "4") Label.ppid refl (inl (refl, tt)) refl refl refl

main-read_report_example : Rereads sample_env sample_info [] small_listing
unfolding read_options same
main-read_report_example =
    main-read_report sample_env sample_info [] small_listing sample_env-IsServed
      sample_env-GivesLines (tt, tt) default_flags-IsAccepted refl small_listing-Lists
      small_listing-IsListing

-- A wrong option for processes: the message, and no report.
main_nothing_example :
    main sample_env sample_info ((b'p', codes "z") ∷ [])
    ≡ ok ((read_options ((b'p', codes "z") ∷ []) default_flags).lines ++ [] ∷ [])
unfolding read_options read_option check_options check_flags same holds
main_nothing_example = main_nothing sample_env sample_info ((b'p', codes "z") ∷ []) (inl refl)
