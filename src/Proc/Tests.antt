-- ===== src/Proc/Tests.antt =====
-- Runs of the reader of processes.
use cphf.Proc.Stat.Fails.{read_proc_stat_fails}
use cphf.Base.Int.{to_int, pos}
use cphf.Common.Id
use cphf.Proc.Opt
use cphf.Proc.StartTime.{process_option-start}
use cphf.Reader.{read_time, format_date_time}
use cphf.Base.{◌^◌, ◌+◌, ◌-◌, ◌>>=◌, if◌then◌else◌, inr, ◌++◌, inl, inr, false}
use cphf.Proc.Order.{collect_reordered}
use cphf.Reader.{format, print_int}
use cphf.Proc.Stat.Missing.{IsGone}
use cphf.Proc.Alone.{IsKnown, shown, read_alone, quiet, read-read_alone}
use cphf.Map.{Map, insert, for_each}
use cphf.Files.{ProcMap, new_proc_file}
use cphf.Base.{◌≡◌, refl, List, [], ◌∷◌, some, arith, ℕ, none, ok}
use cphf.Text.{Text, codes, holds, decimal, skip_space, same}
use cphf.Env.{Env}
use cphf.Env.Sample.{sample_env}
use cphf.Proc.{
  read_cmd, Map, ProcMap, ProcReading, collect, read, process_option, procstate, add_reader, format,
  decimal, skip_space,
}
use cphf.Base.{true, arith}
use cphf.Env.Sample.{sample_info, sample_stat}
use cphf.Proc.Stat.{
  read_proc_stat, int_pattern, scan_number, long_pattern, scan_magnitude, no_number,
  unsigned_pattern,
}
use cphf.Proc.Stat.Line.{parsed, read_proc_stat-line, stat_line}
use cphf.Proc.Sample.{sample_values, sample_values-AreFields, stat_env, sample_rest}
use cphf.Proc.Command.{terminated, spaced, read_cmd-terminated}

abbrev sample_arguments : List Text
sample_arguments = codes "ls" ∷ codes "-l" ∷ []

abbrev command_env : Env
command_env = record sample_env { open_file = λ path. some (terminated sample_arguments) }

read_cmd-terminated_example : read_cmd command_env 7 ≡ spaced sample_arguments
read_cmd-terminated_example =
    read_cmd-terminated command_env 7 sample_arguments
      ((ground arith, (ground arith, tt)), ((ground arith, (ground arith, tt)), tt)) refl

-- The process started 123 seconds and a half after the boot.
abbrev uptime_env : Env
uptime_env = record sample_env { open_file = λ path. some (codes "5000.25 9000.5") }

abbrev started_reading : ProcReading
started_reading = record { info = record sample_info { starttime = 12350 }; states = procstate }

process_option-start_example :
    process_option uptime_env Opt.start_time started_reading
    ≡ ok ((Id.pstart_time, read_time uptime_env 995123 format_date_time), started_reading)
unfolding decimal
process_option-start_example =
    process_option-start uptime_env 5000 (codes ".25 9000.5") started_reading refl refl
      (omega arith) (omega arith) (omega arith)

shown_command : spaced sample_arguments ≡ codes "ls -l "
unfolding spaced
shown_command = refl

read_proc_stat-line_example :
    read_proc_stat stat_env 7 sample_info ≡ (true, parsed sample_values sample_info sample_stat, [])
read_proc_stat-line_example =
    read_proc_stat-line stat_env 7 sample_values sample_rest sample_info sample_stat
      sample_values-AreFields refl refl refl

-- The data region is taken from the places 46 and 47.
data_places :
    ((parsed sample_values sample_info sample_stat).databegin ≡ 46)
    × ((parsed sample_values sample_info sample_stat).dataend ≡ 47)
unfolding parsed
data_places = (refl, refl)

-- The same system where the process 9 has ended.
abbrev ended_env : Env
ended_env = record stat_env {
  open_file = λ path.
      if same path (codes "/proc/9/stat") then none else some (stat_line sample_values sample_rest);
  stat = λ path.
      if same path (codes "ERROR looking up PID 9/proc/9/exe") then none else some sample_stat;
}

seven-IsKnown : IsKnown ended_env 7
unfolding same decimal
seven-IsKnown = (sample_values, sample_rest, sample_stat, sample_values-AreFields, refl, refl, refl)

eight-IsKnown : IsKnown ended_env 8
unfolding same decimal
eight-IsKnown = (sample_values, sample_rest, sample_stat, sample_values-AreFields, refl, refl, refl)

nine-IsGone : IsGone ended_env 9
unfolding same decimal
nine-IsGone = (refl, refl)

abbrev three_processes : ProcMap
three_processes = (7, new_proc_file) ∷ (8, new_proc_file) ∷ (9, new_proc_file) ∷ []

-- Whatever the record holds at first: here it is a record of all zeros, and one that a line was read
-- into.
read-read_alone_example :
    (read ended_env sample_info procstate (codes "Pus") three_processes >>= λ x. ok (shown x)) ≡ (
      for_each
        (read_alone ended_env (codes "Pus") (parsed sample_values sample_info sample_stat))
        three_processes
      >>= λ m. ok (quiet m))
read-read_alone_example =
    read-read_alone ended_env sample_info (parsed sample_values sample_info sample_stat)
      (codes "Pus") three_processes
      (inl seven-IsKnown, (inl eight-IsKnown, (inr (inr nine-IsGone), tt)))

-- A sign is taken though no number follows it, and a number out of range stops at an end.
lone_sign : scan_number (codes "- 1") ≡ no_number (codes " 1")
unfolding scan_number scan_magnitude
lone_sign = refl

out_of_range :
    (int_pattern false (2 ^ 63 + 5) ≡ 2 ^ 32 - 1)
    × (long_pattern false (2 ^ 63 + 5) ≡ 2 ^ 63 - 1)
    × (unsigned_pattern false (2 ^ 64 + 5) ≡ 2 ^ 64 - 1)
unfolding int_pattern long_pattern unsigned_pattern
out_of_range = (refl, refl, refl)

abbrev empty_env : Env
empty_env = record sample_env { open_file = λ path. some [] }

abbrev small_reading : ProcReading
small_reading = record { info = sample_info; states = procstate }

abbrev both_shown : Map ℕ Text
both_shown = (Id.procgid, codes "0") ∷ (Id.ppid, codes "0") ∷ []

collect_once : collect sample_env (codes "Pn") small_reading [] ≡ ok (both_shown, small_reading)
unfolding collect process_option add_reader insert format decimal
collect_once = refl

collect_again : collect sample_env (codes "nPn") small_reading [] ≡ ok (both_shown, small_reading)
unfolding collect process_option add_reader insert format decimal
collect_again = refl

same_options : (c : ℕ) → holds (codes "Pn") c ≡ holds (codes "nPn") c
unfolding holds
same_options c = ground arith

collect_reordered_example : both_shown ≡ both_shown
collect_reordered_example =
    collect_reordered sample_env sample_info small_reading (codes "Pn") (codes "nPn")
      (refl, inl refl, inl refl, λ c. refl) same_options collect_once collect_again

read_proc_stat_fails_example :
    read_proc_stat empty_env 8 (parsed sample_values sample_info sample_stat) ≡ (
      true,
      record (parsed sample_values sample_info sample_stat) {
        info = sample_stat;
        pw = none;
        gr = none;
      },
      (codes "ERROR: problem reading /proc/" ++ print_int (to_int (pos 8)) ++ codes "/stat\n") ∷ [],
    )
unfolding skip_space
read_proc_stat_fails_example =
    read_proc_stat_fails empty_env 8 [] (parsed sample_values sample_info sample_stat) sample_stat
      refl tt refl
