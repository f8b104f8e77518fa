-- ===== src/Env.antt =====
-- What the program asks of the system. All of it is outside the repository, and stands in the model
-- as a parameter of the definitions that use it.
pub mod Sample
pub mod Lines
use cphf.Base.{ℕ, Bool, List, Option}
use cphf.Text.{Text}
use cphf.Lsof.{Child}

-- `struct stat`, as far as it is read.
pub record Stat : Type 0 where
  pub st_dev : ℕ
  pub st_rdev : ℕ
  pub st_ino : ℕ
  pub st_mode : ℕ
  pub st_uid : ℕ
  pub st_gid : ℕ
  pub st_size : ℕ
  pub st_atime : ℕ
  pub st_mtime : ℕ
  pub st_ctime : ℕ

pub record Env : Type 0 where
  -- `getrlimit(RLIMIT_NOFILE, …)`: the hard limit, or the failure
  pub file_limit : Option ℕ
  -- the child that runs `lsof` with these arguments
  pub lsof : List Text → Child
  -- `stat`
  pub stat : Text → Option Stat
  -- `readlink` with the size of the buffer: the bytes that it places there, or the failure
  pub readlink : Text → ℕ → Option Text
  -- does an allocation of this size succeed?
  pub alloc : ℕ → Bool
  -- the text of a file that is opened for reading, or the failure
  pub open_file : Text → Option Text
  -- `strftime` by this format on the local time of this `time_t`; `none` if the text has no room
  pub format_time : Text → ℕ → Option Text
  -- `sysconf(_SC_CLK_TCK)`
  pub clock_ticks : ℕ
  -- `time(NULL)`
  pub current_time : ℕ
  -- the macros of sys/sysmacros.h
  pub major : ℕ → ℕ
  pub minor : ℕ → ℕ
  -- `getpwuid` and `getgrgid`: the name and the id of the entry, or null
  pub getpwuid : ℕ → Option (Text × ℕ)
  pub getgrgid : ℕ → Option (Text × ℕ)
