-- ===== src/Env/Sample.antt =====
-- A small system for the runs of the tests: one process with one open file that was unlinked.
use cphf.Base.{true, none, some, take, ◌%◌, ◌/◌, arith}
use cphf.Text.{Text, codes}
use cphf.Lsof.{writes}
use cphf.Text.Lines.{IsLine}
use cphf.Text.OneLine.{IsLine-take}
use cphf.Env.Lines.{GivesLines}
use cphf.Env.{Env, Stat}
use cphf.Proc.Stat.{ProcInfo}

abbrev pub sample_stat : Stat
sample_stat = record {
  st_dev = 2049;
  st_rdev = 0;
  st_ino = 77;
  st_mode = 0o100644;
  st_uid = 1000;
  st_gid = 100;
  st_size = 4096;
  st_atime = 1;
  st_mtime = 2;
  st_ctime = 3;
}

abbrev pub sample_target : Text
sample_target = codes "/tmp/a (deleted)"

abbrev pub sample_env : Env
sample_env = record {
  file_limit = some 1024;
  lsof = λ arguments. writes (codes "p7\ng7\nf3\n");
  stat = λ path. some sample_stat;
  readlink = λ path size. some (take size sample_target);
  alloc = λ size. true;
  open_file = λ path. none;
  format_time = λ format t. some (codes "now");
  clock_ticks = 100;
  current_time = 1000000;
  major = λ dev. dev / 256;
  minor = λ dev. dev % 256;
  getpwuid = λ uid. some (codes "alice", uid);
  getgrgid = λ gid. some (codes "users", gid);
}

-- A record of a process before anything is read into it.
abbrev pub sample_info : ProcInfo
sample_info = record {
  device = 0;
  state = 0;
  pid = 0;
  ppid = 0;
  procgid = 0;
  putime = 0;
  pstime = 0;
  pcutime = 0;
  pcstime = 0;
  starttime = 0;
  textbegin = 0;
  textend = 0;
  databegin = 0;
  dataend = 0;
  stackbegin = 0;
  esp = 0;
  epi = 0;
  vms = 0;
  rss = 0;
  info = sample_stat;
  pw = none;
  gr = none;
}

sample_target-IsLine : IsLine sample_target
sample_target-IsLine = ground arith

pub sample_env-GivesLines : GivesLines sample_env
sample_env-GivesLines = record {
  links = λ path size. IsLine-take size sample_target sample_target-IsLine;
  arguments = λ pid. tt;
  times = λ format t. ground arith;
  users = λ uid. ground arith;
  groups = λ gid. ground arith;
}
