-- ===== src/Proc/Opt.antt =====
-- `enum procreader_opts` of src/ProcReader.h: the letters of the options.
use cphf.Base.{ℕ}

abbrev pub command : ℕ
command = b'c'

abbrev pub pid : ℕ
pid = b'p'

abbrev pub ppid : ℕ
ppid = b'P'

abbrev pub procgid : ℕ
procgid = b'n'

abbrev pub username : ℕ
username = b'U'

abbrev pub uid : ℕ
uid = b'u'

abbrev pub ugid_name : ℕ
ugid_name = b'G'

abbrev pub ugid : ℕ
ugid = b'g'

abbrev pub start_time : ℕ
start_time = b'e'

abbrev pub cpu_time : ℕ
cpu_time = b'q'

abbrev pub state : ℕ
state = b's'

abbrev pub device : ℕ
device = b'd'

abbrev pub vms : ℕ
vms = b'v'

abbrev pub rms : ℕ
rms = b'r'

abbrev pub mem_text : ℕ
mem_text = b'T'

abbrev pub mem_data : ℕ
mem_data = b'D'

abbrev pub mem_stack : ℕ
mem_stack = b'S'

abbrev pub inst_ptr : ℕ
inst_ptr = b'i'

abbrev pub perms : ℕ
perms = b'M'
