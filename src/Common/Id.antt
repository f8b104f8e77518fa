-- ===== src/Common/Id.antt =====
-- The attribute ids, `enum cphf_ids` of src/CPHFCommon.h.
use cphf.Base.{ℕ}

abbrev pub pid : ℕ
pid = 5

abbrev pub fd : ℕ
fd = 105

abbrev pub lock : ℕ
lock = 130

abbrev pub cmd : ℕ
cmd = 0

abbrev pub filename : ℕ
filename = 2

abbrev pub device : ℕ
device = 6

abbrev pub inode : ℕ
inode = 8

abbrev pub procgid : ℕ
procgid = 10

abbrev pub ppid : ℕ
ppid = 15

abbrev pub loginname : ℕ
loginname = 20

abbrev pub uid : ℕ
uid = 25

abbrev pub ugid_name : ℕ
ugid_name = 30

abbrev pub ugid : ℕ
ugid = 35

abbrev pub filemode : ℕ
filemode = 39

abbrev pub pstate : ℕ
pstate = 40

abbrev pub flags : ℕ
flags = 41

abbrev pub perms : ℕ
perms = 42

abbrev pub pstart_time : ℕ
pstart_time = 45

abbrev pub access_t : ℕ
access_t = 46

abbrev pub mod_t : ℕ
mod_t = 47

abbrev pub stat_change_t : ℕ
stat_change_t = 48

abbrev pub pcpu_time : ℕ
pcpu_time = 50

abbrev pub raw_device : ℕ
raw_device = 54

abbrev pub filesize : ℕ
filesize = 57

abbrev pub pvms : ℕ
pvms = 60

abbrev pub prss : ℕ
prss = 65

abbrev pub text_region : ℕ
text_region = 70

abbrev pub data_region : ℕ
data_region = 75

abbrev pub stack_region : ℕ
stack_region = 80

abbrev pub esp : ℕ
esp = 85

abbrev pub epi : ℕ
epi = 90
