-- ===== src/FileStat/Opt.antt =====
-- `enum filestat_ops` of src/FileStatReader.h: the letters of the options.
use cphf.Base.{ℕ}

abbrev pub name : ℕ
name = b'n'

abbrev pub inode : ℕ
inode = b'i'

abbrev pub uname : ℕ
uname = b'U'

abbrev pub uid : ℕ
uid = b'u'

abbrev pub gname : ℕ
gname = b'G'

abbrev pub gid : ℕ
gid = b'g'

abbrev pub mode : ℕ
mode = b'M'

abbrev pub access_t : ℕ
access_t = b'a'

abbrev pub mod_t : ℕ
mod_t = b'm'

abbrev pub stat_change_t : ℕ
stat_change_t = b'c'

abbrev pub device : ℕ
device = b'd'

abbrev pub size : ℕ
size = b's'

abbrev pub perms : ℕ
perms = b'p'
