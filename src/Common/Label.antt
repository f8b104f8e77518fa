-- ===== src/Common/Label.antt =====
-- The labels of the attributes, `CPHF_LABEL_*` of src/CPHFCommon.h. They are shut: proofs need
-- no more than that an attribute has one.
use cphf.Text.{Text, codes}

unfoldable pub pid : Text
pid = codes "Process ID (PID)"

unfoldable pub fd : Text
fd = codes "File Descriptor"

unfoldable pub lock : Text
lock = codes "Lock (r|w|u)"

unfoldable pub cmd : Text
cmd = codes "Command"

unfoldable pub filename : Text
filename = codes "Filename"

unfoldable pub device : Text
device = codes "Device"

unfoldable pub inode : Text
inode = codes "Inode"

unfoldable pub procgid : Text
procgid = codes "Process Group ID (PGID)"

unfoldable pub ppid : Text
ppid = codes "Parent PID"

unfoldable pub loginname : Text
loginname = codes "User Name"

unfoldable pub uid : Text
uid = codes "User ID (UID)"

unfoldable pub ugid_name : Text
ugid_name = codes "User Group Name"

unfoldable pub ugid : Text
ugid = codes "User Group ID (UGID)"

unfoldable pub filemode : Text
filemode = codes "File Mode"

unfoldable pub pstate : Text
pstate = codes "Current State"

unfoldable pub flags : Text
flags = codes "File Flags"

unfoldable pub perms : Text
perms = codes "Permissions"

unfoldable pub pstart_time : Text
pstart_time = codes "Start Time"

unfoldable pub access_t : Text
access_t = codes "Last Accessed"

unfoldable pub mod_t : Text
mod_t = codes "Last Modified"

unfoldable pub stat_change_t : Text
stat_change_t = codes "Last Status Change"

unfoldable pub pcpu_time : Text
pcpu_time = codes "CPU Time"

unfoldable pub raw_device : Text
raw_device = codes "Raw Device"

unfoldable pub filesize : Text
filesize = codes "File Size (bytes)"

unfoldable pub pvms : Text
pvms = codes "Virtual Memory (bytes)"

unfoldable pub prss : Text
prss = codes "Resident Set (pages)"

unfoldable pub text_region : Text
text_region = codes "Text Region"

unfoldable pub data_region : Text
data_region = codes "Data Region"

unfoldable pub stack_region : Text
stack_region = codes "Stack"

unfoldable pub esp : Text
esp = codes "Stack Pointer"

unfoldable pub epi : Text
epi = codes "Instruction Pointer"
