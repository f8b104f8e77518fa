-- ===== src/Proc/StateLabel.antt =====
-- `PR_LABEL_STATE_*` of src/ProcReader.h: what is shown of the states, on a kernel from 2.6.33 on.
use cphf.Text.{Text, codes}

abbrev pub running : Text
running = codes "R (Running)"

abbrev pub isleeping : Text
isleeping = codes "S (Sleeping in an interruptible wait)"

abbrev pub uisleeping : Text
uisleeping = codes "D (Waiting in uninterruptible disk sleep)"

abbrev pub zombie : Text
zombie = codes "Z (Zombie)"

abbrev pub paging : Text
paging = codes "W (Paging)"

abbrev pub stopped : Text
stopped = codes "T (Stopped on a signal)"
