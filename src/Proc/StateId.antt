-- ===== src/Proc/StateId.antt =====
-- `PR_ID_STATE_*` of src/ProcReader.h: the letters of the states.
use cphf.Base.{ℕ}

abbrev pub running : ℕ
running = b'R'

abbrev pub isleeping : ℕ
isleeping = b'S'

abbrev pub uisleeping : ℕ
uisleeping = b'D'

abbrev pub zombie : ℕ
zombie = b'Z'

abbrev pub paging : ℕ
paging = b'W'

abbrev pub stopped : ℕ
stopped = b'T'
