-- ===== src/Proc/Values.antt =====
-- What the options of src/ProcReader.cpp are read by: the states, the regions of memory, the command,
-- the users and groups, and the time of the start.
use cphf.Base.{
  ℕ, ◌+◌, ◌-◌, ◌%◌, ◌^◌, Bool, ◌||◌, [], ◌∷◌, ◌++◌, Option, none, some, ltb, ◌==◌, if◌then◌else◌,
  Run, ok, fault, null_pointer, ◌>>=◌, leb, true, false,
}
use cphf.Base.Word.{u64}
use cphf.Base.Int.{quot, signed64, pattern64}
use cphf.Text.{Text, codes, decimal, hexadecimal, skip_space}
use cphf.Map.{Map, insert, find}
use cphf.Env.{Env}
use cphf.Reader.{read_time}
use cphf.Reader.Device.{read_magnitude}
use cphf.Proc.Opt
use cphf.Proc.StateId
use cphf.Proc.StateLabel
use cphf.Proc.Stat.{ProcInfo}

-- `INST_POINTER`, by which `format` knows that there is one address only.
abbrev pub inst_pointer : ℕ
inst_pointer = b'!'

-- The order of `char` keys: a `char` is signed.
abbrev pub char_less : ℕ → ℕ → Bool
char_less a b = ltb ((a + 128) % 256) ((b + 128) % 256)

abbrev pub ProcStates : Type 0
ProcStates = Map ℕ Text

-- `ProcReader::procstate`
abbrev pub procstate : ProcStates
procstate =
    (StateId.uisleeping, StateLabel.uisleeping)
    ∷ (StateId.running, StateLabel.running)
    ∷ (StateId.isleeping, StateLabel.isleeping)
    ∷ (StateId.stopped, StateLabel.stopped)
    ∷ (StateId.paging, StateLabel.paging)
    ∷ (StateId.zombie, StateLabel.zombie)
    ∷ []

-- `operator[]` puts in an empty text where the key is missing.
unfoldable pub state_label : ℕ → ProcStates → Text × ProcStates
state_label c states = elim (find char_less c states) [
  | none ↦ ([], insert char_less c [] states)
  | some label ↦ (label, states)
]

-- `format(begin, end)`
unfoldable pub format_range : ℕ → ℕ → Text
format_range begin end =
    hexadecimal begin ++ (if end == inst_pointer then [] else codes "  -  " ++ hexadecimal end)

-- The loop of `readCMD`: each piece that ends in NUL, and a last one that is not empty.
unfoldable pub command_words : Text → Text → Text
command_words [] [] = []
command_words (d ∷ piece) [] = (d ∷ piece) ++ b' ' ∷ []
command_words piece (c ∷ s) =
    let ended = command_words [] s in
    let longer = command_words (piece ++ c ∷ []) s in
    if c == 0 then piece ++ b' ' ∷ ended else longer

-- `readCMD`
unfoldable pub read_cmd : Env → ℕ → Text
unfolding command_words
read_cmd env pid = elim (env.open_file (codes "/proc/" ++ decimal pid ++ codes "/cmdline")) [
  | none ↦ []
  | some s ↦ command_words [] s
]

abbrev pub cached : Option (Text × ℕ) → Option (Text × ℕ) → Option (Text × ℕ)
cached none found = found
cached (some entry) found = some entry

abbrev pub entry_of : Option (Text × ℕ) → Run (Text × ℕ)
entry_of none = fault null_pointer
entry_of (some entry) = ok entry

-- `readIDs`: the entry is looked up once for each process, and followed though it may be null.
unfoldable pub read_ids : Env → ℕ → ProcInfo → Run (Text × ProcInfo)
read_ids env option info =
    if option == Opt.username || option == Opt.uid
    then (do
      let pw = cached info.pw (env.getpwuid info.info.st_uid)
      entry ← entry_of pw
      ok (if option == Opt.username then entry.0 else decimal entry.1, record info { pw = pw }))
    else (do
      let gr = cached info.gr (env.getgrgid info.info.st_gid)
      entry ← entry_of gr
      ok (if option == Opt.ugid_name then entry.0 else decimal entry.1, record info { gr = gr }))

abbrev long_of : Bool → Option (ℕ × Text) → Option (ℕ × Text)
long_of negative none = none
long_of false (some (n, rest)) = if ltb n (2 ^ 63) then some (n, rest) else none
long_of true (some (n, rest)) = if leb n (2 ^ 63) then some ((2 ^ 64 - n) % 2 ^ 64, rest) else none

unfoldable pub read_sign : Text → Option (ℕ × Text)
unfolding read_magnitude
read_sign [] = none
read_sign (c ∷ s) =
    if c == b'-'
    then long_of true (read_magnitude s)
    else if c == b'+'
    then long_of false (read_magnitude s)
    else long_of false (read_magnitude (c ∷ s))

-- `fsin >> t` for a `time_t`: a number with a sign that fits 64 bits, as its bit pattern.
unfoldable pub read_time_t : Text → Option (ℕ × Text)
unfolding skip_space read_sign
read_time_t s = read_sign (skip_space s)

-- `readTime`: ticks since the system was booted. The seconds since then come from /proc/uptime.
unfoldable pub read_start_time : Env → ℕ → Text → Text
read_start_time env t format = elim (env.open_file (codes "/proc/uptime")) [
  | none ↦ codes "ERROR READING TIME"
  | some s ↦ elim (read_time_t s) [
    | none ↦ codes "ERROR READING TIME"
    | some (since_boot, rest) ↦
        read_time env
          (u64 (
            env.current_time
            + (2 ^ 64 - since_boot)
            + pattern64 (quot (signed64 t) env.clock_ticks)))
          format
  ]
]
