-- ===== src/Reader/Device.antt =====
-- `buildDeviceMap` and `readDevice` of src/CPHFReader.cpp: the name of a device, by the list of
-- drivers in /proc/tty/drivers.
pub mod Drivers
pub mod Listing
pub mod Words
pub mod OneLine
pub mod Fuel
use cphf.Base.{
  ℕ, zero, suc, ◌-◌, ◌%◌, ◌^◌, Bool, ◌&&◌, [], ◌∷◌, ◌++◌, Option, none, some, ltb, ◌==◌,
  if◌then◌else◌, length, drop, Run, ok, fault, out_of_range, ◌>>=◌,
}
use cphf.Text.{Text, codes, decimal, contains, skip_space, is_space, is_digit, read_digits}
use cphf.Map.{Map, insert, find}
use cphf.Env.{Env, Stat}

-- `struct minor_dev_range` and its order: a range is less than one that lies below it, and ranges
-- that overlap are one key.
pub record MinorDevRange : Type 0 where
  pub min : ℕ
  pub max : ℕ

unfoldable pub range_less : MinorDevRange → MinorDevRange → Bool
range_less a b = ltb b.min a.min && ltb b.max a.min

abbrev pub DeviceMap : Type 0
DeviceMap = Map ℕ (Map MinorDevRange Text)

-- Extraction from the stream: what was read and the text behind it, or the failure.

unfoldable pub take_word : Text → Text × Text
take_word [] = ([], [])
take_word (c ∷ s) = let (w, rest) = take_word s in if is_space c then ([], c ∷ s) else (c ∷ w, rest)

-- `fsin >> text`
unfoldable pub read_word : Text → Option (Text × Text)
unfolding skip_space take_word
read_word s = elim (skip_space s) [ [] ↦ none | c ∷ t ↦ some (take_word (c ∷ t)) ]

-- `fsin >> c` for a `char`.
unfoldable pub read_char : Text → Option (ℕ × Text)
unfolding skip_space
read_char s = elim (skip_space s) [ [] ↦ none | c ∷ t ↦ some (c, t) ]

-- Digits make a number, unless it has more than 64 bits.
unfoldable pub read_magnitude : Text → Option (ℕ × Text)
unfolding read_digits
read_magnitude [] = none
read_magnitude (c ∷ s) =
    let (n, rest) = read_digits 0 (c ∷ s) in
    if is_digit c && ltb n (2 ^ 64) then some (n, rest) else none

negate : Option (ℕ × Text) → Option (ℕ × Text)
negate none = none
negate (some (n, rest)) = some ((2 ^ 64 - n) % 2 ^ 64, rest)

read_signed : Text → Option (ℕ × Text)
unfolding read_magnitude negate
read_signed [] = none
read_signed (c ∷ s) =
    if c == b'-'
    then negate (read_magnitude s)
    else if c == b'+'
    then read_magnitude s
    else read_magnitude (c ∷ s)

-- `fsin >> n` for an `unsigned long`.
unfoldable pub read_number : Text → Option (ℕ × Text)
unfolding skip_space read_signed
read_number s = read_signed (skip_space s)

pub record Driver : Type 0 where
  pub label : Text
  pub major : ℕ
  pub minors : MinorDevRange

infixl 5 ◌>>?◌
abbrev ◌>>?◌ {ℓ κ} :
    {A : Type ℓ} {B : Type κ} → Option (A × Text) → (A → Text → Option B) → Option B
none >>? f = none
some (a, s) >>? f = f a s

-- The numbers of a line and the word behind them.
unfoldable pub read_minors : Text → Text → Option (Driver × Text)
unfolding read_number read_char read_word
read_minors label s = read_number s >>? λ major s₁. read_number s₁ >>? λ min s₂.
    read_char s₂ >>? λ range_check s₃.
    (if range_check == b'-' then read_number s₃ else some (min, s₃)) >>? λ max s₄.
    read_word s₄ >>? λ kind s₅.
    some (record { label = label; major = major; minors = record { min = min; max = max } }, s₅)

-- One round of the loop up to the map. `substr(5)` takes "/dev/" off, and throws where the text is
-- shorter.
unfoldable pub take_label : Option (Text × Text) → Run (Option (Driver × Text))
unfolding read_minors
take_label none = ok none
take_label (some (device, s)) =
    if ltb (length device) 5 then fault out_of_range else ok (read_minors (drop 5 device) s)

unfoldable pub take_name : Option (Text × Text) → Run (Option (Driver × Text))
unfolding read_word take_label
take_name none = ok none
take_name (some (name, s)) = take_label (read_word s)

unfoldable pub read_driver : Text → Run (Option (Driver × Text))
unfolding take_name
read_driver s = take_name (read_word s)

-- The rest of the round. Where the major number has a map, the range goes into a copy of it, which
-- is dropped.
unfoldable pub add_driver : Driver → DeviceMap → DeviceMap
add_driver d devices = elim (find ltb d.major devices) [
  | some min_map ↦ devices
  | none ↦ insert ltb d.major (insert range_less d.minors d.label []) devices
]

-- The loop ends when something cannot be read: the exception is caught, and the map stays as it is.
unfoldable pub build_step :
    DeviceMap → (Text → DeviceMap → Run DeviceMap) → Option (Driver × Text) → Run DeviceMap
unfolding add_driver
build_step devices continue none = ok devices
build_step devices continue (some (d, rest)) = continue rest (add_driver d devices)

unfoldable pub build_loop : ℕ → Text → DeviceMap → Run DeviceMap
unfolding read_driver build_step
build_loop zero s devices = ok devices
build_loop (suc fuel) s devices = read_driver s >>= build_step devices (build_loop fuel)

unfoldable pub build_from : DeviceMap → Option Text → Run DeviceMap
unfolding build_loop
build_from devices none = ok devices
build_from devices (some s) = build_loop (suc (length s)) s devices

unfoldable pub build_device_map : Env → DeviceMap → Run DeviceMap
unfolding build_from
build_device_map env devices = build_from devices (env.open_file (codes "/proc/tty/drivers"))

-- `FS_CHARCTER_DEVICE`
abbrev pub fs_charcter_device : ℕ
fs_charcter_device = 12

unfoldable pub device_label : Text → ℕ → Text
unfolding contains
device_label label minor =
    if contains label (codes "tty")
    then label ++ decimal minor
    else if contains label (codes "pts")
    then label ++ codes "/" ++ decimal minor
    else []

unfoldable pub name_device : DeviceMap → ℕ → ℕ → Text
unfolding device_label
name_device devices major minor = elim (find ltb major devices) [
  | none ↦ codes "?"
  | some minor_map ↦ elim (find range_less (record { min = minor; max = minor }) minor_map) [
    | none ↦ codes "?"
    | some label ↦ device_label label minor
  ]
]

-- `readDevice`
unfoldable pub read_device : Env → Stat → Run Text
unfolding build_device_map name_device
read_device env info = do
  devices ← build_device_map env []
  let dev_id = if info.st_dev == fs_charcter_device then info.st_rdev else info.st_dev
  let major = env.major dev_id
  let minor = env.minor dev_id
  ok (decimal major ++ codes "," ++ decimal minor ++ codes "\t" ++ name_device devices major minor)
