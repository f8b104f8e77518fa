-- ===== src/Reader.antt =====
-- src/CPHFReader.{h,cpp}: what the readers share. Values are formatted as text.
pub mod Device
pub mod Format
pub mod Options
pub mod Perms
pub mod OneLine
mod Tests
use cphf.Base.{
  Run, ℕ, ◌+◌, Bool, true, false, List, [], ◌∷◌, ◌++◌, Option, none, some, bit_and, ◌==◌,
  if◌then◌else◌, length, take, ltb, ◌-◌, replicate, suc,
}
use cphf.Base.Word.{u32}
use cphf.Base.Int.{ℤ, pos, negsuc, quot, rem, signed64, to_int}
use cphf.Text.{Text, codes, decimal}
use cphf.Common.{AttributeFlags}
use cphf.Files.{ProcMap}
use cphf.Env.{Env}

-- `CPHF_FORMAT_DATE_TIME`
abbrev pub format_date_time : Text
format_date_time = codes "%a %b %d, %Y %T %Z"

-- `readTime`
unfoldable pub read_time : Env → ℕ → Text → Text
read_time env t format = elim (env.format_time format t) [
  | none ↦ codes "ERROR READING TIME"
  | some text ↦ text
]

-- `%d` and `%02d`
unfoldable pub print_int : ℤ → Text
print_int (pos n) = decimal n
print_int (negsuc n) = b'-' ∷ decimal (suc n)

unfoldable pub print_two : ℤ → Text
print_two (pos n) = let s = decimal n in replicate (2 - length s) b'0' ++ s
print_two (negsuc n) = b'-' ∷ decimal (suc n)

-- `readETime` under `CPHF_FORMAT_TIME`, "%d:%02d:%02d". The buffer takes 12 characters.
unfoldable pub read_etime : Env → ℕ → Text
unfolding print_int print_two
read_etime env t =
    let sec = to_int (quot (signed64 t) env.clock_ticks) in
    let hours = quot sec 3600 in
    let minutes = quot (rem sec 3600) 60 in
    let seconds = rem (rem sec 3600) 60 in
    take 12 (print_int hours ++ codes ":" ++ print_two minutes ++ codes ":" ++ print_two seconds)

-- `format(unsigned int)`: the argument is converted to 32 bits.
unfoldable pub format : ℕ → Text
format value = decimal (u32 value)

-- The flags of sys/stat.h.
abbrev pub s_ifmt : ℕ
s_ifmt = 0o170000

abbrev pub s_ifdir : ℕ
s_ifdir = 0o040000

abbrev s_isgid : ℕ
s_isgid = 0o2000

abbrev s_isvtx : ℕ
s_isvtx = 0o1000

abbrev s_irusr : ℕ
s_irusr = 0o400

abbrev s_iwusr : ℕ
s_iwusr = 0o200

abbrev s_ixusr : ℕ
s_ixusr = 0o100

abbrev s_irgrp : ℕ
s_irgrp = 0o40

abbrev s_iwgrp : ℕ
s_iwgrp = 0o20

abbrev s_ixgrp : ℕ
s_ixgrp = 0o10

abbrev s_iroth : ℕ
s_iroth = 0o4

abbrev s_iwoth : ℕ
s_iwoth = 0o2

abbrev s_ixoth : ℕ
s_ixoth = 0o1

abbrev pub has : ℕ → ℕ → Bool
has mode flag = bit_and mode flag == flag

-- `readPerms`
unfoldable pub read_perms : ℕ → Text
read_perms mode =
    (if bit_and mode s_ifmt == s_ifdir then b'd' else b'-')
    ∷ (if has mode s_irusr then b'r' else b'-')
    ∷ (if has mode s_iwusr then b'w' else b'-')
    ∷ (if has mode s_isgid then b's' else if has mode s_ixusr then b'x' else b'-')
    ∷ (if has mode s_irgrp then b'r' else b'-')
    ∷ (if has mode s_iwgrp then b'w' else b'-')
    ∷ (if has mode s_ixgrp then b'x' else b'-')
    ∷ (if has mode s_iroth then b'r' else b'-')
    ∷ (if has mode s_iwoth then b'w' else b'-')
    ∷ (if has mode s_isvtx then b't' else if has mode s_ixoth then b'x' else b'-')
    ∷ []

-- `CPHFReader`: what each reader does in its own way. `S` is the state that the readers keep in static
-- members; `read` also gives the lines that it prints.
pub record CphfReader (S : Type 0) : Type 0 where
  pub create_attrib_map : AttributeFlags → AttributeFlags
  pub read : Text → S → ProcMap → Run (ProcMap × S × List Text)
