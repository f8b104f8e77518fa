-- ===== src/Proc/Stat.antt =====
-- `readProcStat` of src/ProcReader.cpp: scanning /proc/<pid>/stat by the formats of `fscanf`.
pub mod Values
pub mod Line
pub mod Fails
pub mod Missing
use Prim.Native.Nat.{min}
use cphf.Base.{
  ℕ, ◌+◌, ◌-◌, ◌%◌, ◌^◌, Bool, true, false, List, [], ◌∷◌, ◌++◌, Option, none, some, ◌==◌,
  if◌then◌else◌, ltb,
}
use cphf.Text.{Text, codes, decimal, skip_space, is_digit, read_digits}
use cphf.Env.{Env, Stat}
use cphf.Base.Int.{pos, to_int}
use cphf.Reader.{print_int}
use cphf.Reader.Device.{take_word}

-- `struct proc_info`, as far as it is used. `pw` and `gr` are pointers.
pub record ProcInfo : Type 0 where
  pub device : ℕ
  pub state : ℕ
  pub pid : ℕ
  pub ppid : ℕ
  pub procgid : ℕ
  pub putime : ℕ
  pub pstime : ℕ
  pub pcutime : ℕ
  pub pcstime : ℕ
  pub starttime : ℕ
  pub textbegin : ℕ
  pub textend : ℕ
  pub databegin : ℕ
  pub dataend : ℕ
  pub stackbegin : ℕ
  pub esp : ℕ
  pub epi : ℕ
  pub vms : ℕ
  pub rss : ℕ
  pub info : Stat
  pub pw : Option (Text × ℕ)
  pub gr : Option (Text × ℕ)

-- The directives of the formats. White space before each is skipped. `skip` is `%*d` or `%*u`,
-- `skip_word` is `%*s`; the others store what they read: `%c`, `%d`, `%ld`, and `%lu` or `%llu`.
pub data Directive : Type 0 where
  skip : Directive
  skip_word : Directive
  character : (ℕ → ProcInfo → ProcInfo) → Directive
  int : (ℕ → ProcInfo → ProcInfo) → Directive
  long : (ℕ → ProcInfo → ProcInfo) → Directive
  unsigned_long : (ℕ → ProcInfo → ProcInfo) → Directive

-- A number, its sign and the text behind it; or, where there is none, the text that is left: a sign
-- has been taken, but what follows it has not.
pub data Number : Type 0 where
  no_number : Text → Number
  scanned : Bool → ℕ → Text → Number

unfoldable pub scan_magnitude : Bool → Text → Number
unfolding read_digits
scan_magnitude negative [] = no_number []
scan_magnitude negative (c ∷ s) =
    let (n, rest) = read_digits 0 (c ∷ s) in
    if is_digit c then scanned negative n rest else no_number (c ∷ s)

unfoldable pub scan_number : Text → Number
unfolding scan_magnitude
scan_number [] = no_number []
scan_number (c ∷ s) =
    if c == b'-'
    then scan_magnitude true s
    else if c == b'+'
    then scan_magnitude false s
    else scan_magnitude false (c ∷ s)

-- The bit pattern of a number with a sign.
abbrev pub signed_pattern : ℕ → Bool → ℕ → ℕ
signed_pattern bits true n = (2 ^ bits - n % 2 ^ bits) % 2 ^ bits
signed_pattern bits false n = n % 2 ^ bits

-- A conversion to a signed type stops at the ends of `long`, as that of the GNU library does.
abbrev clamp : Bool → ℕ → ℕ
clamp true n = min n (2 ^ 63)
clamp false n = min n (2 ^ 63 - 1)

-- What `%d`, `%ld` and `%lu` store for a number: `%d` the low half of the `long`, `%lu` the number
-- modulo 2^64, or the end of `unsigned long` for a number beyond it.
unfoldable pub int_pattern : Bool → ℕ → ℕ
int_pattern negative n = signed_pattern 32 negative (clamp negative n)

unfoldable pub long_pattern : Bool → ℕ → ℕ
long_pattern negative n = signed_pattern 64 negative (clamp negative n)

unfoldable pub unsigned_pattern : Bool → ℕ → ℕ
unsigned_pattern negative n = if ltb n (2 ^ 64) then signed_pattern 64 negative n else 2 ^ 64 - 1

-- One directive: what it stored, how many assignments that counts for, and the text behind it; or,
-- where it fails, the text that is left.
pub data Step : Type 0 where
  stuck : Text → Step
  stepped : ProcInfo → ℕ → Text → Step

abbrev store : (Bool → ℕ → ℕ) → (ℕ → ProcInfo → ProcInfo) → ProcInfo → Number → Step
store pattern_of set info (no_number left) = stuck left
store pattern_of set info (scanned negative n rest) =
    stepped (set (pattern_of negative n) info) 1 rest

abbrev pass : ProcInfo → Number → Step
pass info (no_number left) = stuck left
pass info (scanned negative n rest) = stepped info 0 rest

abbrev pass_word : ProcInfo → Text → Step
pass_word info [] = stuck []
pass_word info (c ∷ s) = stepped info 0 (take_word (c ∷ s)).1

abbrev store_char : (ℕ → ProcInfo → ProcInfo) → ProcInfo → Text → Step
store_char set info [] = stuck []
store_char set info (c ∷ s) = stepped (set c info) 1 s

unfoldable pub scan_step : Directive → Text → ProcInfo → Step
unfolding scan_number take_word int_pattern long_pattern unsigned_pattern
scan_step skip s info = pass info (scan_number s)
scan_step skip_word s info = pass_word info s
scan_step (character set) s info = store_char set info s
scan_step (int set) s info = store int_pattern set info (scan_number s)
scan_step (long set) s info = store long_pattern set info (scan_number s)
scan_step (unsigned_long set) s info = store unsigned_pattern set info (scan_number s)

-- A call of `fscanf`: the record, the number of assignments and the text that is left. A directive
-- that fails ends the call. (The result EOF counts as no assignment.)
unfoldable pub scan_format : List Directive → Text → ProcInfo → ProcInfo × ℕ × Text
unfolding scan_step skip_space
scan_format [] s info = (info, 0, s)
scan_format (d ∷ ds) s info =
    let t = skip_space s in
    elim (scan_step d t info) [
      | stuck left ↦ (info, 0, left)
      | stepped info' count rest ↦
          let (info'', more, left) = scan_format ds rest info' in (info'', count + more, left)
    ]

abbrev pub format_1 : List Directive
format_1 =
    skip
    ∷ skip_word
    ∷ character (λ v info. record info { state = v })
    ∷ int (λ v info. record info { ppid = v })
    ∷ int (λ v info. record info { procgid = v })
    ∷ skip
    ∷ int (λ v info. record info { device = v })
    ∷ skip
    ∷ skip
    ∷ skip
    ∷ []

abbrev pub format_2 : List Directive
format_2 =
    skip
    ∷ skip
    ∷ skip
    ∷ unsigned_long (λ v info. record info { putime = v })
    ∷ unsigned_long (λ v info. record info { pstime = v })
    ∷ unsigned_long (λ v info. record info { pcutime = v })
    ∷ unsigned_long (λ v info. record info { pcstime = v })
    ∷ skip
    ∷ skip
    ∷ skip
    ∷ []

abbrev pub format_3 : List Directive
format_3 =
    skip
    ∷ unsigned_long (λ v info. record info { starttime = v })
    ∷ unsigned_long (λ v info. record info { vms = v })
    ∷ long (λ v info. record info { rss = v })
    ∷ skip
    ∷ unsigned_long (λ v info. record info { textbegin = v })
    ∷ []

abbrev pub format_4 : List Directive
format_4 =
    unsigned_long (λ v info. record info { textend = v })
    ∷ unsigned_long (λ v info. record info { stackbegin = v })
    ∷ unsigned_long (λ v info. record info { esp = v })
    ∷ unsigned_long (λ v info. record info { epi = v })
    ∷ []

abbrev pub format_5 : List Directive
format_5 =
    skip
    ∷ skip
    ∷ skip
    ∷ skip
    ∷ skip
    ∷ skip
    ∷ skip
    ∷ skip
    ∷ skip
    ∷ skip
    ∷ skip
    ∷ skip
    ∷ skip
    ∷ skip
    ∷ skip
    ∷ unsigned_long (λ v info. record info { databegin = v })
    ∷ unsigned_long (λ v info. record info { dataend = v })
    ∷ []

-- The five calls in turn, and the sum of their results.
unfoldable pub scan_formats : List (List Directive) → Text → ProcInfo → ProcInfo × ℕ
unfolding scan_format
scan_formats [] s info = (info, 0)
scan_formats (f ∷ fs) s info =
    let (info', count, rest) = scan_format f s info in
    let (info'', more) = scan_formats fs rest info' in (info'', count + more)

abbrev pub formats : List (List Directive)
formats = format_1 ∷ format_2 ∷ format_3 ∷ format_4 ∷ format_5 ∷ []

-- The result of `stat` is the result of the call: was the file found?
unfoldable pub read_exe : Env → Text → ProcInfo → Bool × ProcInfo
read_exe env path info = elim (env.stat path) [
  | none ↦ (false, info)
  | some st ↦ (true, record info { info = st })
]

-- What follows the calls of `fscanf`: the error line, and `stat` on the executable.
unfoldable pub after_scan : Env → ℕ → ProcInfo × ℕ → Bool × ProcInfo × List Text
unfolding read_exe
after_scan env pid (info, count) =
    let lines : List Text =
      if count == 18
      then []
      else (codes "ERROR: problem reading /proc/"
          ++ print_int (to_int (pos pid))
          ++ codes "/stat\n")
        ∷ [] in
    let path = codes "/proc/" ++ decimal pid ++ codes "/exe" in
    let (found, info') = read_exe env path (record info { pw = none; gr = none }) in
    (found, info', lines)

-- `readProcStat`, with the lines that it prints. Where the file cannot be opened, the path of the
-- executable is written behind the error text, and looked up so.
unfoldable pub read_proc_stat : Env → ℕ → ProcInfo → Bool × ProcInfo × List Text
unfolding scan_formats after_scan
read_proc_stat env pid info =
    elim (env.open_file (codes "/proc/" ++ decimal pid ++ codes "/stat")) [
      | none ↦
          let path =
            codes "ERROR looking up PID "
            ++ decimal pid
            ++ codes "/proc/"
            ++ decimal pid
            ++ codes "/exe" in
          let (found, info') = read_exe env path info in (found, info', [])
      | some s ↦ after_scan env pid (scan_formats formats s info)
    ]
