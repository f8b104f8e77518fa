-- ===== src/Proc/StartTime.antt =====
-- The time at which a process started: `readTime` of src/ProcReader.cpp.
use cphf.Text.Space.{skip_space_stays}
use native.Mathlib.Nat.{div-le_self}
use cphf.Base.{
  ℕ, ◌+◌, ◌-◌, ◌/◌, ◌==◌, ◌^◌, ◌<◌, ◌≤◌, ◌≡◌, true, false, [], ◌∷◌, ◌++◌, some, ok, ltb, arith,
  length, ap,
}
use cphf.Base.Word.{u64}
use cphf.Base.Int.{quot, signed64, pattern64}
use cphf.Text.{Text, codes, decimal, read_digits, is_space}
use cphf.Text.Numbers.{
  IsStop, IsDigits, decimal-IsDigits, read_digits-decimal_append, length-decimal_pos,
}
use cphf.Common.Id
use cphf.Env.{Env}
use cphf.Reader.{read_time, format_date_time}
use cphf.Reader.Device.{read_magnitude}
use cphf.Proc.{ProcReading, process_option}
use cphf.Proc.Opt
use cphf.Proc.Values.{read_sign, read_time_t, read_start_time}

read_time_t-digits :
    (s rest : Text) (n : ℕ)
    → IsDigits s
    → 0 < length s
    → n < 2 ^ 63
    → read_digits 0 (s ++ rest) ≡ (n, rest)
    → read_time_t (s ++ rest) ≡ some (n, rest)
unfolding read_time_t read_sign read_magnitude
read_time_t-digits [] rest n h k b e = absurd (omega arith)
read_time_t-digits (c ∷ s) rest n h k b e =
    let space : is_space c ≡ false = ground (arith, h.0) in
    let minus : (c == b'-') ≡ false = ground (arith, h.0) in
    let plus : (c == b'+') ≡ false = ground (arith, h.0) in
    let fits : ltb n (2 ^ 64) ≡ true = ground arith in
    let below : ltb n (2 ^ 63) ≡ true = ground arith in
    rw (skip_space_stays c (s ++ rest) space) (rw (e, minus, plus, h.0, fits, below))

-- A number of seconds before other text, read as a `time_t`.
read_time_t-decimal :
    (n : ℕ) (rest : Text)
    → n < 2 ^ 63
    → IsStop rest
    → read_time_t (decimal n ++ rest) ≡ some (n, rest)
read_time_t-decimal n rest h stop =
    read_time_t-digits (decimal n) rest n (decimal-IsDigits n) (length-decimal_pos n) h
      (read_digits-decimal_append n rest stop)

-- The sum of seconds that `readTime` makes, in the 64 bits of a `time_t`.
start_seconds :
    (now up t ticks : ℕ)
    → now < 2 ^ 63
    → up ≤ now
    → t < 2 ^ 63
    → u64 (now + (2 ^ 64 - up) + pattern64 (quot (signed64 t) ticks)) ≡ now - up + t / ticks
start_seconds now up t ticks h k b = ground (arith, div-le_self t ticks)

read_start_time-uptime :
    (env : Env) (up t : ℕ) (rest format : Text)
    → env.open_file (codes "/proc/uptime") ≡ some (decimal up ++ rest)
    → IsStop rest
    → env.current_time < 2 ^ 63
    → up ≤ env.current_time
    → t < 2 ^ 63
    → read_start_time env t format
      ≡ read_time env (env.current_time - up + t / env.clock_ticks) format
unfolding read_start_time
read_start_time-uptime env up t rest format file stop now past ticks = rw (
  read_start_time,
  file,
  read_time_t-decimal up rest (omega arith) stop,
  start_seconds env.current_time up t env.clock_ticks now past ticks,
)

-- Where /proc/uptime starts with a whole number of seconds, no more than those of the clock, and the
-- numbers fit a `time_t`, the start of a process is shown as the time of the boot, which is now less
-- those seconds, and the whole seconds of its ticks since then.
pub process_option-start :
    (env : Env) (up : ℕ) (rest : Text) (r : ProcReading)
    → env.open_file (codes "/proc/uptime") ≡ some (decimal up ++ rest)
    → IsStop rest
    → env.current_time < 2 ^ 63
    → up ≤ env.current_time
    → r.info.starttime < 2 ^ 63
    → process_option env Opt.start_time r
      ≡ ok (
        (
          Id.pstart_time,
          read_time env
              (env.current_time - up + r.info.starttime / env.clock_ticks)
              format_date_time,
        ),
        r,
      )
unfolding process_option
process_option-start env up rest r file stop now past ticks =
    ap (λ value. ok ((Id.pstart_time, value), r))
      (read_start_time-uptime env up r.info.starttime rest format_date_time file stop now past
        ticks)
