-- ===== src/Base/Int.antt =====
-- Signed numbers, and the C operators on them: division and remainder round towards zero.
use Prim.Native.Nat.{ℕ, zero, suc, ◌-◌, ◌/◌, ◌%◌, ◌^◌}
use cphf.Base.Tests.{ltb, if◌then◌else◌}

-- `negsuc n` is -(n + 1).
pub data ℤ : Type 0 where
  pos : ℕ → ℤ
  negsuc : ℕ → ℤ

abbrev pub neg : ℕ → ℤ
neg zero = pos 0
neg (suc n) = negsuc n

abbrev pub quot : ℤ → ℕ → ℤ
quot (pos n) d = pos (n / d)
quot (negsuc n) d = neg (suc n / d)

abbrev pub rem : ℤ → ℕ → ℤ
rem (pos n) d = pos (n % d)
rem (negsuc n) d = neg (suc n % d)

-- The `time_t` or `long` of a 64-bit pattern, and back.
abbrev pub signed64 : ℕ → ℤ
signed64 x = if ltb x (2 ^ 63) then pos x else negsuc (2 ^ 64 - 1 - x)

abbrev pub pattern64 : ℤ → ℕ
pattern64 (pos n) = n % 2 ^ 64
pattern64 (negsuc n) = 2 ^ 64 - 1 - n % 2 ^ 64

-- Conversion to `int`.
abbrev pub to_int : ℤ → ℤ
to_int (pos n) = let x = n % 2 ^ 32 in if ltb x (2 ^ 31) then pos x else negsuc (2 ^ 32 - 1 - x)
to_int (negsuc n) = let x = n % 2 ^ 32 in if ltb x (2 ^ 31) then negsuc x else pos (2 ^ 32 - 1 - x)
