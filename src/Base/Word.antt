-- ===== src/Base/Word.antt =====
-- Machine integers as bit patterns: an `unsigned int` or an `int` is a number below 2^32, an
-- `unsigned long` or `unsigned long long` one below 2^64.
use Prim.Native.Nat.{ℕ, ◌+◌, ◌-◌, ◌%◌, ◌^◌, ◌<◌}
use mathlib.Core.Path.{◌≡◌}
use native.Mathlib.Omega.{arith}
use cphf.Base.Tests.{ltb, if◌then◌else◌}

abbrev pub u32 : ℕ → ℕ
u32 n = n % 2 ^ 32

abbrev pub u64 : ℕ → ℕ
u64 n = n % 2 ^ 64

-- `int` to `unsigned long long`: the sign is extended.
abbrev pub sign_extend : ℕ → ℕ
sign_extend n = if ltb n (2 ^ 31) then n else n + (2 ^ 64 - 2 ^ 32)

-- The place of an `int` in the order of its type: the least one has place 0.
abbrev pub int_rank : ℕ → ℕ
int_rank n = (n + 2 ^ 31) % 2 ^ 32

pub int_rank-injective : (m n : ℕ) → m < 2 ^ 32 → n < 2 ^ 32 → int_rank m ≡ int_rank n → m ≡ n
int_rank-injective m n h k e = omega arith

-- A number that an `int` holds is itself at every width.
pub sign_extend-int : (n : ℕ) → n < 2 ^ 31 → sign_extend n ≡ n
sign_extend-int n h = ground arith

pub u32-int : (n : ℕ) → n < 2 ^ 31 → u32 n ≡ n
u32-int n h = omega arith
