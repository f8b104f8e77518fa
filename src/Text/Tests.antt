-- ===== src/Text/Tests.antt =====
-- Runs of the text functions.
use cphf.Base.{◌≡◌, refl, ◌-◌, ◌^◌, some, none}
use cphf.Text.{codes, decimal, hexadecimal, atoi}

decimal_tests :
    (decimal 0 ≡ codes "0")
    × (decimal 4096 ≡ codes "4096")
    × (decimal (2 ^ 64 - 1) ≡ codes "18446744073709551615")
unfolding decimal
decimal_tests = (refl, refl, refl)

hexadecimal_tests :
    (hexadecimal 0 ≡ codes "0") × (hexadecimal 0x7f90fb55f110 ≡ codes "0x7f90fb55f110")
unfolding hexadecimal
hexadecimal_tests = (refl, refl)

atoi_tests :
    (atoi (codes " 42x") ≡ some 42)
    × (atoi (codes "-1") ≡ some (2 ^ 32 - 1))
    × (atoi (codes "cwd") ≡ some 0)
    × (atoi (codes "2147483648") ≡ none)
unfolding atoi
atoi_tests = (refl, refl, refl, refl)
