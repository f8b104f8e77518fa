-- ===== src/Base/Bits.antt =====
-- `&` on numbers: the test of a bit, and of a field of bits.
use Prim.Native.Nat.{
  ℕ, zero, suc, ◌+◌, ◌*◌, ◌/◌, ◌%◌, ◌^◌, ◌≤◌, min, digits, bit_and, bit_and-bitwise,
}
use mathlib.Core.Path.{◌≡◌, refl, ap}
use native.Mathlib.Nat.{pow-succ', mul_assoc, div-div-eq-div-mul}
use native.Mathlib.Omega.{arith}

abbrev and_digits : ℕ → ℕ → ℕ → ℕ
and_digits = digits (λ b. 0) min

-- Any count will do that the first number does not exceed.
and_digits-count : (i j a b : ℕ) → a ≤ i → a ≤ j → and_digits i a b ≡ and_digits j a b
and_digits-count zero zero a b h k = refl
and_digits-count zero (suc j) zero b h k = refl
and_digits-count (suc i) zero zero b h k = refl
and_digits-count (suc i) (suc j) zero b h k = refl
and_digits-count zero j (suc a) b h k = absurd (omega arith)
and_digits-count (suc i) zero (suc a) b h k = absurd (omega arith)
and_digits-count (suc i) (suc j) (suc a) b h k =
    rw (and_digits-count i j (suc a / 2) (b / 2) (omega arith) (omega arith))

-- The last digit, and those before it.
bit_and-halves : (a b : ℕ) → bit_and a b ≡ 2 * bit_and (a / 2) (b / 2) + min (a % 2) (b % 2)
bit_and-halves zero b = simp bit_and-bitwise (omega arith)
bit_and-halves (suc a) b =
    simp bit_and-bitwise (
      omega (arith, and_digits-count a (suc a / 2) (suc a / 2) (b / 2) (omega arith) (omega arith)))

and_digits-zero : (i a : ℕ) → and_digits i a 0 ≡ 0
and_digits-zero zero a = refl
and_digits-zero (suc i) zero = refl
and_digits-zero (suc i) (suc a) = omega (arith, and_digits-zero i (suc a / 2))

bit_and-zero : (a : ℕ) → bit_and a 0 ≡ 0
bit_and-zero a = simp bit_and-bitwise (and_digits-zero a a)

bit_and-twice : (mask a : ℕ) → bit_and a (2 * mask) ≡ 2 * bit_and (a / 2) mask
bit_and-twice mask a =
    let half : 2 * mask / 2 ≡ mask = omega arith in
    omega (arith, bit_and-halves a (2 * mask), ap (λ (m : ℕ). bit_and (a / 2) m) half)

-- A mask that is shifted to the left looks at the number shifted to the right.
pub bit_and-shifted : (k mask a : ℕ) → bit_and a (2 ^ k * mask) ≡ 2 ^ k * bit_and (a / 2 ^ k) mask
bit_and-shifted zero mask a =
    let same : 1 * mask ≡ mask = omega arith in
    let whole : a / 1 ≡ a = omega arith in rw (same, whole) (omega arith)
bit_and-shifted (suc k) mask a =
    rw
      (
        pow-succ' 2 k,
        mul_assoc 2 (2 ^ k) mask,
        bit_and-twice (2 ^ k * mask) a,
        bit_and-shifted k mask (a / 2),
        div-div-eq-div-mul a 2 (2 ^ k),
        mul_assoc 2 (2 ^ k) (bit_and (a / (2 * 2 ^ k)) mask),
      )
      refl

pub bit_and-one : (a : ℕ) → bit_and a 1 ≡ a % 2
bit_and-one a = omega (arith, bit_and-halves a 1, bit_and-zero (a / 2))

pub bit_and-fifteen : (a : ℕ) → bit_and a 15 ≡ a % 16
bit_and-fifteen a = omega (
  arith,
  bit_and-halves a 15,
  bit_and-halves (a / 2) 7,
  bit_and-halves (a / 2 / 2) 3,
  bit_and-one (a / 2 / 2 / 2),
)
