-- ===== src/Reader/Device/Fuel.antt =====
-- The rounds of the loop of `buildDeviceMap` in src/CPHFReader.cpp.
use cphf.Base.{
  ℕ, zero, suc, ◌+◌, ◌*◌, ◌-◌, ◌^◌, ◌<◌, ◌≤◌, ◌≡◌, refl, Bool, true, false, ◌&&◌, [], ◌∷◌, Option,
  none, some, ltb, ◌==◌, if◌then◌else◌, arith, Run, ok, fault, ◌>>=◌, length, drop, Bool-cases, inl,
  inr, ap, sym, ◌∙◌,
}
use cphf.Text.Space.{length-skip_space}
use cphf.Text.{Text, is_space, is_digit, skip_space, read_digits}
use cphf.Reader.Device.{
  DeviceMap, Driver, take_word, read_word, read_char, read_magnitude, read_signed, read_number,
  negate, ◌>>?◌, read_minors, take_label, take_name, read_driver, add_driver, build_step,
  build_loop, ◌>>?◌,
}

-- What is left behind a value that was read is at most `n` long.
abbrev Leaves {ℓ} : {A : Type ℓ} → ℕ → Option (A × Text) → Type 0
Leaves n none = Unit
Leaves n (some (a, rest)) = length rest ≤ n

Leaves-weaken {ℓ} : {A : Type ℓ} (m n : ℕ) (o : Option (A × Text)) → m ≤ n → Leaves m o → Leaves n o
Leaves-weaken m n none k h = tt
Leaves-weaken m n (some (a, rest)) k h = omega arith

-- Reading on from there.
Leaves-then {ℓ κ} :
    {A : Type ℓ} {B : Type κ} (n : ℕ) (o : Option (A × Text)) (f : A → Text → Option (B × Text))
    → Leaves n o
    → ((a : A) (rest : Text) → length rest ≤ n → Leaves n (f a rest))
    → Leaves n (o >>? f)
Leaves-then n none f h k = tt
Leaves-then n (some (a, rest)) f h k = k a rest h

length-take_word : (s : Text) → length (take_word s).1 ≤ length s
unfolding take_word
length-take_word [] = omega arith
length-take_word (c ∷ s) = elim (Bool-cases (is_space c)) [
  | inl e ↦ rw e (omega arith)
  | inr e ↦ rw e (omega (arith, length-take_word s))
]

length-read_digits : (n : ℕ) (s : Text) → length (read_digits n s).1 ≤ length s
unfolding read_digits
length-read_digits n [] = omega arith
length-read_digits n (c ∷ s) = elim (Bool-cases (is_digit c)) [
  | inl e ↦ rw e (omega (arith, length-read_digits (n * 10 + (c - b'0')) s))
  | inr e ↦ rw e (omega arith)
]

word-Leaves :
    (t : Text) (n : ℕ)
    → length t ≤ n
    → Leaves n (elim t [ [] ↦ none | c ∷ u ↦ some (take_word (c ∷ u)) ])
word-Leaves [] n h = tt
word-Leaves (c ∷ t) n h = omega (arith, length-take_word (c ∷ t))

read_word-Leaves : (s : Text) → Leaves (length s) (read_word s)
unfolding read_word
read_word-Leaves s = word-Leaves (skip_space s) (length s) (length-skip_space s)

char-Leaves :
    (t : Text) (n : ℕ) → length t ≤ n → Leaves n (elim t [ [] ↦ none | c ∷ u ↦ some (c, u) ])
char-Leaves [] n h = tt
char-Leaves (c ∷ t) n h = omega arith

read_char-Leaves : (s : Text) → Leaves (length s) (read_char s)
unfolding read_char
read_char-Leaves s = char-Leaves (skip_space s) (length s) (length-skip_space s)

read_magnitude-Leaves : (s : Text) → Leaves (length s) (read_magnitude s)
unfolding read_magnitude
read_magnitude-Leaves [] = tt
read_magnitude-Leaves (c ∷ s) =
    elim (Bool-cases (is_digit c && ltb (read_digits 0 (c ∷ s)).0 (2 ^ 64))) [
      | inl e ↦ rw e (length-read_digits 0 (c ∷ s))
      | inr e ↦ rw e tt
    ]

one_more : (s : Text) → Leaves (suc (length s)) (read_magnitude s)
one_more s =
    Leaves-weaken (length s) (suc (length s)) (read_magnitude s) (omega arith)
      (read_magnitude-Leaves s)

negate-Leaves : (o : Option (ℕ × Text)) (n : ℕ) → Leaves n o → Leaves n (negate o)
unfolding negate
negate-Leaves none n h = tt
negate-Leaves (some (k, rest)) n h = h

read_signed-Leaves : (s : Text) → Leaves (length s) (read_signed s)
unfolding read_signed
read_signed-Leaves [] = tt
read_signed-Leaves (c ∷ s) = elim (Bool-cases (c == b'-')) [
  | inl e ↦ rw e (negate-Leaves (read_magnitude s) (suc (length s)) (one_more s))
  | inr e ↦ rw e (elim (Bool-cases (c == b'+')) [
    | inl e' ↦ rw e' (one_more s)
    | inr e' ↦ rw e' (read_magnitude-Leaves (c ∷ s))
  ])
]

read_number-Leaves : (s : Text) → Leaves (length s) (read_number s)
unfolding read_number
read_number-Leaves s =
    Leaves-weaken (length (skip_space s)) (length s) (read_signed (skip_space s))
      (length-skip_space s) (read_signed-Leaves (skip_space s))

-- Each part of a line in turn, from a text of at most `n` bytes.
word-within : (n : ℕ) (s : Text) → length s ≤ n → Leaves n (read_word s)
word-within n s h = Leaves-weaken (length s) n (read_word s) h (read_word-Leaves s)

char-within : (n : ℕ) (s : Text) → length s ≤ n → Leaves n (read_char s)
char-within n s h = Leaves-weaken (length s) n (read_char s) h (read_char-Leaves s)

number-within : (n : ℕ) (s : Text) → length s ≤ n → Leaves n (read_number s)
number-within n s h = Leaves-weaken (length s) n (read_number s) h (read_number-Leaves s)

max-within :
    (n min : ℕ) (b : Bool) (s : Text)
    → length s ≤ n
    → Leaves n (if b then read_number s else some (min, s))
max-within n min true s h = number-within n s h
max-within n min false s h = h

minors-within : (n : ℕ) (label s : Text) → length s ≤ n → Leaves n (read_minors label s)
unfolding read_minors
minors-within n label s h = Leaves-then n (read_number s) _ (number-within n s h) λ major s₁ h₁.
    Leaves-then n (read_number s₁) _ (number-within n s₁ h₁) λ min s₂ h₂.
      Leaves-then n (read_char s₂) _ (char-within n s₂ h₂) λ check s₃ h₃.
        Leaves-then n _ _ (max-within n min (check == b'-') s₃ h₃)
          λ max s₄ h₄. Leaves-then n (read_word s₄) _ (word-within n s₄ h₄) λ kind s₅ h₅. h₅

-- A word takes a byte at least.
skip_space_head : (s : Text) (c : ℕ) (t : Text) → skip_space s ≡ c ∷ t → is_space c ≡ false
unfolding skip_space
skip_space_head [] c t h = absurd (cc)
skip_space_head (d ∷ s) c t h = elim (Bool-cases (is_space d)) [
  | inl e ↦ skip_space_head s c t (rw e at h)
  | inr e ↦
      let g : (d ∷ s) ≡ (c ∷ t) = rw e at h in
      let same : d ≡ c = cc in ap (λ x. is_space x) (sym same) ∙ e
]

abbrev Shorter : Text → Option (Text × Text) → Type 0
Shorter s none = Unit
Shorter s (some (w, rest)) = length rest < length s

word_shrinks :
    (s t : Text)
    → skip_space s ≡ t
    → Shorter s (elim t [ [] ↦ none | c ∷ u ↦ some (take_word (c ∷ u)) ])
unfolding take_word
word_shrinks s [] h = tt
word_shrinks s (c ∷ t) h =
    rw (skip_space_head s c t h)
      (omega (arith, length-take_word t, length-skip_space s, ap (λ (x : Text). length x) h))

read_word_shrinks : (s : Text) → Shorter s (read_word s)
unfolding read_word
read_word_shrinks s = word_shrinks s (skip_space s) refl

abbrev Ends : ℕ → Run (Option (Driver × Text)) → Type 0
Ends n (ok o) = Leaves n o
Ends n (fault e) = Unit

label-Ends : (n : ℕ) (o : Option (Text × Text)) → Leaves n o → Ends n (take_label o)
unfolding take_label
label-Ends n none h = tt
label-Ends n (some (device, s)) h = elim (Bool-cases (ltb (length device) 5)) [
  | inl e ↦ rw e tt
  | inr e ↦ rw e (minors-within n (drop 5 device) s h)
]

name-Ends :
    (n : ℕ) (s : Text) (o : Option (Text × Text))
    → length s ≤ suc n
    → Shorter s o
    → Ends n (take_name o)
unfolding take_name
name-Ends n s none h k = tt
name-Ends n s (some (name, rest)) h k =
    label-Ends n (read_word rest) (word-within n rest (omega arith))

read_driver-Ends : (n : ℕ) (s : Text) → length s ≤ suc n → Ends n (read_driver s)
unfolding read_driver
read_driver-Ends n s h = name-Ends n s (read_word s) h (read_word_shrinks s)

step-congr :
    (n : ℕ) (devices : DeviceMap) (f g : Text → DeviceMap → Run DeviceMap)
    (o : Option (Driver × Text))
    → Leaves n o
    → ((rest : Text) (m : DeviceMap) → length rest ≤ n → f rest m ≡ g rest m)
    → build_step devices f o ≡ build_step devices g o
unfolding build_step
step-congr n devices f g none h same = refl
step-congr n devices f g (some (d, rest)) h same = same rest (add_driver d devices) h

round-congr :
    (n : ℕ) (devices : DeviceMap) (f g : Text → DeviceMap → Run DeviceMap)
    (r : Run (Option (Driver × Text)))
    → Ends n r
    → ((rest : Text) (m : DeviceMap) → length rest ≤ n → f rest m ≡ g rest m)
    → (r >>= build_step devices f) ≡ (r >>= build_step devices g)
round-congr n devices f g (ok o) h same = step-congr n devices f g o h same
round-congr n devices f g (fault e) h same = refl

-- The fuel of the loop bounds its rounds and nothing else: once there is a unit for each byte of the
-- file and one more, any further fuel is left over, whatever the file holds.
pub build_loop-fuel :
    (fuel more : ℕ) (s : Text) (devices : DeviceMap)
    → length s < fuel
    → length s < more
    → build_loop fuel s devices ≡ build_loop more s devices
unfolding build_loop
build_loop-fuel zero more s devices h k = elim h [ ]
build_loop-fuel (suc fuel) zero s devices h k = elim k [ ]
build_loop-fuel (suc fuel) (suc more) [] devices h k =
    unfold read_driver take_name read_word skip_space build_step in refl
build_loop-fuel (suc fuel) (suc more) (c ∷ s) devices h k =
    round-congr (length s) devices (build_loop fuel) (build_loop more) (read_driver (c ∷ s))
      (read_driver-Ends (length s) (c ∷ s) (omega arith))
      λ rest m shorter. build_loop-fuel fuel more rest m (omega arith) (omega arith)
