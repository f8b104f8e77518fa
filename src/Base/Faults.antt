-- ===== src/Base/Faults.antt =====
-- A run of the program either goes on with a value or ends in a fault: undefined behaviour, or an
-- exception that nothing catches.
use Prim.Native.Nat.{ℕ}
use mathlib.Core.Path.{◌≡◌, refl, subst}
use mathlib.Core.Logic.{◌⊎◌, inl, inr}
use mathlib.Core.Bool.{Bool, true, false}
use cphf.Base.Tests.{if◌then◌else◌}

pub data Fault : Type 0 where
  -- a null pointer is followed
  null_pointer : Fault
  -- a variable is read that nothing has set
  indeterminate : Fault
  -- a text is longer than the buffer that it is written to
  buffer_overflow : Fault
  -- a number does not fit the type that it is converted to
  bad_number : Fault
  -- `std::out_of_range`, which `main` does not catch
  out_of_range : Fault
  -- an option has no case: the error line for it is printed, then an attribute with no id is used
  bad_option : ℕ → Fault

pub data Run {ℓ} (A : Type ℓ) : Type ℓ where
  ok : A → Run A
  fault : Fault → Run A

infixl 5 ◌>>=◌
abbrev pub ◌>>=◌ {ℓ κ} : {A : Type ℓ} {B : Type κ} → Run A → (A → Run B) → Run B
ok a >>= f = f a
fault e >>= f = fault e

pub Run-cases {ℓ} :
    {A : Type ℓ} (r : Run A) → ((a : A) × (r ≡ ok a)) ⊎ ((e : Fault) × (r ≡ fault e))
Run-cases (ok a) = inl (a, refl)
Run-cases (fault e) = inr (e, refl)

-- What a bind returned, its first step returned before.
pub >>=-eq-ok {ℓ κ} :
    {A : Type ℓ} {B : Type κ} (first : Run A) (then_run : A → Run B) {result : B}
    → (first >>= then_run) ≡ ok result
    → (value : A) × (first ≡ ok value) × (then_run value ≡ ok result)
>>=-eq-ok (ok value) then_run h = (value, refl, h)
>>=-eq-ok (fault e) then_run h = cc

pub >>=-congr {ℓ κ} :
    {A : Type ℓ} {B : Type κ} (m : Run A) (f g : A → Run B)
    → ((a : A) → f a ≡ g a)
    → (m >>= f) ≡ (m >>= g)
>>=-congr (ok a) f g h = h a
>>=-congr (fault e) f g h = refl

-- What holds of the value that a run returns, if it returns one.
abbrev pub Ensures {ℓ κ} : {A : Type ℓ} → (A → Type κ) → Run A → Type κ
Ensures P (ok a) = P a
Ensures P (fault e) = Unit

pub Ensures->>= {ℓ κ μ} :
    {A : Type ℓ} {B : Type κ} (Q : B → Type μ) (m : Run A) (f : A → Run B)
    → ((a : A) → m ≡ ok a → Ensures Q (f a))
    → Ensures Q (m >>= f)
Ensures->>= Q (ok a) f h = h a refl
Ensures->>= Q (fault e) f h = tt

pub Ensures-ok {ℓ κ} :
    {A : Type ℓ} (P : A → Type κ) (m : Run A) {a : A} → Ensures P m → m ≡ ok a → P a
Ensures-ok P (ok b) {a} h e = subst P (cc) h
Ensures-ok P (fault x) h e = absurd (cc)

pub ensures {ℓ κ} :
    {A : Type ℓ} (P : A → Type κ) (m : Run A) → ((a : A) → m ≡ ok a → P a) → Ensures P m
ensures P (ok a) h = h a refl
ensures P (fault e) h = tt

-- Both branches of a conditional.
pub Ensures-if {ℓ κ} :
    {A : Type ℓ} (P : A → Type κ) (b : Bool) (x y : Run A)
    → Ensures P x
    → Ensures P y
    → Ensures P (if b then x else y)
Ensures-if P true x y h k = h
Ensures-if P false x y h k = k

pub Ensures-when {ℓ κ} :
    {A : Type ℓ} (P : A → Type κ) (b : Bool) (x y : Run A)
    → (b ≡ true → Ensures P x)
    → Ensures P y
    → Ensures P (if b then x else y)
Ensures-when P true x y h k = h refl
Ensures-when P false x y h k = k

-- A run that ends in a fault, if at all, in one of which `P` holds.
abbrev pub Admits {ℓ} : (Fault → Type 0) → {A : Type ℓ} → Run A → Type 0
Admits P (ok a) = Unit
Admits P (fault e) = P e

pub Admits->>= {ℓ κ} :
    (P : Fault → Type 0) {A : Type ℓ} {B : Type κ} (m : Run A) (f : A → Run B)
    → Admits P m
    → ((a : A) → m ≡ ok a → Admits P (f a))
    → Admits P (m >>= f)
Admits->>= P (ok a) f h k = k a refl
Admits->>= P (fault e) f h k = h

pub Admits-if {ℓ} :
    (P : Fault → Type 0) {A : Type ℓ} (b : Bool) (x y : Run A)
    → Admits P x
    → Admits P y
    → Admits P (if b then x else y)
Admits-if P true x y h k = h
Admits-if P false x y h k = k

pub Admits-when {ℓ} :
    (P : Fault → Type 0) {A : Type ℓ} (b : Bool) (x y : Run A)
    → (b ≡ true → Admits P x)
    → Admits P y
    → Admits P (if b then x else y)
Admits-when P true x y h k = h refl
Admits-when P false x y h k = k

-- A run that admits no fault succeeds.
abbrev pub NoFault : Fault → Type 0
NoFault e = ⊥

pub Admits-NoFault {ℓ} : {A : Type ℓ} (m : Run A) → Admits NoFault m → (a : A) × (m ≡ ok a)
Admits-NoFault (ok a) h = (a, refl)
Admits-NoFault (fault e) h = absurd h

pub ok-injective {ℓ} : {A : Type ℓ} (a b : A) → ok a ≡ ok b → a ≡ b
ok-injective a b h = cc
