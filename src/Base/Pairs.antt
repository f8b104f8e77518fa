-- ===== src/Base/Pairs.antt =====
-- Two runs of which both return, with related values, or both end in the same fault.
use mathlib.Core.Path.{◌≡◌, refl, subst}
use mathlib.Core.Bool.{Bool, true, false}
use cphf.Base.Tests.{if◌then◌else◌}
use cphf.Base.Faults.{Run, ok, fault, ◌>>=◌, ok-injective}

abbrev pub Matches {ℓ κ} : {A : Type ℓ} {B : Type κ} → (A → B → Type 0) → Run A → Run B → Type 0
Matches R (ok a) (ok b) = R a b
Matches R (ok a) (fault e) = ⊥
Matches R (fault e) (ok b) = ⊥
Matches R (fault e) (fault e') = e ≡ e'

pub Matches-if {ℓ κ} :
    {A : Type ℓ} {B : Type κ} (R : A → B → Type 0) (b : Bool) (x y : Run A) (x' y' : Run B)
    → Matches R x x'
    → Matches R y y'
    → Matches R (if b then x else y) (if b then x' else y')
Matches-if R true x y x' y' h k = h
Matches-if R false x y x' y' h k = k

pub Matches->>= {ℓ ℓ' κ κ'} :
    {A : Type ℓ} {A' : Type ℓ'} {B : Type κ} {B' : Type κ'} (R : A → A' → Type 0)
    (S : B → B' → Type 0) (m : Run A) (m' : Run A') (f : A → Run B) (f' : A' → Run B')
    → Matches R m m'
    → ((a : A) (a' : A') → R a a' → Matches S (f a) (f' a'))
    → Matches S (m >>= f) (m' >>= f')
Matches->>= R S (ok a) (ok a') f f' h k = k a a' h
Matches->>= R S (ok a) (fault e) f f' h k = absurd h
Matches->>= R S (fault e) (ok a') f f' h k = absurd h
Matches->>= R S (fault e) (fault e') f f' h k = h

-- Equal runs match where the relation is reflexive.
pub Matches-refl {ℓ} :
    {A : Type ℓ} (R : A → A → Type 0) (m : Run A) → ((a : A) → R a a) → Matches R m m
Matches-refl R (ok a) r = r a
Matches-refl R (fault e) r = refl

pub Matches-eq : {A : Type 0} (m m' : Run A) → Matches (λ (a b : A). a ≡ b) m m' → m ≡ m'
Matches-eq (ok a) (ok b) h = cc
Matches-eq (ok a) (fault e) h = absurd h
Matches-eq (fault e) (ok b) h = absurd h
Matches-eq (fault e) (fault e') h = cc

pub Matches-map {ℓ κ} :
    {A A' : Type ℓ} {B : Type κ} (R : A → A' → Type 0) (S : A → B → Type 0) (m : Run A)
    (m' : Run A') (f : A' → B)
    → Matches R m m'
    → ((a : A) (a' : A') → R a a' → S a (f a'))
    → Matches S m (m' >>= λ a'. ok (f a'))
Matches-map R S (ok a) (ok a') f h k = k a a' h
Matches-map R S (ok a) (fault e) f h k = absurd h
Matches-map R S (fault e) (ok a') f h k = absurd h
Matches-map R S (fault e) (fault e') f h k = h

-- What matches a run that returns, returns.
pub Matches-ok :
    {A B : Type 0} (R : A → B → Type 0) (m : Run A) (m' : Run B) {a : A}
    → Matches R m m'
    → m ≡ ok a
    → (b : B) × (m' ≡ ok b) × R a b
Matches-ok R (ok a) (ok b) h e = (b, refl, subst (λ x. R x b) (ok-injective a _ e) h)
Matches-ok R (ok a) (fault x) h e = absurd h
Matches-ok R (fault x) m' h e = absurd (cc)

pub Matches-map_left {ℓ κ} :
    {A B : Type ℓ} {A' : Type κ} (R : A → A' → Type 0) (S : B → A' → Type 0) (m : Run A)
    (m' : Run A') (f : A → B)
    → Matches R m m'
    → ((a : A) (a' : A') → R a a' → S (f a) a')
    → Matches S (m >>= λ a. ok (f a)) m'
Matches-map_left R S (ok a) (ok a') f h k = k a a' h
Matches-map_left R S (ok a) (fault e) f h k = absurd h
Matches-map_left R S (fault e) (ok a') f h k = absurd h
Matches-map_left R S (fault e) (fault e') f h k = h

-- Runs that begin alike.
pub Matches-bind {ℓ κ μ} :
    {A : Type ℓ} {B : Type κ} {B' : Type μ} (S : B → B' → Type 0) (m : Run A) (f : A → Run B)
    (f' : A → Run B')
    → ((a : A) → m ≡ ok a → Matches S (f a) (f' a))
    → Matches S (m >>= f) (m >>= f')
Matches-bind S (ok a) f f' h = h a refl
Matches-bind S (fault e) f f' h = refl
