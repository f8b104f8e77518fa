-- ===== src/Map/All.antt =====
-- A property of all values of a map, kept by the operations.
use cphf.Base.{
  ◌≡◌, Bool, [], ◌∷◌, some, arith, Run, Ensures, Ensures->>=, Ensures-ok, All, Bool-cases, inl, inr,
  Fault, Admits, Admits->>=,
}
use mathlib.Core.Path.{subst}
use cphf.Map.{Map, insert, find, assign, for_each}

abbrev pub AllValues {ℓ κ μ} : {K : Type ℓ} {V : Type κ} → (V → Type μ) → Map K V → Type μ
AllValues P [] = Unit
AllValues P ((k, v) ∷ m) = P v × AllValues P m

module _ {K V : Type 0} (P : V → Type 0) (less : K → K → Bool) where
  pub insert-AllValues :
      (k : K) (v : V) (m : Map K V) → P v → AllValues P m → AllValues P (insert less k v m)
  unfolding insert
  insert-AllValues k v [] p h = (p, tt)
  insert-AllValues k v ((j, w) ∷ m) p h = elim (Bool-cases (less j k)) [
    | inl e ↦ rw e (h.0, insert-AllValues k v m p h.1)
    | inr e ↦ elim (Bool-cases (less k j)) [ inl e' ↦ rw (e, e') (p, h) | inr e' ↦ rw (e, e') h ]
  ]

  pub assign-AllValues :
      (k : K) (v : V) (m : Map K V) → P v → AllValues P m → AllValues P (assign less k v m)
  unfolding assign
  assign-AllValues k v [] p h = tt
  assign-AllValues k v ((j, w) ∷ m) p h = elim (Bool-cases (less j k)) [
    | inl e ↦ rw e (h.0, assign-AllValues k v m p h.1)
    | inr e ↦ elim (Bool-cases (less k j)) [ inl e' ↦ rw (e, e') h | inr e' ↦ rw (e, e') (p, h.1) ]
  ]

  pub find-AllValues : (k : K) (m : Map K V) {v : V} → AllValues P m → find less k m ≡ some v → P v
  unfolding find
  find-AllValues k [] h e = absurd (cc)
  find-AllValues k ((j, w) ∷ m) {v} h e = elim (Bool-cases (less j k)) [
    | inl l ↦ find-AllValues k m h.1 (rw l at e)
    | inr l ↦ elim (Bool-cases (less k j)) [
      | inl l' ↦ absurd (ground arith)
      | inr l' ↦ subst P (ground arith) h.0
    ]
  ]

pub AllValues-weaken {ℓ κ μ ν} :
    {K : Type ℓ} {V : Type κ} {P : V → Type μ} {Q : V → Type ν} (m : Map K V)
    → ((v : V) → P v → Q v)
    → AllValues P m
    → AllValues Q m
AllValues-weaken [] f h = tt
AllValues-weaken ((k, v) ∷ m) f h = (f v h.0, AllValues-weaken m f h.1)

-- The same of the entries.
pub insert-All {ℓ κ μ} :
    {K : Type ℓ} {V : Type κ} (P : K × V → Type μ) (less : K → K → Bool) (k : K) (v : V)
    (m : Map K V)
    → P (k, v)
    → All P m
    → All P (insert less k v m)
unfolding insert
insert-All P less k v [] p h = (p, tt)
insert-All P less k v ((j, w) ∷ m) p h = elim (Bool-cases (less j k)) [
  | inl e ↦ rw e (h.0, insert-All P less k v m p h.1)
  | inr e ↦ elim (Bool-cases (less k j)) [ inl e' ↦ rw (e, e') (p, h) | inr e' ↦ rw (e, e') h ]
]

pub for_each-AllValues {ℓ κ μ} :
    {K : Type ℓ} {V : Type κ} (P Q : V → Type μ) (f : K → V → Run V) (m : Map K V)
    → ((k : K) (v : V) → P v → Ensures Q (f k v))
    → AllValues P m
    → Ensures (AllValues Q) (for_each f m)
unfolding for_each
for_each-AllValues P Q f [] h all = tt
for_each-AllValues P Q f ((k, v) ∷ m) h all = Ensures->>= (AllValues Q) (f k v) _ λ v' e.
    Ensures->>= (AllValues Q) (for_each f m) _ λ m' e'. (
      Ensures-ok Q (f k v) (h k v all.0) e,
      Ensures-ok (AllValues Q) (for_each f m) (for_each-AllValues P Q f m h all.1) e',
    )

pub for_each-Admits {ℓ κ} :
    (P : Fault → Type 0) {K : Type ℓ} {V : Type κ} (f : K → V → Run V) (m : Map K V)
    → ((k : K) (v : V) → Admits P (f k v))
    → Admits P (for_each f m)
unfolding for_each
for_each-Admits P f [] h = tt
for_each-Admits P f ((k, v) ∷ m) h =
    Admits->>= P (f k v) _ (h k v)
      λ v' e. Admits->>= P (for_each f m) _ (for_each-Admits P f m h) λ m' e'. tt
