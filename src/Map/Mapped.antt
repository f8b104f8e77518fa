-- ===== src/Map/Mapped.antt =====
-- A map of references, and the map of what they stand for.
use cphf.Base.{ℕ, ◌≡◌, ◌≢◌, refl, ◌∙◌, sym, [], ◌∷◌, some, Bool-cases, inl, inr, arith, Bool}
use cphf.Map.All.{AllValues, find-AllValues, insert-AllValues}
use cphf.Map.{Map, insert, find, assign}

unfoldable pub mapped : {V : Type 0} → (ℕ → V) → Map ℕ ℕ → Map ℕ V
mapped f [] = []
mapped f ((k, r) ∷ m) = (k, f r) ∷ mapped f m

-- No reference stands twice.
abbrev pub Distinct : Map ℕ ℕ → Type 0
Distinct [] = Unit
Distinct ((k, r) ∷ m) = AllValues (λ q. q ≢ r) m × Distinct m

module _ {V : Type 0} (f : ℕ → V) (less : ℕ → ℕ → Bool) where
  pub mapped-insert :
      (k r : ℕ) (m : Map ℕ ℕ) → mapped f (insert less k r m) ≡ insert less k (f r) (mapped f m)
  unfolding mapped insert
  mapped-insert k r [] = refl
  mapped-insert k r ((j, q) ∷ m) = elim (Bool-cases (less j k)) [
    | inl e ↦ rw (e, mapped-insert k r m) refl
    | inr e ↦ elim (Bool-cases (less k j)) [ inl e' ↦ rw (e, e') refl | inr e' ↦ rw (e, e') refl ]
  ]

  pub find-mapped :
      (k r : ℕ) (m : Map ℕ ℕ) → find less k m ≡ some r → find less k (mapped f m) ≡ some (f r)
  unfolding mapped find
  find-mapped k r [] h = cc
  find-mapped k r ((j, q) ∷ m) h = elim (Bool-cases (less j k)) [
    | inl e ↦ rw e (find-mapped k r m (rw e at h))
    | inr e ↦ elim (Bool-cases (less k j)) [ inl e' ↦ cc | inr e' ↦ rw (e, e') (cc) ]
  ]

-- References that stand for the same as before.
pub mapped-agree :
    {V : Type 0} (f f' : ℕ → V) (m : Map ℕ ℕ)
    → AllValues (λ r. f' r ≡ f r) m
    → mapped f' m ≡ mapped f m
unfolding mapped
mapped-agree f f' [] h = refl
mapped-agree f f' ((k, r) ∷ m) h = rw (h.0, mapped-agree f f' m h.1) refl

AllValues-zip :
    {P Q R : ℕ → Type 0} (m : Map ℕ ℕ)
    → ((r : ℕ) → P r → Q r → R r)
    → AllValues P m
    → AllValues Q m
    → AllValues R m
AllValues-zip [] f p q = tt
AllValues-zip ((k, r) ∷ m) f p q = (f r p.0 q.0, AllValues-zip m f p.1 q.1)

pub insert-Distinct :
    (less : ℕ → ℕ → Bool) (k r : ℕ) (m : Map ℕ ℕ)
    → AllValues (λ q. q ≢ r) m
    → Distinct m
    → Distinct (insert less k r m)
unfolding insert
insert-Distinct less k r [] new d = (tt, tt)
insert-Distinct less k r ((j, q) ∷ m) new d = elim (Bool-cases (less j k)) [
  | inl e ↦ rw e (
    insert-AllValues (λ p. p ≢ q) less k r m (λ eq. new.0 (sym eq)) d.0,
    insert-Distinct less k r m new.1 d.1,
  )
  | inr e ↦ elim (Bool-cases (less k j)) [ inl e' ↦ rw (e, e') (new, d) | inr e' ↦ rw (e, e') d ]
]

-- A reference that stands for something else, where all others stand for the same.
module _ {V : Type 0} (f f' : ℕ → V) (less : ℕ → ℕ → Bool) where
  pub mapped-assign :
      (k r : ℕ) (m : Map ℕ ℕ)
      → Distinct m
      → find less k m ≡ some r
      → AllValues (λ q. q ≢ r → f' q ≡ f q) m
      → mapped f' m ≡ assign less k (f' r) (mapped f m)
  unfolding mapped find assign
  mapped-assign k r [] d h same = cc
  mapped-assign k r ((j, q) ∷ m) d h same = elim (Bool-cases (less j k)) [
    | inl e ↦
        let deeper : find less k m ≡ some r = rw e at h in
        let other : r ≢ q = find-AllValues (λ p. p ≢ q) less k m d.0 deeper in
        rw (e, mapped-assign k r m d.1 deeper same.1, same.0 (λ eq. other (sym eq))) refl
    | inr e ↦ elim (Bool-cases (less k j)) [
      | inl e' ↦ cc
      | inr e' ↦
          let here : q ≡ r = ground arith in
          let others : mapped f' m ≡ mapped f m = mapped-agree f f' m (
            AllValues-zip m (λ p unlike agrees. agrees (λ eq. unlike (eq ∙ sym here))) d.0
              same.1) in
          rw (e, e', others, here) refl
    ]
  ]
