-- ===== src/Map/Each.antt =====
-- Two maps with the same keys, their values related: what a loop over a map leaves.
use cphf.Base.{
  ok, >>=-eq-ok, ok-injective, ◌≡◌, refl, ◌∙◌, [], ◌∷◌, Run, Ensures, Ensures->>=, Ensures-ok, Any,
  inl, inr,
}
use mathlib.Core.Path.{subst}
use cphf.Map.{Map, keys, for_each}

module _ {K V : Type 0} (R : V → V → Type 0) where
  abbrev pub Each : Map K V → Map K V → Type 0
  Each [] [] = Unit
  Each [] (e ∷ m') = ⊥
  Each (e ∷ m) [] = ⊥
  Each ((k, v) ∷ m) ((j, w) ∷ m') = (j ≡ k) × R v w × Each m m'

  pub Each-refl : ((v : V) → R v v) → (m : Map K V) → Each m m
  Each-refl r [] = tt
  Each-refl r ((k, v) ∷ m) = (refl, r v, Each-refl r m)

  pub Each-trans :
      ((a b c : V) → R a b → R b c → R a c)
      → (m₁ m₂ m₃ : Map K V) → Each m₁ m₂
      → Each m₂ m₃
      → Each m₁ m₃
  Each-trans t [] [] [] h h' = tt
  Each-trans t [] [] (e ∷ m₃) h h' = absurd h'
  Each-trans t [] (e ∷ m₂) m₃ h h' = absurd h
  Each-trans t (e ∷ m₁) [] m₃ h h' = absurd h
  Each-trans t (e ∷ m₁) (e' ∷ m₂) [] h h' = absurd h'
  Each-trans t ((k₁, v₁) ∷ m₁) ((k₂, v₂) ∷ m₂) ((k₃, v₃) ∷ m₃) h h' =
      (h'.0 ∙ h.0, t v₁ v₂ v₃ h.1 h'.1, Each-trans t m₁ m₂ m₃ h.2 h'.2)

  pub for_each-Each :
      (f : K → V → Run V) (m : Map K V)
      → ((k : K) (v : V) → Ensures (R v) (f k v))
      → Ensures (Each m) (for_each f m)
  unfolding for_each
  for_each-Each f [] h = tt
  for_each-Each f ((k, v) ∷ m) h = Ensures->>= (Each ((k, v) ∷ m)) (f k v) _ λ v' e.
      Ensures->>= (Each ((k, v) ∷ m)) (for_each f m) _ λ m' e'. (
        refl,
        Ensures-ok (R v) (f k v) (h k v) e,
        Ensures-ok (Each m) (for_each f m) (for_each-Each f m h) e',
      )

  pub Each-keys : (m m' : Map K V) → Each m m' → keys m' ≡ keys m
  unfolding keys
  Each-keys [] [] h = refl
  Each-keys [] (e ∷ m') h = absurd h
  Each-keys (e ∷ m) [] h = absurd h
  Each-keys ((k, v) ∷ m) ((j, w) ∷ m') h = rw (h.0, Each-keys m m' h.2)

  -- What is among the values stays there, as far as the relation keeps it.
  pub Each-Any :
      (P Q : V → Type 0) (m m' : Map K V)
      → ((v w : V) → R v w → P v → Q w)
      → Each m m'
      → Any (λ e. P e.1) m
      → Any (λ e. Q e.1) m'
  Each-Any P Q [] m' t h a = absurd a
  Each-Any P Q (e ∷ m) [] t h a = absurd h
  Each-Any P Q ((k, v) ∷ m) ((j, w) ∷ m') t h (inl p) = inl (t v w h.1 p)
  Each-Any P Q ((k, v) ∷ m) ((j, w) ∷ m') t h (inr a) = inr (Each-Any P Q m m' t h.2 a)

pub Each-weaken :
    {K V : Type 0} (R S : V → V → Type 0) (m m' : Map K V)
    → ((v w : V) → R v w → S v w)
    → Each R m m'
    → Each S m m'
Each-weaken R S [] [] t h = tt
Each-weaken R S [] (e ∷ m') t h = absurd h
Each-weaken R S (e ∷ m) [] t h = absurd h
Each-weaken R S ((k, v) ∷ m) ((j, w) ∷ m') t h = (h.0, t v w h.1, Each-weaken R S m m' t h.2)

-- What the loop makes of an entry is among the values that it leaves.
pub for_each-Any :
    {K V : Type 0} (P : K × V → Type 0) (Q : V → Type 0) (f : K → V → Run V) (m : Map K V)
    {m' : Map K V}
    → ((k : K) (v v' : V) → P (k, v) → f k v ≡ ok v' → Q v')
    → for_each f m ≡ ok m'
    → Any P m
    → Any (λ e. Q e.1) m'
unfolding for_each
for_each-Any P Q f [] gives e h = absurd h
for_each-Any P Q f ((k, v) ∷ m) gives e h =
    let (v₁, e₁, more) = >>=-eq-ok (f k v) _ e in
    let (m₁, e₂, done) = >>=-eq-ok (for_each f m) _ more in
    subst (Any (λ e. Q e.1)) (ok-injective _ _ done) (elim h [
      | inl here ↦ inl (gives k v v₁ here e₁)
      | inr there ↦ inr (for_each-Any P Q f m gives e₂ there)
    ])
