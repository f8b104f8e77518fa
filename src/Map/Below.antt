-- ===== src/Map/Below.antt =====
-- Maps of which one holds, under every key, what the other holds, as far as a relation keeps it.
use cphf.Base.{
  ℕ, ◌≡◌, refl, Bool, true, false, if◌then◌else◌, [], ◌∷◌, Option, none, some, ◌==◌, Bool-cases,
  inl, inr, arith,
}
use mathlib.Core.Path.{sym, subst}
use cphf.Base.Word.{int_rank}
use cphf.Map.{Map, insert, find, assign, int_less}
use cphf.Map.Laws.{find_same_rank, insert_keeps, find-assign}
use cphf.Map.Each.{Each}

module _ {V : Type 0} (R : V → V → Type 0) where
  -- What was found is found again, related to what it was.
  abbrev pub Follows : Option V → Option V → Type 0
  Follows none o = Unit
  Follows (some v) none = ⊥
  Follows (some v) (some w) = R v w

  follows :
      (o o' : Option V) → ((v : V) → o ≡ some v → (w : V) × (o' ≡ some w) × R v w) → Follows o o'
  follows none o' h = tt
  follows (some v) o' h = let (w, e, r) = h v refl in subst (λ x. Follows (some v) x) (sym e) r

  Follows-found :
      (o o' : Option V) (v : V) → Follows o o' → o ≡ some v → (w : V) × (o' ≡ some w) × R v w
  Follows-found none o' v h e = absurd (cc)
  Follows-found (some u) none v h e = absurd h
  Follows-found (some u) (some w) v h e = (w, refl, subst (λ x. R x w) (cc) h)

  abbrev pub Below : Map ℕ V → Map ℕ V → Type 0
  Below m m' = (k : ℕ) → Follows (find int_less k m) (find int_less k m')

  module _ (r : (v : V) → R v v) where
    pub Below-refl : (m : Map ℕ V) → Below m m
    Below-refl m k = follows _ _ λ v e. (v, e, r v)

    pub Below-insert : (k : ℕ) (v : V) (m : Map ℕ V) → Below m (insert int_less k v m)
    Below-insert k v m j = follows _ _ λ w e. (w, insert_keeps int_rank j k v w m e, r w)

    pub Below-assign :
        (k : ℕ) (v w : V) (m : Map ℕ V)
        → find int_less k m ≡ some v
        → R v w
        → Below m (assign int_less k w m)
    Below-assign k v w m h s j = follows _ _ λ u e. elim (Bool-cases (int_rank j == int_rank k)) [
      | inl same ↦ (
        w,
        rw (find-assign int_rank j k w v m h, same),
        subst (λ x. R x w) (ground (arith, find_same_rank int_rank j k m)) s,
      )
      | inr other ↦ (u, rw (find-assign int_rank j k w v m h, other, e), r u)
    ]

  pub Below-trans :
      ((a b c : V) → R a b → R b c → R a c)
      → (m₁ m₂ m₃ : Map ℕ V) → Below m₁ m₂
      → Below m₂ m₃
      → Below m₁ m₃
  Below-trans t m₁ m₂ m₃ h h' k = follows _ _ λ v e.
      let (w, e₁, r₁) = Follows-found (find int_less k m₁) _ v (h k) e in
      let (u, e₂, r₂) = Follows-found (find int_less k m₂) _ w (h' k) e₁ in (u, e₂, t v w u r₁ r₂)

  Follows-if :
      (b : Bool) (x y x' y' : Option V)
      → Follows x x'
      → Follows y y'
      → Follows (if b then x else y) (if b then x' else y')
  Follows-if true x y x' y' h h' = h
  Follows-if false x y x' y' h h' = h'

  -- A loop over a map leaves every key where it was.
  pub Each-Below : (m m' : Map ℕ V) → Each R m m' → Below m m'
  unfolding find
  Each-Below [] m' h k = tt
  Each-Below (e ∷ m) [] h k = absurd h
  Each-Below ((i, v) ∷ m) ((j, w) ∷ m') h k = rw h.0 (
      Follows-if (int_less i k) _ _ _ _ (Each-Below m m' h.2 k)
        (Follows-if (int_less k i) none (some v) none (some w) tt h.1))
