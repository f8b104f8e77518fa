-- ===== src/Map/Extensional.antt =====
-- Two sorted maps with the same value at every key are the same map.
use cphf.Base.{
  ℕ, ◌≡◌, ◌<◌, ◌≤◌, refl, sym, ◌∙◌, [], ◌∷◌, none, some, ltb, arith, All, Bool-cases, inl, inr, ◌^◌,
}
use cphf.Map.{Map, find}
use cphf.Map.Laws.{by_rank, Above, Above-weaken, IsSorted}
use mathlib.Core.Path.{subst}

module _ {V : Type 0} (rank : ℕ → ℕ) where
  find_head : (k : ℕ) (v : V) (m : Map ℕ V) → find (by_rank rank) k ((k, v) ∷ m) ≡ some v
  unfolding find
  find_head k v m = ground arith

  -- Below the keys of a map there is nothing to find.
  find-Above :
      (n k : ℕ) (m : Map ℕ V) → Above rank n m → rank k ≤ n → find (by_rank rank) k m ≡ none
  unfolding find
  find-Above n k [] h le = refl
  find-Above n k ((j, w) ∷ m) h le = ground arith

  abbrev Agree : Map ℕ V → Map ℕ V → Type 0
  Agree m m' = (k : ℕ) → find (by_rank rank) k m ≡ find (by_rank rank) k m'

  head_le :
      (k j : ℕ) (v w : V) (m m' : Map ℕ V)
      → IsSorted rank ((j, w) ∷ m')
      → Agree ((k, v) ∷ m) ((j, w) ∷ m')
      → rank j ≤ rank k
  head_le k j v w m m' s agree = elim (Bool-cases (ltb (rank k) (rank j))) [
    | inl e ↦
        let lt : rank k < rank j = ground arith in
        let above : Above rank (rank k) ((j, w) ∷ m') =
          (lt, Above-weaken rank (rank k) (rank j) m' (omega arith) s.0) in
        absurd (
          ground (
            arith,
            find_head k v m,
            agree k,
            find-Above (rank k) k ((j, w) ∷ m') above (omega arith),
          ))
    | inr e ↦ ground arith
  ]

  tail-Agree :
      (k : ℕ) (v w : V) (m m' : Map ℕ V)
      → IsSorted rank ((k, v) ∷ m)
      → IsSorted rank ((k, w) ∷ m')
      → Agree ((k, v) ∷ m) ((k, w) ∷ m')
      → Agree m m'
  unfolding find
  tail-Agree k v w m m' s s' agree i =
      ground (arith, agree i, find-Above (rank k) i m s.0, find-Above (rank k) i m' s'.0)

  pub ext :
      ((i j : ℕ) → i < 2 ^ 32 → j < 2 ^ 32 → rank i ≡ rank j → i ≡ j)
      → (m m' : Map ℕ V) → IsSorted rank m
      → IsSorted rank m'
      → All (λ e. e.0 < 2 ^ 32) m
      → All (λ e. e.0 < 2 ^ 32) m'
      → Agree m m'
      → m ≡ m'
  unfolding find
  ext inj [] [] s s' b b' agree = refl
  ext inj [] ((j, w) ∷ m') s s' b b' agree = absurd (ground (arith, agree j))
  ext inj ((k, v) ∷ m) [] s s' b b' agree = absurd (ground (arith, agree k))
  ext inj ((k, v) ∷ m) ((j, w) ∷ m') s s' b b' agree =
      let le : rank j ≤ rank k = head_le k j v w m m' s' agree in
      let ge : rank k ≤ rank j = head_le j k w v m' m s (λ i. sym (agree i)) in
      let e : k ≡ j = inj k j b.0 b'.0 (omega arith) in
      let agree' : Agree ((k, v) ∷ m) ((k, w) ∷ m') =
        subst (λ i. Agree ((k, v) ∷ m) ((i, w) ∷ m')) (sym e) agree in
      let s'' : IsSorted rank ((k, w) ∷ m') = subst (λ i. IsSorted rank ((i, w) ∷ m')) (sym e) s' in
      let tails : m ≡ m' = ext inj m m' s.1 s'.1 b.1 b'.1 (tail-Agree k v w m m' s s'' agree') in
      let heads : some v ≡ some w = sym (find_head k v m) ∙ agree' k ∙ find_head k w m' in cc
