-- ===== src/Map/Laws.antt =====
-- The maps behave as finite functions from keys to values.
use cphf.Base.{
  ℕ, ◌<◌, ◌≤◌, ◌≡◌, refl, Bool, [], ◌∷◌, Option, none, some, ltb, ◌==◌, ==_refl, if◌then◌else◌,
  arith, inl, inr, ◌⊎◌, Any, Bool-cases,
}
use cphf.Map.{Map, insert, find, assign, insert_hash, find_hash}

abbrev pub or_else {ℓ} : {V : Type ℓ} → Option V → V → V
or_else none v = v
or_else (some w) v = w

abbrev pub by_rank : (ℕ → ℕ) → ℕ → ℕ → Bool
by_rank rank a b = ltb (rank a) (rank b)

module _ {V : Type 0} (rank : ℕ → ℕ) where
  pub find-insert :
      (j k : ℕ) (v : V) (m : Map ℕ V)
      → find (by_rank rank) j (insert (by_rank rank) k v m) ≡ (
          if rank j == rank k
          then some (or_else (find (by_rank rank) k m) v)
          else find (by_rank rank) j m)
  unfolding find insert
  find-insert j k v [] = ground arith
  find-insert j k v ((i, w) ∷ m) = ground (arith, find-insert j k v m)

  pub find_same_rank :
      (j k : ℕ) (m : Map ℕ V) → rank j ≡ rank k → find (by_rank rank) j m ≡ find (by_rank rank) k m
  unfolding find
  find_same_rank j k [] h = refl
  find_same_rank j k ((i, w) ∷ m) h = ground (arith, find_same_rank j k m h)

  -- What an insertion does not touch, it keeps; what is new comes from it.
  pub insert_keeps :
      (j k : ℕ) (v w : V) (m : Map ℕ V)
      → find (by_rank rank) j m ≡ some w
      → find (by_rank rank) j (insert (by_rank rank) k v m) ≡ some w
  insert_keeps j k v w m h = ground (arith, find-insert j k v m, find_same_rank j k m)

  pub insert_origin :
      (j k : ℕ) (v w : V) (m : Map ℕ V)
      → find (by_rank rank) j (insert (by_rank rank) k v m) ≡ some w
      → (find (by_rank rank) j m ≡ some w) ⊎ ((rank j ≡ rank k) × (w ≡ v))
  insert_origin j k v w m h = ground (arith, find-insert j k v m, find_same_rank j k m)

  pub insert_finds :
      (k : ℕ) (v : V) (m : Map ℕ V)
      → find (by_rank rank) k (insert (by_rank rank) k v m)
        ≡ some (or_else (find (by_rank rank) k m) v)
  insert_finds k v m = rw (find-insert k k v m, ==_refl (rank k))

  pub find-assign :
      (j k : ℕ) (v w : V) (m : Map ℕ V)
      → find (by_rank rank) k m ≡ some w
      → find (by_rank rank) j (assign (by_rank rank) k v m)
        ≡ (if rank j == rank k then some v else find (by_rank rank) j m)
  unfolding find assign
  find-assign j k v w [] h = cc
  find-assign j k v w ((i, u) ∷ m) h = ground (arith, find-assign j k v w m)

  -- A key is found where it was just written, or just put in.
  pub find-insert_fresh :
      (k : ℕ) (v : V) (m : Map ℕ V)
      → find (by_rank rank) k m ≡ none
      → find (by_rank rank) k (insert (by_rank rank) k v m) ≡ some v
  find-insert_fresh k v m h = rw (find-insert k k v m, ==_refl (rank k), h)

  pub find-assign_self :
      (k : ℕ) (v w : V) (m : Map ℕ V)
      → find (by_rank rank) k m ≡ some w
      → find (by_rank rank) k (assign (by_rank rank) k v m) ≡ some v
  find-assign_self k v w m h = rw (find-assign k k v w m h, ==_refl (rank k))

  pub assign-assign :
      (k : ℕ) (v w : V) (m : Map ℕ V)
      → assign (by_rank rank) k v (assign (by_rank rank) k w m) ≡ assign (by_rank rank) k v m
  unfolding assign
  assign-assign k v w [] = refl
  assign-assign k v w ((i, u) ∷ m) = ground (arith, assign-assign k v w m)

  pub assign_found :
      (k : ℕ) (v : V) (m : Map ℕ V)
      → find (by_rank rank) k m ≡ some v
      → assign (by_rank rank) k v m ≡ m
  unfolding assign find
  assign_found k v [] h = refl
  assign_found k v ((i, u) ∷ m) h = ground (arith, assign_found k v m)

  pub assign-insert :
      (k : ℕ) (v w : V) (m : Map ℕ V)
      → find (by_rank rank) k m ≡ none
      → assign (by_rank rank) k v (insert (by_rank rank) k w m) ≡ insert (by_rank rank) k v m
  unfolding assign insert find
  assign-insert k v w [] h = ground arith
  assign-insert k v w ((i, u) ∷ m) h = ground (arith, assign-insert k v w m)

  -- Every key of `m` has a place above `n`.
  abbrev pub Above : ℕ → Map ℕ V → Type 0
  Above n [] = Unit
  Above n ((k, v) ∷ m) = (n < rank k) × Above n m

  abbrev pub IsSorted : Map ℕ V → Type 0
  IsSorted [] = Unit
  IsSorted ((k, v) ∷ m) = Above (rank k) m × IsSorted m

  pub Above-weaken : (a b : ℕ) (m : Map ℕ V) → a ≤ b → Above b m → Above a m
  Above-weaken a b [] h s = tt
  Above-weaken a b ((k, v) ∷ m) h s = (omega arith, Above-weaken a b m h s.1)

  insert-Above :
      (n k : ℕ) (v : V) (m : Map ℕ V)
      → n < rank k
      → Above n m
      → Above n (insert (by_rank rank) k v m)
  unfolding insert
  insert-Above n k v [] h s = (h, tt)
  insert-Above n k v ((i, w) ∷ m) h s = ground (arith, insert-Above n k v m h s.1)

  pub insert-IsSorted :
      (k : ℕ) (v : V) (m : Map ℕ V) → IsSorted m → IsSorted (insert (by_rank rank) k v m)
  unfolding insert
  insert-IsSorted k v [] s = (tt, tt)
  insert-IsSorted k v ((i, w) ∷ m) s = ground (
    arith,
    insert-IsSorted k v m s.1,
    insert-Above (rank i) k v m,
    Above-weaken (rank k) (rank i) m,
  )

  assign-Above : (n k : ℕ) (v : V) (m : Map ℕ V) → Above n m → Above n (assign (by_rank rank) k v m)
  unfolding assign
  assign-Above n k v [] s = tt
  assign-Above n k v ((i, w) ∷ m) s = ground (arith, assign-Above n k v m s.1)

  pub assign-IsSorted :
      (k : ℕ) (v : V) (m : Map ℕ V) → IsSorted m → IsSorted (assign (by_rank rank) k v m)
  unfolding assign
  assign-IsSorted k v [] s = tt
  assign-IsSorted k v ((i, w) ∷ m) s =
      ground (arith, assign-IsSorted k v m s.1, assign-Above (rank i) k v m)

pub find_hash-insert_hash {ℓ} :
    {V : Type ℓ} (j k : ℕ) (v : V) (m : Map ℕ V)
    → find_hash j (insert_hash (k, v) m)
      ≡ (if j == k then some (or_else (find_hash k m) v) else find_hash j m)
unfolding find_hash insert_hash
find_hash-insert_hash j k v [] = ground arith
find_hash-insert_hash j k v ((i, w) ∷ m) = ground (arith, find_hash-insert_hash j k v m)

-- What is found is one of the values.
pub find-Any {ℓ} :
    {K : Type ℓ} {V : Type 0} (less : K → K → Bool) (k : K) (v : V) (m : Map K V)
    → find less k m ≡ some v
    → Any (λ e. e.1 ≡ v) m
unfolding find
find-Any less k v [] h = absurd (cc)
find-Any less k v ((j, w) ∷ m) h = elim (Bool-cases (less j k)) [
  | inl e ↦ inr (find-Any less k v m (rw e at h))
  | inr e ↦ elim (Bool-cases (less k j)) [
    | inl e' ↦ absurd (ground arith)
    | inr e' ↦ inl (ground arith)
  ]
]
