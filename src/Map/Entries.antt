-- ===== src/Map/Entries.antt =====
-- A property of the entries of a map, a key with its value, kept by the operations.
use cphf.Map.All.{AllValues}
use cphf.Base.{
  ◌^◌, Any, ap, ◌∙◌, ℕ, ◌≡◌, [], ◌∷◌, some, arith, All, Bool-cases, inl, inr, false, sym, ◌<◌,
}
use mathlib.Core.Path.{subst, sym}
use cphf.Base.Word.{int_rank, int_rank-injective}
use cphf.Map.Each.{Each}
use cphf.Map.Laws.{Above, IsSorted}
use cphf.Map.{Map, insert, find, assign, int_less}

some_same : {V : Type 0} {v w : V} → some v ≡ some w → w ≡ v
some_same e = cc

some_value : {V : Type 0} {v w : V} → some v ≡ some w → v ≡ w
some_value e = cc

module _ {V : Type 0} (P : ℕ × V → Type 0) (k : ℕ) where
  -- A write through the pointer that was found.
  pub assign-All :
      (v v' : V) (m : Map ℕ V)
      → find int_less k m ≡ some v
      → ((j : ℕ) → int_rank j ≡ int_rank k → P (j, v) → P (j, v'))
      → All P m
      → All P (assign int_less k v' m)
  unfolding find assign
  assign-All v v' [] e f h = tt
  assign-All v v' ((j, w) ∷ m) e f h = elim (Bool-cases (int_less j k)) [
    | inl l ↦ rw l (h.0, assign-All v v' m (rw l at e) f h.1)
    | inr l ↦ elim (Bool-cases (int_less k j)) [
      | inl l' ↦ absurd (ground arith)
      | inr l' ↦ rw (l, l') (f j (ground arith) (subst (λ x. P (j, x)) (ground arith) h.0), h.1)
    ]
  ]

  same_place : int_less k k ≡ false
  same_place = ground arith

  -- The same on a map that `v₀` was inserted into, where nothing need hold of it.
  pub assign-insert-All :
      (v₀ v v' : V) (m : Map ℕ V)
      → find int_less k (insert int_less k v₀ m) ≡ some v
      → (v ≡ v₀ → P (k, v'))
      → ((j : ℕ) → int_rank j ≡ int_rank k → P (j, v) → P (j, v'))
      → All P m
      → All P (assign int_less k v' (insert int_less k v₀ m))
  unfolding find assign insert
  assign-insert-All v₀ v v' [] e new f h =
      rw (same_place) (new (some_same (rw same_place at e)), tt)
  assign-insert-All v₀ v v' ((j, w) ∷ m) e new f h = elim (Bool-cases (int_less j k)) [
    | inl l ↦
        rw (insert, l, assign, l)
          (h.0, assign-insert-All v₀ v v' m (rw (insert, l, find, l) at e) new f h.1)
    | inr l ↦ elim (Bool-cases (int_less k j)) [
      | inl l' ↦
          rw (insert, l, l', assign, same_place)
            (new (some_same (rw (insert, l, l', find, same_place) at e)), h)
      | inr l' ↦
          rw (insert, l, l', assign, l, l')
            (
              f j (ground arith)
                  (subst (λ x. P (j, x)) (some_value (rw (insert, l, l', find, l, l') at e)) h.0),
              h.1,
            )
    ]
  ]

module _ {V : Type 0} (R : V → V → Type 0) where
  -- What the values that are related keep, under the same keys.
  pub Each-All :
      (P Q : ℕ × V → Type 0) (m m' : Map ℕ V)
      → ((k : ℕ) (v w : V) → R v w → P (k, v) → Q (k, w))
      → Each R m m'
      → All P m
      → All Q m'
  Each-All P Q [] [] t r h = tt
  Each-All P Q [] (e ∷ m') t r h = absurd r
  Each-All P Q (e ∷ m) [] t r h = absurd r
  Each-All P Q ((k, v) ∷ m) ((j, w) ∷ m') t r h =
      (subst (λ x. Q (x, w)) (sym r.0) (t k v w r.1 h.0), Each-All P Q m m' t r.2 h.1)

  Each-Above : (n : ℕ) (m m' : Map ℕ V) → Each R m m' → Above int_rank n m → Above int_rank n m'
  Each-Above n [] [] r h = tt
  Each-Above n [] (e ∷ m') r h = absurd r
  Each-Above n (e ∷ m) [] r h = absurd r
  Each-Above n ((k, v) ∷ m) ((j, w) ∷ m') r h =
      (subst (λ x. n < int_rank x) (sym r.0) h.0, Each-Above n m m' r.2 h.1)

  pub Each-IsSorted : (m m' : Map ℕ V) → Each R m m' → IsSorted int_rank m → IsSorted int_rank m'
  Each-IsSorted [] [] r h = tt
  Each-IsSorted [] (e ∷ m') r h = absurd r
  Each-IsSorted (e ∷ m) [] r h = absurd r
  Each-IsSorted ((k, v) ∷ m) ((j, w) ∷ m') r h = (
    subst (λ x. Above int_rank (int_rank x) m') (sym r.0) (Each-Above (int_rank k) m m' r.2 h.0),
    Each-IsSorted m m' r.2 h.1,
  )

-- A property of the values alone.
pub AllValues-All : {V : Type 0} (P : V → Type 0) (m : Map ℕ V) → AllValues P m → All (λ e. P e.1) m
AllValues-All P [] h = tt
AllValues-All P ((k, v) ∷ m) h = (h.0, AllValues-All P m h.1)

pub All-AllValues : {V : Type 0} (P : V → Type 0) (m : Map ℕ V) → All (λ e. P e.1) m → AllValues P m
All-AllValues P [] h = tt
All-AllValues P ((k, v) ∷ m) h = (h.0, All-AllValues P m h.1)

-- What is found under a key of 32 bits stands under that key.
pub find-entry :
    {V : Type 0} (k : ℕ) (v : V) (m : Map ℕ V)
    → All (λ e. e.0 < 2 ^ 32) m
    → k < 2 ^ 32
    → find int_less k m ≡ some v
    → Any (λ e. e ≡ (k, v)) m
unfolding find
find-entry k v [] small bound e = absurd (cc)
find-entry k v ((j, w) ∷ m) small bound e = elim (Bool-cases (int_less j k)) [
  | inl l ↦ inr (find-entry k v m small.1 bound (rw l at e))
  | inr l ↦ elim (Bool-cases (int_less k j)) [
    | inl l' ↦ absurd (ground arith)
    | inr l' ↦
        let keys : j ≡ k = int_rank-injective j k small.0 bound (ground arith) in
        let values : w ≡ v = ground arith in inl (ap (λ i. (i, w)) keys ∙ ap (λ x. (k, x)) values)
  ]
]
