-- ===== src/Map/Update.antt =====
-- A change of the value under a key, or of a new value where the key is missing: what the listings of
-- processes mean for the map.
use cphf.Base.{ℕ, ◌≡◌, ◌≢◌, refl, [], ◌∷◌, some, ◌==◌, ==_refl, if◌then◌else◌, arith}
use cphf.Map.{Map, insert, find, assign}
use cphf.Map.Laws.{by_rank, or_else}

unfoldable pub update : {V : Type 0} → (ℕ → ℕ) → ℕ → (V → V) → V → Map ℕ V → Map ℕ V
update rank k change new [] = (k, change new) ∷ []
update rank k change new ((j, w) ∷ m) =
    let rest = update rank k change new m in
    if by_rank rank j k
    then (j, w) ∷ rest
    else if by_rank rank k j
    then (k, change new) ∷ (j, w) ∷ m
    else (j, change w) ∷ m

module _ {V : Type 0} (rank : ℕ → ℕ) where
  -- It is an insertion and a write through the pointer to what is there then.
  pub assign-insert-update :
      (k : ℕ) (change : V → V) (new : V) (m : Map ℕ V)
      → assign
          (by_rank rank)
          k
          (change (or_else (find (by_rank rank) k m) new))
          (insert (by_rank rank) k new m)
        ≡ update rank k change new m
  unfolding update assign insert find
  assign-insert-update k change new [] = ground arith
  assign-insert-update k change new ((j, w) ∷ m) =
      ground (arith, assign-insert-update k change new m)

  pub find-update :
      (j k : ℕ) (change : V → V) (new : V) (m : Map ℕ V)
      → find (by_rank rank) j (update rank k change new m) ≡ (
          if rank j == rank k
          then some (change (or_else (find (by_rank rank) k m) new))
          else find (by_rank rank) j m)
  unfolding update find
  find-update j k change new [] = ground arith
  find-update j k change new ((i, w) ∷ m) = ground (arith, find-update j k change new m)

  pub find-update_self :
      (k : ℕ) (change : V → V) (new : V) (m : Map ℕ V)
      → find (by_rank rank) k (update rank k change new m)
        ≡ some (change (or_else (find (by_rank rank) k m) new))
  find-update_self k change new m = rw (find-update k k change new m, ==_refl (rank k))

  -- Changes under keys that are not the same may be made in either order.
  pub update-update :
      (j k : ℕ) (f g : V → V) (new : V) (m : Map ℕ V)
      → rank j ≢ rank k
      → update rank j f new (update rank k g new m) ≡ update rank k g new (update rank j f new m)
  unfolding update
  update-update j k f g new [] h = ground arith
  update-update j k f g new ((i, w) ∷ m) h = ground (arith, update-update j k f g new m h)

  -- A write under a key that was just changed.
  pub assign-update :
      (k : ℕ) (change : V → V) (new v : V) (m : Map ℕ V)
      → assign (by_rank rank) k v (update rank k change new m) ≡ update rank k (λ w. v) new m
  unfolding update assign
  assign-update k change new v [] = ground arith
  assign-update k change new v ((j, w) ∷ m) = ground (arith, assign-update k change new v m)

  -- The change comes to a write of what it makes of the value that is there.
  pub update_found :
      (k : ℕ) (change : V → V) (new : V) (m : Map ℕ V)
      → update rank k (λ w. change (or_else (find (by_rank rank) k m) new)) new m
        ≡ update rank k change new m
  unfolding update find
  update_found k change new [] = refl
  update_found k change new ((j, w) ∷ m) = ground (arith, update_found k change new m)
