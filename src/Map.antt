-- ===== src/Map.antt =====
-- `std::map` as far as the program uses it: the entries in the order in which it iterates. Keys
-- are compared by `less` alone, as the container does, and two keys that are not less than one
-- another are one key. Also `std::unordered_map<int, T>`, of which nothing iterates.
pub mod Below
pub mod Mapped
pub mod Laws
pub mod Update
pub mod Extensional
pub mod All
pub mod Each
pub mod Entries
use cphf.Base.{
  ℕ, ◌≡◌, refl, Bool, List, [], ◌∷◌, Option, none, some, ltb, ◌==◌, if◌then◌else◌, Run, ok, fault,
  ◌>>=◌, map,
}
use cphf.Base.Word.{int_rank}

abbrev pub Map {ℓ κ} : Type ℓ → Type κ → Type (ℓ ⊔ κ)
Map K V = List (K × V)

module _ {ℓ κ} {K : Type ℓ} {V : Type κ} (less : K → K → Bool) where
  -- An entry that is there stays.
  unfoldable pub insert : K → V → Map K V → Map K V
  insert k v [] = (k, v) ∷ []
  insert k v ((j, w) ∷ m) =
      if less j k
      then (j, w) ∷ insert k v m
      else if less k j
      then (k, v) ∷ (j, w) ∷ m
      else (j, w) ∷ m

  -- `none` is the `std::out_of_range` of `at`.
  unfoldable pub find : K → Map K V → Option V
  find k [] = none
  find k ((j, w) ∷ m) = if less j k then find k m else if less k j then none else some w

  -- A write through a pointer to the value of a key that is there.
  unfoldable pub assign : K → V → Map K V → Map K V
  assign k v [] = []
  assign k v ((j, w) ∷ m) =
      if less j k then (j, w) ∷ assign k v m else if less k j then (j, w) ∷ m else (j, v) ∷ m

unfoldable pub keys {ℓ κ} : {K : Type ℓ} {V : Type κ} → Map K V → List K
keys [] = []
keys ((k, v) ∷ m) = k ∷ keys m

unfoldable pub values {ℓ κ} : {K : Type ℓ} {V : Type κ} → Map K V → List V
values [] = []
values ((k, v) ∷ m) = v ∷ values m

-- A loop `for (auto& entry : m)` that changes the values, in the order of the keys.
unfoldable pub for_each {ℓ κ} :
    {K : Type ℓ} {V : Type κ} → (K → V → Run V) → Map K V → Run (Map K V)
for_each f [] = ok []
for_each f ((k, v) ∷ m) = do v' ← f k v; m' ← for_each f m; ok ((k, v') ∷ m')

-- The order of `int` keys.
abbrev pub int_less : ℕ → ℕ → Bool
int_less a b = ltb (int_rank a) (int_rank b)

-- `std::unordered_map<int, T>::insert`: an entry that is there stays.
unfoldable pub insert_hash {ℓ} : {V : Type ℓ} → ℕ × V → Map ℕ V → Map ℕ V
insert_hash kv [] = kv ∷ []
insert_hash kv ((j, w) ∷ m) = if j == kv.0 then (j, w) ∷ m else (j, w) ∷ insert_hash kv m

unfoldable pub find_hash {ℓ} : {V : Type ℓ} → ℕ → Map ℕ V → Option V
find_hash k [] = none
find_hash k ((j, w) ∷ m) = if j == k then some w else find_hash k m
