-- ===== src/Base/Infix.antt =====
-- Lists that hold another as one piece.
use mathlib.Core.Path.{◌≡◌, refl, sym}
use mathlib.Core.List.{List, [], ◌∷◌, ◌++◌, append_assoc, append-nil}
use cphf.Base.Lists.{Any, Any-append_left, Any-append_right}

module _ {ℓ} {A : Type ℓ} where
  -- The elements of the second list stand together in the first, in their order.
  abbrev pub Contains : List A → List A → Type ℓ
  Contains ys xs = (front : List A) × (back : List A) × (ys ≡ front ++ (xs ++ back))

  pub Contains-refl : (xs : List A) → Contains xs xs
  Contains-refl xs = ([], [], sym (append-nil xs))

  pub Contains-trans : (xs ys zs : List A) → Contains ys xs → Contains zs ys → Contains zs xs
  Contains-trans xs ys zs (f, b, e) (g, c, e') = (
    g ++ f,
    b ++ c,
    rw (e', e, append_assoc g f (xs ++ (b ++ c)), append_assoc f (xs ++ b) c, append_assoc xs b c),
  )

  pub Contains-append : (xs ys : List A) → Contains (xs ++ ys) xs
  Contains-append xs ys = ([], ys, refl)

  pub Contains-behind : (xs ys : List A) → Contains (xs ++ ys) ys
  Contains-behind xs ys = (xs, [], rw (append-nil ys))

  pub Contains-cons : (a : A) (xs : List A) → Contains (a ∷ xs) xs
  Contains-cons a xs = (a ∷ [], [], rw (append-nil xs))

  pub Contains-Any : (P : A → Type 0) (xs ys : List A) → Contains ys xs → Any P xs → Any P ys
  Contains-Any P xs ys (f, b, e) h =
      rw e (Any-append_right P f (xs ++ b) (Any-append_left P xs b h))
