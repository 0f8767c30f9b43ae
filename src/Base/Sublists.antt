-- ===== src/Base/Sublists.antt =====
-- A list with some members left out.
use mathlib.Core.List.{List, [], ◌∷◌}

-- The first list is the second with some members left out, in the same order.
pub data IsSublist {ℓ} {A : Type ℓ} : List A → List A → Type ℓ where
  empty : IsSublist [] []
  keeps : (x : A) {xs ys : List A} → IsSublist xs ys → IsSublist (x ∷ xs) (x ∷ ys)
  leaves : (y : A) {xs ys : List A} → IsSublist xs ys → IsSublist xs (y ∷ ys)

pub IsSublist-refl {ℓ} : {A : Type ℓ} (xs : List A) → IsSublist xs xs
IsSublist-refl [] = empty
IsSublist-refl (x ∷ xs) = keeps x (IsSublist-refl xs)

pub IsSublist-trans {ℓ} :
    {A : Type ℓ} {xs ys zs : List A} → IsSublist xs ys → IsSublist ys zs → IsSublist xs zs
IsSublist-trans a empty = a
IsSublist-trans a (leaves y b) = leaves y (IsSublist-trans a b)
IsSublist-trans (keeps x a) (keeps _ b) = keeps x (IsSublist-trans a b)
IsSublist-trans (leaves x a) (keeps _ b) = leaves x (IsSublist-trans a b)
