-- ===== src/Base/Lists.antt =====
-- Lists measured by the native numbers, predicates over their members, and ascending lists.
use Prim.Native.Nat.{ℕ, zero, suc, ◌+◌, ◌≤◌, ◌<◌}
use mathlib.Core.Path.{◌≡◌}
use mathlib.Core.Logic.{◌≢◌}
use mathlib.Core.List.{List, [], ◌∷◌, ◌++◌}
use mathlib.Core.Bool.{true, false}
use native.Mathlib.Omega.{arith}
use housegate.Base.Tests.{◌==◌, if◌then◌else◌}

module _ {ℓ} {A : Type ℓ} where
  abbrev pub length : List A → ℕ
  length [] = 0
  length (x ∷ xs) = suc (length xs)

  abbrev pub take : ℕ → List A → List A
  take zero xs = []
  take (suc n) [] = []
  take (suc n) (x ∷ xs) = x ∷ take n xs

  abbrev pub drop : ℕ → List A → List A
  drop zero xs = xs
  drop (suc n) [] = []
  drop (suc n) (x ∷ xs) = drop n xs

  pub length-append : (xs ys : List A) → length (xs ++ ys) ≡ length xs + length ys
  length-append [] ys = omega arith
  length-append (x ∷ xs) ys = omega (arith, length-append xs ys)

-- Every member satisfies `P`: a tuple of proofs, which the tactics read and build.
abbrev pub All {ℓ κ} : {A : Type ℓ} → (A → Type κ) → List A → Type κ
All P [] = Unit
All P (x ∷ xs) = P x × All P xs

pub All-mono {ℓ κ ι} :
    {A : Type ℓ} {P : A → Type κ} {Q : A → Type ι} (imp : (x : A) → P x → Q x) (xs : List A)
    → All P xs
    → All Q xs
All-mono imp [] h = tt
All-mono imp (x ∷ xs) h = (imp x h.0, All-mono imp xs h.1)

abbrev pub NotIn : ℕ → List ℕ → Type 0
NotIn n xs = All (λ x. x ≢ n) xs

-- No number stands in both lists.
abbrev pub Apart : List ℕ → List ℕ → Type 0
Apart xs ys = All (λ x. NotIn x ys) xs

-- Strictly ascending, every member above `lo`.
abbrev pub AscendsFrom : ℕ → List ℕ → Type 0
AscendsFrom lo [] = Unit
AscendsFrom lo (x ∷ xs) = (lo < x) × AscendsFrom x xs

pub AscendsFrom-NotIn : (n lo : ℕ) (xs : List ℕ) → n ≤ lo → AscendsFrom lo xs → NotIn n xs
AscendsFrom-NotIn n lo [] h a = tt
AscendsFrom-NotIn n lo (x ∷ xs) h a =
    (omega (arith, a.0), AscendsFrom-NotIn n x xs (omega (arith, a.0)) a.1)

pub AscendsFrom-lower :
    (lo lo' : ℕ) (xs : List ℕ) → lo' ≤ lo → AscendsFrom lo xs → AscendsFrom lo' xs
AscendsFrom-lower lo lo' [] h a = tt
AscendsFrom-lower lo lo' (x ∷ xs) h a = (omega (arith, a.0), a.1)

pub All-le-NotIn : (n b : ℕ) (xs : List ℕ) → b < n → All (λ x. x ≤ b) xs → NotIn n xs
All-le-NotIn n b [] h a = tt
All-le-NotIn n b (x ∷ xs) h a = (omega (arith, a.0), All-le-NotIn n b xs h a.1)

module _ {ℓ κ} {A : Type ℓ} (P : A → Type κ) where
  pub All-take : (n : ℕ) (xs : List A) → All P xs → All P (take n xs)
  All-take zero xs h = tt
  All-take (suc n) [] h = tt
  All-take (suc n) (x ∷ xs) h = (h.0, All-take n xs h.1)

module _ {ℓ κ} {A : Type ℓ} (P : A → Type κ) where
  pub All-drop : (n : ℕ) (xs : List A) → All P xs → All P (drop n xs)
  All-drop zero xs h = h
  All-drop (suc n) [] h = tt
  All-drop (suc n) (x ∷ xs) h = All-drop n xs h.1

pub AscendsFrom-take : (n lo : ℕ) (xs : List ℕ) → AscendsFrom lo xs → AscendsFrom lo (take n xs)
AscendsFrom-take zero lo xs h = tt
AscendsFrom-take (suc n) lo [] h = tt
AscendsFrom-take (suc n) lo (x ∷ xs) h = (h.0, AscendsFrom-take n x xs h.1)

pub length-take-le {ℓ} : {A : Type ℓ} (n : ℕ) (xs : List A) → length (take n xs) ≤ n
length-take-le zero xs = omega arith
length-take-le (suc n) [] = omega arith
length-take-le (suc n) (x ∷ xs) = omega (arith, length-take-le n xs)

-- The members other than `n`.
unfoldable pub without : ℕ → List ℕ → List ℕ
without n [] = []
without n (x ∷ xs) = let rest = without n xs in if x == n then rest else x ∷ rest

pub without-NotIn : (n : ℕ) (xs : List ℕ) → NotIn n (without n xs)
unfolding without
without-NotIn n [] = tt
without-NotIn n (x ∷ xs) = ground (arith, without-NotIn n xs)

pub All-without {κ} : (P : ℕ → Type κ) (n : ℕ) (xs : List ℕ) → All P xs → All P (without n xs)
unfolding without
All-without P n [] h = tt
All-without P n (x ∷ xs) h =
    elim (x == n) as (λ b. All P (if b then without n xs else x ∷ without n xs)) [
      | true ↦ All-without P n xs h.1
      | false ↦ (h.0, All-without P n xs h.1)
    ]
