-- ===== src/Pressure/Owners.antt =====
-- Who owns an exact part: the laws of the table of claims, and that binding takes nothing from another.
use housegate.Base.{
  ℕ, ◌≡◌, refl, true, ◌&&◌, Option, none, some, List, [], ◌∷◌, String, str_eq, str_eq→eq,
  str_eq_refl, arith, if◌then◌else◌,
}
use housegate.Pressure.Scope.{PartsKey, key_eq, key_eq→eq, key_eq_refl}
use housegate.Pressure.Maps.{key_eq_sym}
use housegate.Pressure.Guard.{Claim}
use housegate.Pressure.Claims.{is_claim_of, find_claim, put_claim, delete_claim}

-- The reservation that owns the exact part.
unfoldable pub owner : PartsKey → String → List Claim → Option ℕ
owner key name [] = none
owner key name (c ∷ cs) = if is_claim_of key name c then some c.reservation else owner key name cs

module _ (key : PartsKey) (name : String) where
  pub owner-find_claim :
      (cs : List Claim) (c : Claim)
      → find_claim key name cs ≡ some c
      → owner key name cs ≡ some c.reservation
  unfolding find_claim owner
  owner-find_claim [] c h = cc
  owner-find_claim (d ∷ cs) c h = ground (arith, h, owner-find_claim cs c)

  pub owner-find_none : (cs : List Claim) → find_claim key name cs ≡ none → owner key name cs ≡ none
  unfolding find_claim owner
  owner-find_none [] h = refl
  owner-find_none (d ∷ cs) h = ground (arith, h, owner-find_none cs)

  -- What is found is filed where it was looked for.
  pub find_claim-at :
      (cs : List Claim) (c : Claim)
      → find_claim key name cs ≡ some c
      → is_claim_of key name c ≡ true
  unfolding find_claim
  find_claim-at [] c h = cc
  find_claim-at (d ∷ cs) c h = ground (arith, h, find_claim-at cs c)

  pub owner-put_claim :
      (d : Claim) (cs : List Claim)
      → owner key name (put_claim d cs)
        ≡ (if is_claim_of key name d then some d.reservation else owner key name cs)
  unfolding put_claim owner
  owner-put_claim d [] = refl
  owner-put_claim d (c ∷ cs) = ground (
    arith,
    owner-put_claim d cs,
    key_eq→eq c.key d.key,
    str_eq→eq c.name d.name,
    key_eq→eq c.key key,
    key_eq→eq d.key key,
    str_eq→eq c.name name,
    str_eq→eq d.name name,
    key_eq_refl key,
    str_eq_refl name,
    key_eq_sym c.key d.key,
  )

  pub owner-delete_claim :
      (k : PartsKey) (n : String) (cs : List Claim)
      → owner key name (delete_claim k n cs)
        ≡ (if key_eq k key && str_eq n name then none else owner key name cs)
  unfolding delete_claim owner
  owner-delete_claim k n [] = ground arith
  owner-delete_claim k n (c ∷ cs) = ground (
    arith,
    owner-delete_claim k n cs,
    key_eq→eq c.key k,
    str_eq→eq c.name n,
    key_eq→eq c.key key,
    key_eq→eq k key,
    str_eq→eq c.name name,
    str_eq→eq n name,
    key_eq_refl key,
    str_eq_refl name,
    key_eq_sym c.key k,
  )
