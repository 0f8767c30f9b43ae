-- ===== src/Pressure/Maps.antt =====
-- Go maps over `PartsKey`, as association lists without order.
use housegate.Base.{
  ◌≡◌, refl, Bool, true, false, Option, none, some, List, [], ◌∷◌, arith, if◌then◌else◌, Bool-cases,
  inl, inr,
}
use housegate.Pressure.Scope.{PartsKey, key_eq, key_eq→eq, key_eq_refl}

pub key_eq_sym : (k j : PartsKey) → key_eq k j ≡ key_eq j k
key_eq_sym k j = elim (Bool-cases (key_eq k j)) [
  | inl e ↦ rw (key_eq→eq k j e) refl
  | inr e ↦ elim (Bool-cases (key_eq j k)) [ inl f ↦ rw (key_eq→eq j k f) refl | inr f ↦ cc ]
]

abbrev pub PartsMap {ℓ} : Type ℓ → Type ℓ
PartsMap V = List (PartsKey × V)

module _ {ℓ} {V : Type ℓ} where
  unfoldable pub get : PartsKey → PartsMap V → Option V
  get k [] = none
  get k ((j, v) ∷ m) = if key_eq j k then some v else get k m

  -- `m[k] = v`
  unfoldable pub put : PartsKey → V → PartsMap V → PartsMap V
  put k v [] = (k, v) ∷ []
  put k v ((j, w) ∷ m) = let rest = put k v m in if key_eq j k then (j, v) ∷ m else (j, w) ∷ rest

  -- `delete` of every key that `out` names.
  unfoldable pub drop_keys : (PartsKey → Bool) → PartsMap V → PartsMap V
  drop_keys out [] = []
  drop_keys out ((j, w) ∷ m) = let rest = drop_keys out m in if out j then rest else (j, w) ∷ rest

  pub get-put :
      (k j : PartsKey) (v : V) (m : PartsMap V)
      → get j (put k v m) ≡ (if key_eq k j then some v else get j m)
  unfolding get put
  get-put k j v [] = refl
  get-put k j v ((i, w) ∷ m) = ground (
    arith,
    key_eq→eq i k,
    key_eq→eq i j,
    key_eq→eq k j,
    key_eq_sym i k,
    key_eq_refl k,
    key_eq_refl j,
    get-put k j v m,
  )

  pub get-drop_keys :
      (out : PartsKey → Bool) (k : PartsKey) (m : PartsMap V)
      → get k (drop_keys out m) ≡ (if out k then none else get k m)
  unfolding get drop_keys
  get-drop_keys out k [] = ground arith
  get-drop_keys out k ((i, w) ∷ m) = elim (Bool-cases (key_eq i k)) [
    | inl e ↦
        rw (key_eq→eq i k e, key_eq_refl k) (ground (arith, get-drop_keys out k m, key_eq_refl k))
    | inr n ↦ rw n (ground (arith, n, get-drop_keys out k m))
  ]

  -- `delete(m, k)`
  unfoldable pub delete : PartsKey → PartsMap V → PartsMap V
  delete k m = drop_keys (key_eq k) m

  pub get-delete :
      (k j : PartsKey) (m : PartsMap V)
      → get j (delete k m) ≡ (if key_eq k j then none else get j m)
  unfolding delete
  get-delete k j m = get-drop_keys (key_eq k) j m

  unfoldable pub has_key : PartsKey → PartsMap V → Bool
  has_key k m = elim (get k m) [ none ↦ false | some v ↦ true ]

  -- The map read with a default, as Go reads a missing key.
  unfoldable pub get_or : V → PartsKey → PartsMap V → V
  get_or d k m = elim (get k m) [ none ↦ d | some v ↦ v ]

  pub get_or-put :
      (d : V) (k j : PartsKey) (v : V) (m : PartsMap V)
      → get_or d j (put k v m) ≡ (if key_eq k j then v else get_or d j m)
  unfolding get_or
  get_or-put d k j v m = rw (get-put k j v m, get_or) (ground arith)

  pub get_or-delete :
      (d : V) (k j : PartsKey) (m : PartsMap V)
      → get_or d j (delete k m) ≡ (if key_eq k j then d else get_or d j m)
  unfolding get_or
  get_or-delete d k j m = rw (get-delete k j m, get_or) (ground arith)
