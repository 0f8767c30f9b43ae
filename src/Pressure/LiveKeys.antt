-- ===== src/Pressure/LiveKeys.antt =====
-- `RefreshLiveKeys` of parts_pressure.go: an exact read of every table that has a live reservation or an
-- exact part with an owner. Its reads are calls of their own, each under the lock of its table.
use housegate.Base.{
  ℕ, suc, ◌≡◌, refl, ap, ◌∙◌, Bool, true, false, not, ◌&&◌, ◌||◌, List, [], ◌∷◌, ◌++◌, map, String,
  str_eq, str_eq→eq, str_eq_refl, if◌then◌else◌, if_ind, arith, Bool-cases, inl, inr,
}
use housegate.Pressure.Scope.{PartsKey, PartsScope, key_eq, key_eq→eq, covers, has_text}
use housegate.Pressure.Guard.{Reservation, Claim, Guard}
use housegate.Pressure.Claims.{add_text}
use housegate.Pressure.Lifecycle.{keys_of}
use housegate.Pressure.Inventory.{Reading, has_member}
use housegate.Pressure.Refresh.{refresh_scope}
use housegate.Pressure.Calls.{scope_of}
use housegate.Pressure.Restore.{insert_text, sort_texts}

-- `tables`: the partitions of each table.
unfoldable pub add_partition :
    String → String → List (String × List String) → List (String × List String)
unfolding has_text
add_partition table partition [] = (table, partition ∷ []) ∷ []
add_partition table partition ((t, ps) ∷ ts) =
    let rest = add_partition table partition ts in
    if str_eq t table then (t, add_text partition ps) ∷ ts else (t, ps) ∷ rest

-- `add` for each key.
unfoldable pub add_live :
    String → List PartsKey → List (String × List String) → List (String × List String)
unfolding add_partition
add_live unsafe [] ts = ts
add_live unsafe (k ∷ ks) ts =
    add_live unsafe ks
      (if not (str_eq k.database unsafe) then ts else add_partition k.table k.partition ts)

unfoldable pub live_reservation_keys : List Reservation → List PartsKey
live_reservation_keys [] = []
live_reservation_keys (r ∷ rs) =
    let rest = live_reservation_keys rs in if r.live then keys_of r.parts ++ rest else rest

unfoldable pub claim_keys : List Claim → List PartsKey
claim_keys [] = []
claim_keys (c ∷ cs) = c.key ∷ claim_keys cs

abbrev pub live_keys : Guard → List PartsKey
live_keys g = live_reservation_keys g.handles ++ claim_keys g.candidate_claims

unfoldable pub live_scopes : Guard → List PartsScope
unfolding add_live sort_texts live_reservation_keys claim_keys
live_scopes g =
    map (λ (t, ps). scope_of g t (sort_texts ps)) (add_live g.cfg.unsafe_database (live_keys g) [])

-- The reads, one after another; the flag says that none of them failed.
unfoldable pub refresh_scopes : (ℕ → Reading) → ℕ → List PartsScope → Guard → Bool × Guard
unfolding refresh_scope
refresh_scopes x i [] g = (true, g)
refresh_scopes x i (s ∷ ss) g =
    let (well, g') = refresh_scope s (x i) g in
    let (rest, g'') = refresh_scopes x (suc i) ss g' in (well && rest, g'')

-- `RefreshLiveKeys`
unfoldable pub refresh_live_keys : (ℕ → Reading) → Guard → Bool × Guard
unfolding live_scopes refresh_scopes
refresh_live_keys x g = refresh_scopes x 0 (live_scopes g) g

-- A partition that is listed under its table.
listed : String → String → List (String × List String) → Bool
unfolding has_text
listed t p [] = false
listed t p ((u, ps) ∷ ts) = (str_eq u t && has_text p ps) || listed t p ts

has_text-add_text :
    (p s : String) (xs : List String) → has_text p (add_text s xs) ≡ (str_eq s p || has_text p xs)
unfolding has_text
has_text-add_text p s xs = elim (Bool-cases (str_eq s p)) [
  | inl e ↦ rw (str_eq→eq s p e) (ground (arith, str_eq_refl p))
  | inr e ↦ ground (arith, e)
]

listed-add_partition :
    (t p u q : String) (ts : List (String × List String))
    → listed t p (add_partition u q ts) ≡ ((str_eq u t && str_eq q p) || listed t p ts)
unfolding listed add_partition has_text
listed-add_partition t p u q [] = ground arith
listed-add_partition t p u q ((v, ps) ∷ ts) = elim (Bool-cases (str_eq v u)) [
  | inl e ↦
      let same = ap (λ w. str_eq w t) (str_eq→eq v u e) in
      rw e (ground (arith, same, has_text-add_text p q ps))
  | inr e ↦ rw e (ground (arith, listed-add_partition t p u q ts))
]

has_text-insert_text :
    (p s : String) (ts : List String)
    → has_text p (insert_text s ts) ≡ (str_eq s p || has_text p ts)
unfolding has_text insert_text
has_text-insert_text p s [] = refl
has_text-insert_text p s (t ∷ ts) = ground (arith, has_text-insert_text p s ts)

has_text-sort_texts : (p : String) (ts : List String) → has_text p (sort_texts ts) ≡ has_text p ts
unfolding has_text sort_texts
has_text-sort_texts p [] = refl
has_text-sort_texts p (t ∷ ts) =
    ground (arith, has_text-insert_text p t (sort_texts ts), has_text-sort_texts p ts)

module _ (unsafe : String) (k : PartsKey) where
  add_live-listed :
      (ks : List PartsKey) (ts : List (String × List String))
      → listed k.table k.partition ts ≡ true
      → listed k.table k.partition (add_live unsafe ks ts) ≡ true
  unfolding add_live
  add_live-listed [] ts h = h
  add_live-listed (j ∷ js) ts h =
      add_live-listed js
        (if not (str_eq j.database unsafe) then ts else add_partition j.table j.partition ts)
        (if_ind (λ us. listed k.table k.partition us ≡ true) (not (str_eq j.database unsafe))
          (λ _. h)
          (λ _.
            listed-add_partition k.table k.partition j.table j.partition ts ∙ ground (arith, h)))

  add_live-has_member :
      (ks : List PartsKey) (ts : List (String × List String))
      → str_eq k.database unsafe ≡ true
      → has_member k ks ≡ true
      → listed k.table k.partition (add_live unsafe ks ts) ≡ true
  unfolding add_live
  add_live-has_member [] ts at h = cc
  add_live-has_member (j ∷ js) ts at h = elim (Bool-cases (key_eq j k)) [
    | inl e ↦
        rw (key_eq→eq j k e, at)
          (add_live-listed js (add_partition k.table k.partition ts) (
            listed-add_partition k.table k.partition k.table k.partition ts
            ∙ ground (arith, str_eq_refl k.table, str_eq_refl k.partition)))
    | inr e ↦ add_live-has_member js _ at (ground (arith, e, h))
  ]

-- Some scope covers the key.
unfoldable pub any_covers : List PartsScope → PartsKey → Bool
unfolding covers
any_covers [] k = false
any_covers (s ∷ ss) k = covers s k || any_covers ss k

scope_of-covers :
    (g : Guard) (k : PartsKey) (t : String) (ps : List String)
    → str_eq k.database g.cfg.unsafe_database ≡ true
    → (str_eq t k.table && has_text k.partition ps) ≡ true
    → covers (scope_of g t (sort_texts ps)) k ≡ true
unfolding covers
scope_of-covers g k t ps at h =
    let same = str_eq→eq t k.table (ground (arith, h)) in
    let self = ap (str_eq k.table) same ∙ str_eq_refl k.table in
    ground (arith, at, h, self, has_text-sort_texts k.partition ps)

map-any_covers :
    (g : Guard) (k : PartsKey) (ts : List (String × List String))
    → str_eq k.database g.cfg.unsafe_database ≡ true
    → listed k.table k.partition ts ≡ true
    → any_covers (map (λ (t, ps). scope_of g t (sort_texts ps)) ts) k ≡ true
unfolding any_covers listed
map-any_covers g k [] at h = cc
map-any_covers g k ((t, ps) ∷ ts) at h =
    elim (Bool-cases (str_eq t k.table && has_text k.partition ps)) [
      | inl e ↦ let here = scope_of-covers g k t ps at e in ground (arith, here)
      | inr e ↦ let later = map-any_covers g k ts at (ground (arith, e, h)) in ground (arith, later)
    ]

pub live_scopes-covers :
    (g : Guard) (k : PartsKey)
    → has_member k (live_keys g) ≡ true
    → str_eq k.database g.cfg.unsafe_database ≡ true
    → any_covers (live_scopes g) k ≡ true
unfolding live_scopes
live_scopes-covers g k h at =
    map-any_covers g k (add_live g.cfg.unsafe_database (live_keys g) []) at
      (add_live-has_member g.cfg.unsafe_database k (live_keys g) [] at h)
