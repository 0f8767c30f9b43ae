-- ===== src/Pressure/Ledger.antt =====
-- The ledger of reserved parts: what is reserved at a key is the number of reservations that are in the
-- state reserved and have the key, after any calls.
use housegate.Base.{ℕ, ◌+◌, ◌-◌, ◌≡◌, ◌==◌, Option, none, some, List, [], ◌∷◌, if◌then◌else◌, arith}
use housegate.Pressure.Scope.{PartsKey, key_eq, key_eq→eq}
use housegate.Pressure.Maps.{PartsMap, get_or, get_or-put, get_or-delete}
use housegate.Pressure.Guard.{
  ReservationState, reserved, committed, finalized, released, Part, Reservation, Guard, find_handle,
  update_handle, increment,
}
use housegate.Pressure.Admission.{reserve_parts}
use housegate.Pressure.Lifecycle.{keys_of, decrement, decrement_all}
use housegate.Pressure.Skeleton.{bone, skeleton}

-- How often a key stands in a list.
unfoldable pub count_key : PartsKey → List PartsKey → ℕ
count_key k [] = 0
count_key k (j ∷ js) = (if key_eq j k then 1 else 0) + count_key k js

abbrev pub weight : PartsKey → ReservationState → List PartsKey → ℕ
weight k reserved ks = count_key k ks
weight k committed ks = 0
weight k finalized ks = 0
weight k released ks = 0

-- The parts that are reserved at a key, counted over the reservations.
unfoldable pub outstanding : PartsKey → List (ℕ × ReservationState × List PartsKey) → ℕ
unfolding count_key
outstanding k [] = 0
outstanding k ((id, s, ks) ∷ bs) = weight k s ks + outstanding k bs

abbrev pub IsBalanced : Guard → Type 0
IsBalanced g = (k : PartsKey) → get_or 0 k g.reserved ≡ outstanding k (skeleton g.handles)

pub get_or-increment :
    (k j : PartsKey) (m : PartsMap ℕ)
    → get_or 0 j (increment k m) ≡ get_or 0 j m + (if key_eq k j then 1 else 0)
get_or-increment k j m = ground (arith, get_or-put 0 k j (get_or 0 k m + 1) m, key_eq→eq k j)

pub get_or-decrement :
    (k j : PartsKey) (m : PartsMap ℕ)
    → get_or 0 j (decrement k m) ≡ get_or 0 j m - (if key_eq k j then 1 else 0)
unfolding decrement
get_or-decrement k j m =
    ground (arith, get_or-put 0 k j (get_or 0 k m - 1) m, get_or-delete 0 k j m, key_eq→eq k j)

pub get_or-reserve_parts :
    (k : PartsKey) (ps : List Part) (m : PartsMap ℕ)
    → get_or 0 k (reserve_parts ps m) ≡ get_or 0 k m + count_key k (keys_of ps)
unfolding reserve_parts count_key
get_or-reserve_parts k [] m = omega arith
get_or-reserve_parts k (p ∷ ps) m =
    omega (arith, get_or-reserve_parts k ps (increment p.key m), get_or-increment p.key k m)

pub get_or-decrement_all :
    (k : PartsKey) (ks : List PartsKey) (m : PartsMap ℕ)
    → get_or 0 k (decrement_all ks m) ≡ get_or 0 k m - count_key k ks
unfolding decrement_all count_key
get_or-decrement_all k [] m = omega arith
get_or-decrement_all k (j ∷ js) m =
    omega (arith, get_or-decrement_all k js (decrement j m), get_or-decrement j k m)

-- The state and the keys of a reservation that is there.
unfoldable pub find_bone :
    ℕ → List (ℕ × ReservationState × List PartsKey) → Option (ReservationState × List PartsKey)
find_bone id [] = none
find_bone id ((i, s, ks) ∷ bs) = if i == id then some (s, ks) else find_bone id bs

pub find_bone-skeleton :
    (id : ℕ) (r : Reservation) (hs : List Reservation)
    → find_handle id hs ≡ some r
    → find_bone id (skeleton hs) ≡ some (r.state, keys_of r.parts)
unfolding find_handle find_bone
find_bone-skeleton id r [] h = cc
find_bone-skeleton id r (q ∷ hs) h =
    let rest = find_bone-skeleton id r hs in ground (arith, h, rest)

pub find_handle-id :
    (id : ℕ) (r : Reservation) (hs : List Reservation) → find_handle id hs ≡ some r → r.id ≡ id
unfolding find_handle
find_handle-id id r [] h = cc
find_handle-id id r (q ∷ hs) h = let rest = find_handle-id id r hs in ground (arith, h, rest)

-- A write of the state of the reservation that is found changes the count by its weight.
module _ (id : ℕ) (s t : ReservationState) (ks : List PartsKey) (f : Reservation → Reservation)
    (writes : (q : Reservation) → bone (f q) ≡ (q.id, t, keys_of q.parts)) where
  pub outstanding-update_handle :
      (k : PartsKey) (hs : List Reservation)
      → find_bone id (skeleton hs) ≡ some (s, ks)
      → outstanding k (skeleton (update_handle id f hs)) + weight k s ks
        ≡ outstanding k (skeleton hs) + weight k t ks
  unfolding find_bone update_handle outstanding
  outstanding-update_handle k [] h = cc
  outstanding-update_handle k (q ∷ hs) h =
      let rest = outstanding-update_handle k hs in ground (arith, h, rest, writes q)

  pub find_bone-update_handle :
      (hs : List Reservation)
      → find_bone id (skeleton hs) ≡ some (s, ks)
      → find_bone id (skeleton (update_handle id f hs)) ≡ some (t, ks)
  unfolding find_bone update_handle
  find_bone-update_handle [] h = cc
  find_bone-update_handle (q ∷ hs) h =
      let rest = find_bone-update_handle hs in ground (arith, h, rest, writes q)
