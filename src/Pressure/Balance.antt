-- ===== src/Pressure/Balance.antt =====
-- Every change of state of a reservation keeps the ledger balanced.
use housegate.Base.{ℕ, suc, ◌+◌, ◌≡◌, refl, sym, ap, ◌∙◌, some, List, [], ◌∷◌, arith}
use housegate.Pressure.Scope.{PartsKey}
use housegate.Pressure.Maps.{get_or}
use housegate.Pressure.Guard.{
  ReservationState, reserved, committed, finalized, released, Reservation, Slot, Guard,
  update_handle,
}
use housegate.Pressure.Debt.{reconcile}
use housegate.Pressure.Lifecycle.{
  keys_of, set_state, set_state_of, add_slot, commit_keys, commit_from, commit_locked, entries_left,
  without_slots, remove_committed, remove_all_committed,
}
use housegate.Pressure.Skeleton.{Alike, Alike-refl, Alike-trans, skeleton, bone, reconcile-Alike}
use housegate.Pressure.Ledger.{
  count_key, weight, outstanding, IsBalanced, find_bone, get_or-decrement,
  outstanding-update_handle,
}

-- The reservation is the one that its pointer shows, in its state and with its keys.
abbrev pub Held : Reservation → Guard → Type 0
Held r g = find_bone r.id (skeleton g.handles) ≡ some (r.state, keys_of r.parts)

pub Held-Alike : (r : Reservation) (g h : Guard) → Alike g h → Held r g → Held r h
Held-Alike r g h a held = ap (find_bone r.id) a.bones ∙ held

-- What is reserved is what is outstanding and, further, the keys `ks` that are still to be given back.
abbrev Owes : List PartsKey → Guard → Type 0
Owes ks g =
    (k : PartsKey) → get_or 0 k g.reserved ≡ outstanding k (skeleton g.handles) + count_key k ks

Owes-Alike : (ks : List PartsKey) (g h : Guard) → Alike g h → Owes ks g → Owes ks h
Owes-Alike ks g h a owes k =
    ap (get_or 0 k) a.charge ∙ owes k ∙ ap (λ b. outstanding k b + count_key k ks) (sym a.bones)

Owes-nil : (g : Guard) → IsBalanced g → Owes [] g
unfolding count_key
Owes-nil g b k = omega (arith, b k)

Owes-IsBalanced : (g : Guard) → Owes [] g → IsBalanced g
unfolding count_key
Owes-IsBalanced g o k = omega (arith, o k)

pub Alike-IsBalanced : (g h : Guard) → Alike g h → IsBalanced g → IsBalanced h
Alike-IsBalanced g h a b k = ap (get_or 0 k) a.charge ∙ b k ∙ ap (outstanding k) (sym a.bones)

-- A reservation that leaves the state reserved owes its keys; one that is in another owes none.
state-Owes :
    (r : Reservation) (t : ReservationState) (f : Reservation → Reservation) (g : Guard)
    → ((q : Reservation) → bone (f q) ≡ (q.id, t, keys_of q.parts))
    → ((k : PartsKey) → weight k t (keys_of r.parts) ≡ 0)
    → r.state ≡ reserved
    → Held r g
    → IsBalanced g
    → Owes (keys_of r.parts) (record g { handles = update_handle r.id f g.handles })
state-Owes r t f g writes light e held b k =
    let ks = keys_of r.parts in
    let held' = held ∙ ap (λ (s : ReservationState). some (s, ks)) e in
    omega
      (arith, b k, light k, outstanding-update_handle r.id reserved t ks f writes k g.handles held')

pub state-IsBalanced :
    (r : Reservation) (s t : ReservationState) (f : Reservation → Reservation) (g : Guard)
    → ((q : Reservation) → bone (f q) ≡ (q.id, t, keys_of q.parts))
    → ((k : PartsKey) → weight k s (keys_of r.parts) ≡ 0)
    → ((k : PartsKey) → weight k t (keys_of r.parts) ≡ 0)
    → r.state ≡ s
    → Held r g
    → IsBalanced g
    → IsBalanced (record g { handles = update_handle r.id f g.handles })
state-IsBalanced r s t f g writes light light' e held b k =
    let ks = keys_of r.parts in
    let held' = held ∙ ap (λ (s : ReservationState). some (s, ks)) e in
    omega (
      arith,
      b k,
      light k,
      light' k,
      outstanding-update_handle r.id s t ks f writes k g.handles held',
    )

commit_keys-Owes :
    (id n : ℕ) (ks : List PartsKey) (g : Guard) → Owes ks g → Owes [] (commit_keys id n ks g)
unfolding commit_keys count_key
commit_keys-Owes id n [] g o = o
commit_keys-Owes id n (k ∷ ks) g o =
    commit_keys-Owes id (suc n) ks _
      (Owes-Alike ks (add_slot id n k g) _ (reconcile-Alike k (add_slot id n k g)) one_less)
  where
    one_less : Owes ks (add_slot id n k g)
    one_less j = omega (arith, o j, get_or-decrement k j g.reserved)

pub commit_from-IsBalanced :
    (r : Reservation) (s : ReservationState) (g : Guard)
    → r.state ≡ s
    → Held r g
    → IsBalanced g
    → IsBalanced (commit_from r s g)
commit_from-IsBalanced r reserved g e held b =
    Owes-IsBalanced (commit_keys r.id 0 (keys_of r.parts) (set_state_of r.id committed g)) (
      commit_keys-Owes r.id 0 (keys_of r.parts) (set_state_of r.id committed g)
        (state-Owes r committed (set_state committed) g (λ q. refl) (λ k. refl) e held b))
commit_from-IsBalanced r committed g e held b = b
commit_from-IsBalanced r finalized g e held b = b
commit_from-IsBalanced r released g e held b = b

pub commit_locked-IsBalanced :
    (r : Reservation) (g : Guard) → Held r g → IsBalanced g → IsBalanced (commit_locked r g)
unfolding commit_locked
commit_locked-IsBalanced r g = commit_from-IsBalanced r r.state g refl

-- The state after a commit.
pub commit_keys-Alike :
    (id n : ℕ) (ks : List PartsKey) (g : Guard)
    → skeleton (commit_keys id n ks g).handles ≡ skeleton g.handles
unfolding commit_keys
commit_keys-Alike id n [] g = refl
commit_keys-Alike id n (k ∷ ks) g =
    commit_keys-Alike id (suc n) ks (reconcile k (add_slot id n k g))
    ∙ (reconcile-Alike k (add_slot id n k g)).bones

pub remove_all_committed-Alike :
    (id : ℕ) (ks : List PartsKey) (g : Guard) → Alike g (remove_all_committed id ks g)
unfolding remove_all_committed remove_committed
remove_all_committed-Alike id [] g = Alike-refl g
remove_all_committed-Alike id (k ∷ ks) g =
    Alike-trans g (remove_committed id k g) _
      (left (without_slots id (get_or [] k g.committed_reservations)))
      (remove_all_committed-Alike id ks (remove_committed id k g))
  where
    left : (ss : List Slot) → Alike g (entries_left k ss g)
    left [] = record { bones = refl; charge = refl; config = refl; ids = refl; blocked = refl }
    left (s ∷ ss) = record {
      bones = refl;
      charge = refl;
      config = refl;
      ids = refl;
      blocked = refl;
    }
