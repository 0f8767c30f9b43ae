-- ===== src/Pressure/Skeleton.antt =====
-- What reconciling, binding and refreshing leave alone: who is there, in which state and with which keys,
-- and what is reserved.
use housegate.Base.{
  ℕ, zero, suc, ◌≡◌, refl, ap, ◌∙◌, List, [], ◌∷◌, String, ◌==◌, map, if_ind, option_ind, length,
}
use housegate.Pressure.Scope.{PartsKey}
use housegate.Pressure.Maps.{get_or}
use housegate.Pressure.Guard.{
  ReservationState, Part, Reservation, Slot, Guard, find_handle, update_handle,
}
use housegate.Pressure.Debt.{
  SlotView, views, sort_views, mark_covered, prune_finalized, prune_all, set_entries, settle,
  reconcile_views, reconcile_slots, reconcile, reconcile_all, set_part, is_exact_covered,
  kept_slots, finalized_ids,
}
use housegate.Pressure.Lifecycle.{keys_of}

abbrev pub bone : Reservation → ℕ × ReservationState × List PartsKey
bone r = (r.id, r.state, keys_of r.parts)

abbrev pub skeleton : List Reservation → List (ℕ × ReservationState × List PartsKey)
skeleton hs = map bone hs

-- `h` has the reservations of `g` and what is reserved for them.
pub record Alike (g h : Guard) : Type 0 where
  pub bones : skeleton h.handles ≡ skeleton g.handles
  pub charge : h.reserved ≡ g.reserved
  pub config : h.cfg ≡ g.cfg
  pub ids : h.next_reservation_id ≡ g.next_reservation_id
  pub blocked : h.restore_blocked ≡ g.restore_blocked

pub Alike-refl : (g : Guard) → Alike g g
Alike-refl g = record { bones = refl; charge = refl; config = refl; ids = refl; blocked = refl }

pub Alike-trans : (f g h : Guard) → Alike f g → Alike g h → Alike f h
Alike-trans f g h a b = record {
  bones = b.bones ∙ a.bones;
  charge = b.charge ∙ a.charge;
  config = b.config ∙ a.config;
  ids = b.ids ∙ a.ids;
  blocked = b.blocked ∙ a.blocked;
}

pub skeleton-update_handle :
    (id : ℕ) (f : Reservation → Reservation) (hs : List Reservation)
    → ((r : Reservation) → bone (f r) ≡ bone r)
    → skeleton (update_handle id f hs) ≡ skeleton hs
unfolding update_handle
skeleton-update_handle id f [] e = refl
skeleton-update_handle id f (r ∷ hs) e =
    if_ind (λ xs. skeleton xs ≡ bone r ∷ skeleton hs) (r.id == id)
      (λ _. ap (λ b. b ∷ skeleton hs) (e r))
      (λ _. ap (λ bs. bone r ∷ bs) (skeleton-update_handle id f hs e))

-- A write through the pointer of a reservation.
abbrev pub written : ℕ → (Reservation → Reservation) → Guard → Guard
written id f g = record g { handles = update_handle id f g.handles }

pub written-Alike :
    (id : ℕ) (f : Reservation → Reservation) (g : Guard)
    → ((r : Reservation) → bone (f r) ≡ bone r)
    → Alike g (written id f g)
written-Alike id f g e = record {
  bones = skeleton-update_handle id f g.handles e;
  charge = refl;
  config = refl;
  ids = refl;
  blocked = refl;
}

pub keys_of-set_part :
    (n : ℕ) (f : Part → Part) (ps : List Part)
    → ((p : Part) → (f p).key ≡ p.key)
    → keys_of (set_part n f ps) ≡ keys_of ps
unfolding set_part
keys_of-set_part n f [] e = refl
keys_of-set_part zero f (p ∷ ps) e = ap (λ k. k ∷ keys_of ps) (e p)
keys_of-set_part (suc n) f (p ∷ ps) e = ap (λ ks. p.key ∷ ks) (keys_of-set_part n f ps e)

pub skeleton-update_part :
    (id n : ℕ) (f : Part → Part) (hs : List Reservation)
    → ((p : Part) → (f p).key ≡ p.key)
    → skeleton (update_handle id (λ r. record r { parts = set_part n f r.parts }) hs) ≡ skeleton hs
skeleton-update_part id n f hs e =
    skeleton-update_handle id _ hs
      (λ r. ap (λ ks. (r.id, r.state, ks)) (keys_of-set_part n f r.parts e))

skeleton-mark_covered :
    (gen : ℕ) (active : List String) (vs : List SlotView) (hs : List Reservation)
    → skeleton (mark_covered gen active vs hs) ≡ skeleton hs
unfolding mark_covered
skeleton-mark_covered gen active [] hs = refl
skeleton-mark_covered gen active (v ∷ vs) hs =
    skeleton-mark_covered gen active vs _
    ∙ if_ind (λ xs. skeleton xs ≡ skeleton hs) (is_exact_covered gen active v.part)
        (λ _. skeleton-update_part v.slot.reservation v.slot.key_index _ hs (λ p. refl)) (λ _. refl)

prune_finalized-Alike : (id : ℕ) (g : Guard) → Alike g (prune_finalized id g)
unfolding prune_finalized
prune_finalized-Alike id g =
    option_ind (Alike g) (find_handle id g.handles) (λ _. Alike-refl g)
      (λ r _.
        if_ind (Alike g) _ (λ _. Alike-refl g)
          (λ _. record {
            bones = skeleton-update_handle id _ g.handles (λ r. refl);
            charge = refl;
            config = refl;
            ids = refl;
            blocked = refl;
          }))

prune_all-Alike : (ids : List ℕ) (g : Guard) → Alike g (prune_all ids g)
unfolding prune_all
prune_all-Alike [] g = Alike-refl g
prune_all-Alike (id ∷ ids) g =
    Alike-trans g (prune_finalized id g) _ (prune_finalized-Alike id g)
      (prune_all-Alike ids (prune_finalized id g))

set_entries-Alike :
    (key : PartsKey) (ss : List Slot) (n : ℕ) (g : Guard) → Alike g (set_entries key ss n g)
set_entries-Alike key [] n g = record {
  bones = refl;
  charge = refl;
  config = refl;
  ids = refl;
  blocked = refl;
}
set_entries-Alike key (s ∷ ss) n g = record {
  bones = refl;
  charge = refl;
  config = refl;
  ids = refl;
  blocked = refl;
}

settle-Alike :
    (key : PartsKey) (n : ℕ) (vs : List SlotView) (g : Guard) → Alike g (settle key n vs g)
unfolding settle
settle-Alike key n vs g =
    if_ind (Alike g) (n == length vs)
      (λ _.
        Alike-trans g _ _ (set_entries-Alike key (kept_slots vs) 0 g)
          (prune_all-Alike (finalized_ids vs) (set_entries key (kept_slots vs) 0 g)))
      (λ _. set_entries-Alike key _ _ g)

reconcile_views-Alike :
    (key : PartsKey) (vs : List SlotView) (g : Guard) → Alike g (reconcile_views key vs g)
unfolding reconcile_views
reconcile_views-Alike key vs g =
    Alike-trans g _ _
      (record {
        bones = skeleton-mark_covered _ _ vs g.handles;
        charge = refl;
        config = refl;
        ids = refl;
        blocked = refl;
      })
      (settle-Alike key _ vs _)

reconcile_slots-Alike :
    (key : PartsKey) (ss : List Slot) (g : Guard) → Alike g (reconcile_slots key ss g)
reconcile_slots-Alike key [] g = record {
  bones = refl;
  charge = refl;
  config = refl;
  ids = refl;
  blocked = refl;
}
reconcile_slots-Alike key (s ∷ ss) g =
    reconcile_views-Alike key (sort_views (views g.handles (s ∷ ss))) g

pub reconcile-Alike : (key : PartsKey) (g : Guard) → Alike g (reconcile key g)
unfolding reconcile
reconcile-Alike key g = reconcile_slots-Alike key (get_or [] key g.committed_reservations) g

pub reconcile_all-Alike : (keys : List PartsKey) (g : Guard) → Alike g (reconcile_all keys g)
unfolding reconcile_all
reconcile_all-Alike [] g = Alike-refl g
reconcile_all-Alike (k ∷ ks) g =
    Alike-trans g (reconcile k g) _ (reconcile-Alike k g) (reconcile_all-Alike ks (reconcile k g))
