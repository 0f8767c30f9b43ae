-- ===== src/Pressure/Intact.antt =====
-- What the debt of a key does not touch: the claims on exact parts and the inventory.
use housegate.Base.{
  Bool, Option, none, some, ℕ, suc, ◌≡◌, refl, ◌∙◌, List, [], ◌∷◌, if_ind, option_ind, length, ◌==◌,
}
use housegate.Pressure.Scope.{PartsKey, PartsScope, covers}
use housegate.Pressure.Maps.{PartsMap, get_or}
use housegate.Pressure.Guard.{
  ReservationState, reserved, committed, finalized, released, Reservation, Slot, Guard, Observation,
  find_handle,
}
use housegate.Pressure.Debt.{
  SlotView, views, sort_views, prune_finalized, prune_all, set_entries, settle, reconcile_views,
  reconcile_slots, reconcile, reconcile_all, kept_slots, finalized_ids,
}
use housegate.Pressure.Lifecycle.{
  keys_of, add_slot, commit_keys, commit_from, commit_locked, entries_left, without_slots,
  remove_committed, remove_all_committed, finalize_keys, finalize_from, finalize_locked,
  set_state_of,
}
use housegate.Pressure.Inventory.{CountRow, number_rows}
use housegate.Pressure.Refresh.{
  reconcile_scope_keys, reconcile_scope, invalidate_keys, invalidate_pending,
  invalidate_pending_from, mark_exact_scope_fresh, apply_count_scope, count_scope, refresh_counts,
}

pub record Intact (g h : Guard) : Type 0 where
  pub claims : h.candidate_claims ≡ g.candidate_claims
  pub parts : h.active_parts ≡ g.active_parts
  pub configured : h.cfg ≡ g.cfg

pub Intact-refl : (g : Guard) → Intact g g
Intact-refl g = record { claims = refl; parts = refl; configured = refl }

pub Intact-trans : (f g h : Guard) → Intact f g → Intact g h → Intact f h
Intact-trans f g h a b = record {
  claims = b.claims ∙ a.claims;
  parts = b.parts ∙ a.parts;
  configured = b.configured ∙ a.configured;
}

prune_finalized-Intact : (id : ℕ) (g : Guard) → Intact g (prune_finalized id g)
unfolding prune_finalized
prune_finalized-Intact id g =
    option_ind (Intact g) (find_handle id g.handles) (λ _. Intact-refl g)
      (λ r _.
        if_ind (Intact g) _ (λ _. Intact-refl g)
          (λ _. record { claims = refl; parts = refl; configured = refl }))

prune_all-Intact : (ids : List ℕ) (g : Guard) → Intact g (prune_all ids g)
unfolding prune_all
prune_all-Intact [] g = Intact-refl g
prune_all-Intact (id ∷ ids) g =
    Intact-trans g (prune_finalized id g) _ (prune_finalized-Intact id g)
      (prune_all-Intact ids (prune_finalized id g))

set_entries-Intact :
    (key : PartsKey) (ss : List Slot) (n : ℕ) (g : Guard) → Intact g (set_entries key ss n g)
set_entries-Intact key [] n g = record { claims = refl; parts = refl; configured = refl }
set_entries-Intact key (s ∷ ss) n g = record { claims = refl; parts = refl; configured = refl }

settle-Intact :
    (key : PartsKey) (n : ℕ) (vs : List SlotView) (g : Guard) → Intact g (settle key n vs g)
unfolding settle
settle-Intact key n vs g =
    if_ind (Intact g) (n == length vs)
      (λ _.
        Intact-trans g _ _ (set_entries-Intact key (kept_slots vs) 0 g)
          (prune_all-Intact (finalized_ids vs) (set_entries key (kept_slots vs) 0 g)))
      (λ _. set_entries-Intact key _ _ g)

reconcile_views-Intact :
    (key : PartsKey) (vs : List SlotView) (g : Guard) → Intact g (reconcile_views key vs g)
unfolding reconcile_views
reconcile_views-Intact key vs g =
    Intact-trans g _ _ (record { claims = refl; parts = refl; configured = refl })
      (settle-Intact key _ vs _)

reconcile_slots-Intact :
    (key : PartsKey) (ss : List Slot) (g : Guard) → Intact g (reconcile_slots key ss g)
reconcile_slots-Intact key [] g = record { claims = refl; parts = refl; configured = refl }
reconcile_slots-Intact key (s ∷ ss) g =
    reconcile_views-Intact key (sort_views (views g.handles (s ∷ ss))) g

pub reconcile-Intact : (key : PartsKey) (g : Guard) → Intact g (reconcile key g)
unfolding reconcile
reconcile-Intact key g = reconcile_slots-Intact key (get_or [] key g.committed_reservations) g

pub reconcile_all-Intact : (keys : List PartsKey) (g : Guard) → Intact g (reconcile_all keys g)
unfolding reconcile_all
reconcile_all-Intact [] g = Intact-refl g
reconcile_all-Intact (k ∷ ks) g =
    Intact-trans g (reconcile k g) _ (reconcile-Intact k g)
      (reconcile_all-Intact ks (reconcile k g))

reconcile_scope_keys-Intact :
    (scope : PartsScope) (m : PartsMap (List Slot)) (g : Guard)
    → Intact g (reconcile_scope_keys scope m g)
unfolding reconcile_scope_keys
reconcile_scope_keys-Intact scope [] g = Intact-refl g
reconcile_scope_keys-Intact scope ((k, ss) ∷ m) g =
    if_ind (λ h. Intact g (reconcile_scope_keys scope m h)) (covers scope k)
      (λ _.
        Intact-trans g (reconcile k g) _ (reconcile-Intact k g)
          (reconcile_scope_keys-Intact scope m (reconcile k g)))
      (λ _. reconcile_scope_keys-Intact scope m g)

pub reconcile_scope-Intact : (scope : PartsScope) (g : Guard) → Intact g (reconcile_scope scope g)
reconcile_scope-Intact scope g = reconcile_scope_keys-Intact scope g.committed_reservations g

commit_keys-Intact : (id n : ℕ) (ks : List PartsKey) (g : Guard) → Intact g (commit_keys id n ks g)
unfolding commit_keys
commit_keys-Intact id n [] g = Intact-refl g
commit_keys-Intact id n (k ∷ ks) g =
    let added = add_slot id n k g in
    Intact-trans g added _ (record { claims = refl; parts = refl; configured = refl })
      (Intact-trans added (reconcile k added) _ (reconcile-Intact k added)
        (commit_keys-Intact id (suc n) ks (reconcile k added)))

commit_from-Intact :
    (r : Reservation) (s : ReservationState) (g : Guard) → Intact g (commit_from r s g)
commit_from-Intact r reserved g =
    Intact-trans g (set_state_of r.id committed g) _
      (record { claims = refl; parts = refl; configured = refl })
      (commit_keys-Intact r.id 0 (keys_of r.parts) (set_state_of r.id committed g))
commit_from-Intact r committed g = Intact-refl g
commit_from-Intact r finalized g = Intact-refl g
commit_from-Intact r released g = Intact-refl g

pub commit_locked-Intact : (r : Reservation) (g : Guard) → Intact g (commit_locked r g)
unfolding commit_locked
commit_locked-Intact r g = commit_from-Intact r r.state g

entries_left-Intact :
    (key : PartsKey) (ss : List Slot) (g : Guard) → Intact g (entries_left key ss g)
entries_left-Intact key [] g = record { claims = refl; parts = refl; configured = refl }
entries_left-Intact key (s ∷ ss) g = record { claims = refl; parts = refl; configured = refl }

pub remove_all_committed-Intact :
    (id : ℕ) (ks : List PartsKey) (g : Guard) → Intact g (remove_all_committed id ks g)
unfolding remove_all_committed remove_committed
remove_all_committed-Intact id [] g = Intact-refl g
remove_all_committed-Intact id (k ∷ ks) g =
    Intact-trans g (remove_committed id k g) _
      (entries_left-Intact k (without_slots id (get_or [] k g.committed_reservations)) g)
      (remove_all_committed-Intact id ks (remove_committed id k g))

finalize_keys-Intact :
    (r : Reservation) (ks : List PartsKey) (g : Guard) → Intact g (finalize_keys r ks g)
finalize_keys-Intact r [] g = record { claims = refl; parts = refl; configured = refl }
finalize_keys-Intact r (k ∷ ks) g =
    Intact-trans g (set_state_of r.id finalized g) _
      (record { claims = refl; parts = refl; configured = refl })
      (reconcile_all-Intact (k ∷ ks) (set_state_of r.id finalized g))

finalize_from-Intact :
    (r : Reservation) (s : ReservationState) (g : Guard) → Intact g (finalize_from r s g)
finalize_from-Intact r reserved g =
    Intact-trans g (commit_locked r g) _ (commit_locked-Intact r g)
      (finalize_keys-Intact r (keys_of r.parts) (commit_locked r g))
finalize_from-Intact r committed g = finalize_keys-Intact r (keys_of r.parts) g
finalize_from-Intact r finalized g = Intact-refl g
finalize_from-Intact r released g = Intact-refl g

pub finalize_locked-Intact : (r : Reservation) (g : Guard) → Intact g (finalize_locked r g)
unfolding finalize_locked
finalize_locked-Intact r g = finalize_from-Intact r r.state g

pub invalidate_keys-Intact : (m : PartsKey → Bool) (g : Guard) → Intact g (invalidate_keys m g)
unfolding invalidate_keys
invalidate_keys-Intact m g = record { claims = refl; parts = refl; configured = refl }

pub invalidate_pending-Intact : (g : Guard) → Intact g (invalidate_pending g)
unfolding invalidate_pending
invalidate_pending-Intact g = by g.pending_observed
  where
    by : (os : List Observation) → Intact g (invalidate_pending_from os g)
    by [] = Intact-refl g
    by (o ∷ os) = invalidate_keys-Intact _ g

pub mark_exact_scope_fresh-Intact :
    (scope : PartsScope) (now : ℕ) (g : Guard) → Intact g (mark_exact_scope_fresh scope now g)
unfolding mark_exact_scope_fresh
mark_exact_scope_fresh-Intact scope now g = record {
  claims = refl;
  parts = refl;
  configured = refl;
}

apply_count_scope-Intact :
    (scope : PartsScope) (counts : PartsMap ℕ) (now : ℕ) (g : Guard)
    → Intact g (apply_count_scope scope counts now g)
unfolding apply_count_scope
apply_count_scope-Intact scope counts now g = record {
  claims = refl;
  parts = refl;
  configured = refl;
}

pub refresh_counts-Intact :
    (rows : Option (List CountRow)) (now : ℕ) (g : Guard) → Intact g (refresh_counts rows now g).1
unfolding refresh_counts
refresh_counts-Intact none now g = Intact-refl g
refresh_counts-Intact (some rows) now g =
    let applied = apply_count_scope (count_scope g) (number_rows rows []) now g in
    Intact-trans g applied _ (apply_count_scope-Intact (count_scope g) (number_rows rows []) now g)
      (reconcile_scope-Intact (count_scope g) applied)
