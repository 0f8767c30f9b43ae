-- ===== src/Pressure/Latch.antt =====
-- The latch of `RestoreBatch`, and the calls on reservations that leave it as it is.
use housegate.Base.{
  ℕ, suc, ◌≡◌, refl, ◌∙◌, Bool, true, false, not, Option, none, some, List, [], ◌∷◌, if_ind,
}
use housegate.Pressure.Scope.{PartsKey}
use housegate.Pressure.Guard.{
  ReservationState, reserved, committed, finalized, released, Reservation, Guard, find_handle,
}
use housegate.Pressure.Debt.{reconcile, reconcile_all}
use housegate.Pressure.Lifecycle.{
  keys_of, set_state_of, add_slot, commit_keys, commit_from, commit_locked, uncharge, affected,
  release_locked, finalize_keys, finalize_from, finalize_locked, release_from, release,
}
use housegate.Pressure.Inventory.{Reading}
use housegate.Pressure.Refresh.{refresh_scope}
use housegate.Pressure.Cleanup.{
  CleanupError, is_done, any_remaining, reservation_scope, release_proved, clean_refreshed,
  release_cleaned, rebase_after_cleanup,
}
use housegate.Pressure.Skeleton.{reconcile-Alike, reconcile_all-Alike}
use housegate.Pressure.Undisturbed.{release_claims-Alike, refresh_scope-Alike}
use housegate.Pressure.Balance.{remove_all_committed-Alike}
use housegate.Pressure.Cleaning.{fence-Alike, rebase_after_cleanup-Alike}

abbrev pub Latched : Guard → Guard → Type 0
Latched g h = h.restore_blocked ≡ g.restore_blocked

-- The ends of a reservation.
commit_keys-Latched :
    (id n : ℕ) (ks : List PartsKey) (g : Guard) → Latched g (commit_keys id n ks g)
unfolding commit_keys
commit_keys-Latched id n [] g = refl
commit_keys-Latched id n (k ∷ ks) g =
    commit_keys-Latched id (suc n) ks (reconcile k (add_slot id n k g))
    ∙ (reconcile-Alike k (add_slot id n k g)).blocked

commit_locked-Latched : (r : Reservation) (g : Guard) → Latched g (commit_locked r g)
unfolding commit_locked
commit_locked-Latched r g = by r.state
  where
    by : (s : ReservationState) → Latched g (commit_from r s g)
    by reserved = commit_keys-Latched r.id 0 (keys_of r.parts) (set_state_of r.id committed g)
    by committed = refl
    by finalized = refl
    by released = refl

pub committed-Latched :
    (r : Reservation) (g : Guard) → Latched g (reconcile_all (keys_of r.parts) (commit_locked r g))
committed-Latched r g =
    (reconcile_all-Alike (keys_of r.parts) (commit_locked r g)).blocked ∙ commit_locked-Latched r g

pub finalize_locked-Latched : (r : Reservation) (g : Guard) → Latched g (finalize_locked r g)
unfolding finalize_locked
finalize_locked-Latched r g = by r.state
  where
    keys : (ks : List PartsKey) (h : Guard) → Latched h (finalize_keys r ks h)
    keys [] h = refl
    keys (k ∷ ks) h = (reconcile_all-Alike (k ∷ ks) (set_state_of r.id finalized h)).blocked

    by : (s : ReservationState) → Latched g (finalize_from r s g)
    by reserved = keys (keys_of r.parts) (commit_locked r g) ∙ commit_locked-Latched r g
    by committed = keys (keys_of r.parts) g
    by finalized = refl
    by released = refl

release_locked-Latched : (r : Reservation) (g : Guard) → Latched g (release_locked r g)
unfolding release_locked
release_locked-Latched r g =
    (reconcile_all-Alike (affected r r.state) _).blocked
    ∙ (release_claims-Alike r.id r.parts (uncharge r r.state g)).blocked
    ∙ by r.state
  where
    by : (s : ReservationState) → Latched g (uncharge r s g)
    by reserved = refl
    by committed = (remove_all_committed-Alike r.id (keys_of r.parts) g).blocked
    by finalized = refl
    by released = refl

pub release-Latched : (r : Reservation) (g : Guard) → Latched g (release r g)
unfolding release
release-Latched r g = by r.state
  where
    by : (s : ReservationState) → Latched g (release_from r s g)
    by reserved = release_locked-Latched r g
    by committed = release_locked-Latched r g
    by finalized = refl
    by released = refl

release_proved-Latched :
    (id : ℕ) (o : Option Reservation) (g : Guard) → Latched g (release_proved id o g)
release_proved-Latched id none g = refl
release_proved-Latched id (some r) g = release_locked-Latched r _

clean_refreshed-Latched : (r : Reservation) (p : Bool × Guard) → Latched p.1 (clean_refreshed r p).1
clean_refreshed-Latched r (false, g) = (fence-Alike r g).blocked
clean_refreshed-Latched r (true, g) =
    let moved = rebase_after_cleanup r.id g in
    if_ind (λ (p : Option CleanupError × Guard). Latched g p.1) (any_remaining g r.parts)
      (λ _. (fence-Alike r g).blocked)
      (λ _.
        release_proved-Latched r.id (find_handle r.id moved.handles) moved
        ∙ (rebase_after_cleanup-Alike r.id g).blocked)

pub release_cleaned-Latched :
    (x : Reading) (r : Reservation) (g : Guard) → Latched g (release_cleaned x r g).1
unfolding release_cleaned
release_cleaned-Latched x r g =
    let p = refresh_scope (reservation_scope g r) x g in
    if_ind (λ (p : Option CleanupError × Guard). Latched g p.1) (is_done r.state) (λ _. refl)
      (λ _.
        if_ind (λ (p : Option CleanupError × Guard). Latched g p.1) (not r.cleanup_proof_armed)
          (λ _. (fence-Alike r g).blocked)
          (λ _.
            clean_refreshed-Latched r p
            ∙ (refresh_scope-Alike (reservation_scope g r) x g).blocked))
