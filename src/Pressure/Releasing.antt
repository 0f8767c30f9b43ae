-- ===== src/Pressure/Releasing.antt =====
-- An exact part keeps its owner while it is active, whatever is called.
use housegate.Base.{
  ℕ, ◌≡◌, ◌≢◌, refl, sym, ap, ◌∙◌, ◌&&◌, Option, none, some, List, [], ◌∷◌, String, str_eq,
  str_eq→eq, ◌==◌, arith, if_ind, ◌⊎◌,
}
use housegate.Pressure.Scope.{PartsKey, key_eq, key_eq→eq}
use housegate.Pressure.Guard.{
  ReservationState, reserved, committed, finalized, released, Part, Reservation, Claim, Guard,
}
use housegate.Pressure.Claims.{find_claim}
use housegate.Pressure.Observed.{release_found, release_names, release_claims}
use housegate.Pressure.Lifecycle.{keys_of, release_locked, uncharge, affected, set_released}
use housegate.Pressure.Skeleton.{skeleton, written, reconcile_all-Alike}
use housegate.Pressure.Ledger.{find_bone, find_bone-update_handle}
use housegate.Pressure.Balance.{Held, remove_all_committed-Alike}
use housegate.Pressure.Undisturbed.{release_claims-Alike}
use housegate.Pressure.Owners.{owner, owner-find_claim, owner-delete_claim}
use housegate.Pressure.Intact.{Intact, Intact-refl, remove_all_committed-Intact}
use housegate.Pressure.Observing.{Kept}

-- The reservation has been released.
abbrev pub IsReleased : ℕ → Guard → Type 0
IsReleased id g = (ks : List PartsKey) × (find_bone id (skeleton g.handles) ≡ some (released, ks))

uncharge-bones :
    (r : Reservation) (s : ReservationState) (g : Guard)
    → skeleton (uncharge r s g).handles ≡ skeleton g.handles
uncharge-bones r reserved g = refl
uncharge-bones r committed g = (remove_all_committed-Alike r.id (keys_of r.parts) g).bones
uncharge-bones r finalized g = refl
uncharge-bones r released g = refl

pub release_locked-IsReleased :
    (r : Reservation) (g : Guard) → Held r g → IsReleased r.id (release_locked r g)
unfolding release_locked
release_locked-IsReleased r g held =
    let u = uncharge r r.state g in
    let given = release_claims r.id r.parts u in
    let held' : Held r given =
      ap (find_bone r.id) ((release_claims-Alike r.id r.parts u).bones ∙ uncharge-bones r r.state g)
      ∙ held in
    let freed = written r.id set_released given in
    (
      keys_of r.parts,
      ap (find_bone r.id) (reconcile_all-Alike (affected r r.state) freed).bones
          ∙ find_bone-update_handle r.id r.state released (keys_of r.parts) set_released (λ q. refl)
              given.handles held',
    )

module _ (k : PartsKey) (name : String) (i : ℕ) where
  -- The claims that are given up are those of the reservation.
  release_found-stays :
      (id : ℕ) (key : PartsKey) (n : String) (o : Option Claim) (g : Guard)
      → find_claim key n g.candidate_claims ≡ o
      → i ≢ id
      → owner k name g.candidate_claims ≡ some i
      → owner k name (release_found id key n o g).candidate_claims ≡ some i
  release_found-stays id key n none g e other h = h
  release_found-stays id key n (some c) g e other h =
      if_ind (λ (g' : Guard). owner k name g'.candidate_claims ≡ some i) (c.reservation == id)
        (λ mine. rw (owner-delete_claim k name key n g.candidate_claims) (
          if_ind (λ o. o ≡ some i) (key_eq key k && str_eq n name)
            (λ same.
              let own = owner-find_claim key n g.candidate_claims c e in
              let here : owner k name g.candidate_claims ≡ some c.reservation =
                ap (λ j. owner j name g.candidate_claims)
                  (sym (key_eq→eq key k (ground (arith, same))))
                ∙ ap (λ m. owner key m g.candidate_claims)
                    (sym (str_eq→eq n name (ground (arith, same))))
                ∙ own in
              let equal : some i ≡ some c.reservation = sym h ∙ here in
              absurd (other (ground (arith, equal, mine))))
            (λ _. h)))
        (λ _. h)

  release_names-stays :
      (id : ℕ) (key : PartsKey) (ns : List String) (g : Guard)
      → i ≢ id
      → owner k name g.candidate_claims ≡ some i
      → owner k name (release_names id key ns g).candidate_claims ≡ some i
  unfolding release_names
  release_names-stays id key [] g other h = h
  release_names-stays id key (n ∷ ns) g other h =
      let o = find_claim key n g.candidate_claims in
      release_names-stays id key ns (release_found id key n o g) other
        (release_found-stays id key n o g refl other h)

  pub release_claims-stays :
      (id : ℕ) (ps : List Part) (g : Guard)
      → i ≢ id
      → owner k name g.candidate_claims ≡ some i
      → owner k name (release_claims id ps g).candidate_claims ≡ some i
  unfolding release_claims
  release_claims-stays id [] g other h = h
  release_claims-stays id (p ∷ ps) g other h =
      release_claims-stays id ps (release_names id p.key p.candidate_parts g) other
        (release_names-stays id p.key p.candidate_parts g other h)

  pub uncharge-Intact :
      (r : Reservation) (s : ReservationState) (g : Guard) → Intact g (uncharge r s g)
  uncharge-Intact r reserved g = record { claims = refl; parts = refl; configured = refl }
  uncharge-Intact r committed g = remove_all_committed-Intact r.id (keys_of r.parts) g
  uncharge-Intact r finalized g = Intact-refl g
  uncharge-Intact r released g = Intact-refl g

  -- The part belongs to `i`, or is not active, or `i` has been released.
  abbrev pub KeptUnless : Guard → Type 0
  KeptUnless g = Kept k name i g ⊎ IsReleased i g

release_names-parts :
    (id : ℕ) (key : PartsKey) (ns : List String) (g : Guard)
    → (release_names id key ns g).active_parts ≡ g.active_parts
unfolding release_names
release_names-parts id key [] g = refl
release_names-parts id key (n ∷ ns) g =
    release_names-parts id key ns (release_found id key n (find_claim key n g.candidate_claims) g)
    ∙ found (find_claim key n g.candidate_claims)
  where
    found : (o : Option Claim) → (release_found id key n o g).active_parts ≡ g.active_parts
    found none = refl
    found (some c) =
        if_ind (λ (h : Guard). h.active_parts ≡ g.active_parts) (c.reservation == id) (λ _. refl)
          (λ _. refl)

pub release_claims-parts :
    (id : ℕ) (ps : List Part) (g : Guard) → (release_claims id ps g).active_parts ≡ g.active_parts
unfolding release_claims
release_claims-parts id [] g = refl
release_claims-parts id (p ∷ ps) g =
    release_claims-parts id ps (release_names id p.key p.candidate_parts g)
    ∙ release_names-parts id p.key p.candidate_parts g
