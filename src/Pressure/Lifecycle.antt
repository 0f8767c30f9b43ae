-- ===== src/Pressure/Lifecycle.antt =====
-- The states of a reservation (parts_pressure.go): commit, release and finalize, each of them one step
-- under the locks.
use housegate.Base.{
  ℕ, suc, ◌-◌, true, false, Option, none, some, List, [], ◌∷◌, ◌++◌, ◌==◌, ltb, if◌then◌else◌, map,
}
use housegate.Intake.Records.{CandidatePart}
use housegate.Pressure.Scope.{PartsKey}
use housegate.Pressure.Maps.{PartsMap, put, delete, get_or}
use housegate.Pressure.Guard.{
  ReservationState, reserved, committed, finalized, released, Part, Reservation, Slot, Guard,
  update_handle,
}
use housegate.Pressure.Debt.{reconcile, reconcile_all}
use housegate.Pressure.Claims.{BindError, bind_candidates}
use housegate.Pressure.Observed.{release_claims}

abbrev pub keys_of : List Part → List PartsKey
keys_of ps = map (λ (p : Part). p.key) ps

-- `decrementPartCount`
unfoldable pub decrement : PartsKey → PartsMap ℕ → PartsMap ℕ
decrement key m =
    if ltb 0 (get_or 0 key m - 1) then put key (get_or 0 key m - 1) m else delete key m

abbrev pub set_state : ReservationState → Reservation → Reservation
set_state s r = record r { state = s }

abbrev pub set_state_of : ℕ → ReservationState → Guard → Guard
set_state_of id s g = record g { handles = update_handle id (set_state s) g.handles }

-- The loop of `commitLocked` over the keys.
abbrev pub add_slot : ℕ → ℕ → PartsKey → Guard → Guard
add_slot id n key g = record g {
  reserved = decrement key g.reserved;
  committed_reservations =
      put key
        (get_or [] key g.committed_reservations
          ++ (record { reservation = id; key_index = n }) ∷ [])
        g.committed_reservations;
}

unfoldable pub commit_keys : ℕ → ℕ → List PartsKey → Guard → Guard
unfolding decrement reconcile
commit_keys id n [] g = g
commit_keys id n (k ∷ ks) g = commit_keys id (suc n) ks (reconcile k (add_slot id n k g))

-- `commitLocked`
abbrev pub commit_from : Reservation → ReservationState → Guard → Guard
commit_from r reserved g = commit_keys r.id 0 (keys_of r.parts) (set_state_of r.id committed g)
commit_from r committed g = g
commit_from r finalized g = g
commit_from r released g = g

unfoldable pub commit_locked : Reservation → Guard → Guard
unfolding commit_keys update_handle
commit_locked r g = commit_from r r.state g

-- `removeCommittedReservationLocked`
unfoldable pub without_slots : ℕ → List Slot → List Slot
without_slots id [] = []
without_slots id (s ∷ ss) =
    let rest = without_slots id ss in if s.reservation == id then rest else s ∷ rest

abbrev pub entries_left : PartsKey → List Slot → Guard → Guard
entries_left key [] g = record g {
  committed_reservations = delete key g.committed_reservations;
  committed = delete key g.committed;
}
entries_left key (s ∷ ss) g = record g {
  committed_reservations = put key (s ∷ ss) g.committed_reservations;
}

unfoldable pub remove_committed : ℕ → PartsKey → Guard → Guard
unfolding without_slots
remove_committed id key g =
    entries_left key (without_slots id (get_or [] key g.committed_reservations)) g

unfoldable pub remove_all_committed : ℕ → List PartsKey → Guard → Guard
unfolding remove_committed
remove_all_committed id [] g = g
remove_all_committed id (k ∷ ks) g = remove_all_committed id ks (remove_committed id k g)

unfoldable pub decrement_all : List PartsKey → PartsMap ℕ → PartsMap ℕ
unfolding decrement
decrement_all [] m = m
decrement_all (k ∷ ks) m = decrement_all ks (decrement k m)

-- `releaseLocked`
abbrev pub uncharge : Reservation → ReservationState → Guard → Guard
uncharge r reserved g = record g { reserved = decrement_all (keys_of r.parts) g.reserved }
uncharge r committed g = remove_all_committed r.id (keys_of r.parts) g
uncharge r finalized g = g
uncharge r released g = g

abbrev pub affected : Reservation → ReservationState → List PartsKey
affected r reserved = keys_of r.parts
affected r committed = keys_of r.parts
affected r finalized = []
affected r released = []

abbrev pub set_released : Reservation → Reservation
set_released r = record r { state = released; live = false }

unfoldable pub release_locked : Reservation → Guard → Guard
unfolding remove_all_committed decrement_all release_claims reconcile_all update_handle
release_locked r g =
    let freed = release_claims r.id r.parts (uncharge r r.state g) in
    reconcile_all (affected r r.state)
      (record freed { handles = update_handle r.id set_released freed.handles })

-- `finalizeLocked`, from the handle as the commit left it.
abbrev pub finalize_keys : Reservation → List PartsKey → Guard → Guard
finalize_keys r [] g = record g {
  handles = update_handle r.id (λ q. record q { state = finalized; live = false }) g.handles;
}
finalize_keys r (k ∷ ks) g = reconcile_all (k ∷ ks) (set_state_of r.id finalized g)

abbrev pub finalize_from : Reservation → ReservationState → Guard → Guard
finalize_from r reserved g = finalize_keys r (keys_of r.parts) (commit_locked r g)
finalize_from r committed g = finalize_keys r (keys_of r.parts) g
finalize_from r finalized g = g
finalize_from r released g = g

unfoldable pub finalize_locked : Reservation → Guard → Guard
unfolding commit_locked reconcile_all update_handle
finalize_locked r g = finalize_from r r.state g

-- `Commit`: the candidates are bound, or the debt stays without identity; then the state changes.
abbrev pub retain : Option BindError → List CandidatePart → Reservation → Reservation
retain (some e) cs r = record r { unbound_retained = true }
retain none [] r = r
retain none (c ∷ cs) r = record r { unbound_retained = false }

abbrev pub commit_bound :
    Reservation → List CandidatePart → Option BindError × Guard → Option BindError × Guard
commit_bound r cs (e, g) =
    let g' = record g { handles = update_handle r.id (retain e cs) g.handles } in
    (e, reconcile_all (keys_of r.parts) (commit_locked r g'))

unfoldable pub commit : Reservation → List CandidatePart → Guard → Option BindError × Guard
unfolding bind_candidates commit_locked reconcile_all update_handle
commit r cs g = commit_bound r cs (bind_candidates r cs g)

-- `CommitIndeterminate`
abbrev pub set_unbound : Reservation → Reservation
set_unbound r = record r { unbound_retained = true }

unfoldable pub commit_indeterminate : Reservation → Guard → Guard
unfolding commit_locked reconcile_all update_handle
commit_indeterminate r g =
    reconcile_all (keys_of r.parts)
      (commit_locked r (record g { handles = update_handle r.id set_unbound g.handles }))

-- `Release` and `release`
abbrev pub release_from : Reservation → ReservationState → Guard → Guard
release_from r reserved g = release_locked r g
release_from r committed g = release_locked r g
release_from r finalized g = g
release_from r released g = g

unfoldable pub release : Reservation → Guard → Guard
unfolding release_locked
release r g = release_from r r.state g

-- `Finalize`
unfoldable pub finalize : Reservation → Guard → Guard
unfolding finalize_locked
finalize r g = finalize_locked r g
