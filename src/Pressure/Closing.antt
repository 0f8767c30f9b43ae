-- ===== src/Pressure/Closing.antt =====
-- The ledger of reserved parts when reservations end.
use housegate.Base.{
  ◌≡◌, ◌≢◌, refl, ap, ◌∙◌, subst⁻¹, Option, none, some, List, [], ◌∷◌, arith, false,
}
use housegate.Intake.Records.{CandidatePart}
use housegate.Pressure.Scope.{PartsKey}
use housegate.Pressure.Maps.{get_or}
use housegate.Pressure.Guard.{
  ReservationState, reserved, committed, finalized, released, Reservation, Guard, update_handle,
}
use housegate.Pressure.Claims.{BindError, bind_candidates}
use housegate.Pressure.Observed.{release_claims}
use housegate.Pressure.Debt.{reconcile_all}
use housegate.Pressure.Lifecycle.{
  keys_of, set_state, set_state_of, commit_from, commit_locked, uncharge, affected, set_released,
  release_locked, finalize_keys, finalize_from, finalize_locked, retain, commit, set_unbound,
  commit_indeterminate, release_from, release, finalize,
}
use housegate.Pressure.Skeleton.{Alike, Alike-trans, bone, reconcile_all-Alike, written-Alike}
use housegate.Pressure.Undisturbed.{bind_candidates-Alike, release_claims-Alike}
use housegate.Pressure.Ledger.{
  outstanding, IsBalanced, find_bone, get_or-decrement_all, outstanding-update_handle,
  find_bone-update_handle,
}
use housegate.Pressure.Balance.{
  Held, Held-Alike, Alike-IsBalanced, state-IsBalanced, commit_from-IsBalanced,
  commit_locked-IsBalanced, commit_keys-Alike, remove_all_committed-Alike,
}

-- `releaseLocked` in each state, up to its last loop.
freed : Reservation → ReservationState → Guard → Guard
freed r s g =
    let g' = release_claims r.id r.parts (uncharge r s g) in
    record g' { handles = update_handle r.id set_released g'.handles }

module _ (r : Reservation) (g : Guard) (held : Held r g) (b : IsBalanced g) where
  freed-reserved : r.state ≡ reserved → IsBalanced (freed r reserved g)
  unfolding freed
  freed-reserved e k =
      let u = uncharge r reserved g in
      let h = release_claims r.id r.parts u in
      let alike = release_claims-Alike r.id r.parts u in
      let held' =
        Held-Alike r u h alike held ∙ ap (λ (s : ReservationState). some (s, keys_of r.parts)) e in
      omega (
        arith,
        b k,
        ap (get_or 0 k) alike.charge,
        ap (outstanding k) alike.bones,
        get_or-decrement_all k (keys_of r.parts) g.reserved,
        outstanding-update_handle r.id reserved released (keys_of r.parts) set_released (λ q. refl)
            k h.handles held',
      )

  freed-committed : r.state ≡ committed → IsBalanced (freed r committed g)
  unfolding freed
  freed-committed e =
      let u = uncharge r committed g in
      let h = release_claims r.id r.parts u in
      let alike =
        Alike-trans g u h (remove_all_committed-Alike r.id (keys_of r.parts) g)
          (release_claims-Alike r.id r.parts u) in
      state-IsBalanced r committed released set_released h (λ q. refl) (λ k. refl) (λ k. refl) e
        (Held-Alike r g h alike held) (Alike-IsBalanced g h alike b)

  freed-done :
      (s : ReservationState) → s ≢ reserved → s ≢ committed → r.state ≡ s → IsBalanced (freed r s g)
  unfolding freed
  freed-done reserved n m e = absurd (n refl)
  freed-done committed n m e = absurd (m refl)
  freed-done finalized n m e =
      let h = release_claims r.id r.parts g in
      let alike = release_claims-Alike r.id r.parts g in
      state-IsBalanced r finalized released set_released h (λ q. refl) (λ k. refl) (λ k. refl) e
        (Held-Alike r g h alike held) (Alike-IsBalanced g h alike b)
  freed-done released n m e =
      let h = release_claims r.id r.parts g in
      let alike = release_claims-Alike r.id r.parts g in
      state-IsBalanced r released released set_released h (λ q. refl) (λ k. refl) (λ k. refl) e
        (Held-Alike r g h alike held) (Alike-IsBalanced g h alike b)

  freed-IsBalanced : (s : ReservationState) → r.state ≡ s → IsBalanced (freed r s g)
  freed-IsBalanced reserved e = freed-reserved e
  freed-IsBalanced committed e = freed-committed e
  freed-IsBalanced finalized e = freed-done finalized (λ h. cc) (λ h. cc) e
  freed-IsBalanced released e = freed-done released (λ h. cc) (λ h. cc) e

  pub release_locked-IsBalanced : IsBalanced (release_locked r g)
  unfolding release_locked freed
  release_locked-IsBalanced =
      Alike-IsBalanced (freed r r.state g) _ (reconcile_all-Alike (affected r r.state) _)
        (freed-IsBalanced r.state refl)

  finalize_keys-IsBalanced :
      (ks : List PartsKey) → r.state ≡ committed → IsBalanced (finalize_keys r ks g)
  finalize_keys-IsBalanced [] e =
      state-IsBalanced r committed finalized (λ q. record q { state = finalized; live = false }) g
        (λ q. refl) (λ k. refl) (λ k. refl) e held b
  finalize_keys-IsBalanced (k ∷ ks) e =
      let h = set_state_of r.id finalized g in
      Alike-IsBalanced h _ (reconcile_all-Alike (k ∷ ks) h) (
        state-IsBalanced r committed finalized (set_state finalized) g (λ q. refl) (λ k. refl)
          (λ k. refl) e held b)

-- A commit leaves the reservation in the state committed.
commit_from-Held :
    (r : Reservation) (g : Guard)
    → r.state ≡ reserved
    → Held r g
    → Held (set_state committed r) (commit_from r reserved g)
commit_from-Held r g e held =
    ap (find_bone r.id) (commit_keys-Alike r.id 0 (keys_of r.parts) (set_state_of r.id committed g))
    ∙ find_bone-update_handle r.id reserved committed (keys_of r.parts) (set_state committed)
        (λ q. refl) g.handles (held ∙ ap (λ (s : ReservationState). some (s, keys_of r.parts)) e)

finalize_from-IsBalanced :
    (r : Reservation) (s : ReservationState) (g : Guard)
    → r.state ≡ s
    → Held r g
    → IsBalanced g
    → IsBalanced (finalize_from r s g)
unfolding commit_locked
finalize_from-IsBalanced r reserved g e held b =
    let h = commit_from r reserved g in
    subst⁻¹ (λ s. IsBalanced (finalize_keys r (keys_of r.parts) (commit_from r s g))) e
      (finalize_keys-IsBalanced (set_state committed r) h (commit_from-Held r g e held)
        (commit_from-IsBalanced r reserved g e held b) (keys_of r.parts) refl)
finalize_from-IsBalanced r committed g e held b =
    finalize_keys-IsBalanced r g held b (keys_of r.parts) e
finalize_from-IsBalanced r finalized g e held b = b
finalize_from-IsBalanced r released g e held b = b

-- The calls of a reservation.
retain-bone :
    (o : Option BindError) (cs : List CandidatePart) (q : Reservation)
    → bone (retain o cs q) ≡ bone q
retain-bone (some e) cs q = refl
retain-bone none [] q = refl
retain-bone none (c ∷ cs) q = refl

module _ (r : Reservation) (g : Guard) (held : Held r g) (b : IsBalanced g) where
  committed-IsBalanced :
      (h : Guard) → Alike g h → IsBalanced (reconcile_all (keys_of r.parts) (commit_locked r h))
  committed-IsBalanced h alike =
      Alike-IsBalanced (commit_locked r h) _
        (reconcile_all-Alike (keys_of r.parts) (commit_locked r h))
        (commit_locked-IsBalanced r h (Held-Alike r g h alike held) (Alike-IsBalanced g h alike b))

  pub commit-IsBalanced : (cs : List CandidatePart) → IsBalanced (commit r cs g).1
  unfolding commit
  commit-IsBalanced cs =
      let (e, h) = bind_candidates r cs g in
      committed-IsBalanced (record h { handles = update_handle r.id (retain e cs) h.handles })
        (Alike-trans g h _ (bind_candidates-Alike r cs g)
          (written-Alike r.id (retain e cs) h (retain-bone e cs)))

  pub commit_indeterminate-IsBalanced : IsBalanced (commit_indeterminate r g)
  unfolding commit_indeterminate
  commit_indeterminate-IsBalanced =
      committed-IsBalanced (record g { handles = update_handle r.id set_unbound g.handles })
        (written-Alike r.id set_unbound g (λ q. refl))

  release_from-IsBalanced : (s : ReservationState) → IsBalanced (release_from r s g)
  release_from-IsBalanced reserved = release_locked-IsBalanced r g held b
  release_from-IsBalanced committed = release_locked-IsBalanced r g held b
  release_from-IsBalanced finalized = b
  release_from-IsBalanced released = b

  pub release-IsBalanced : IsBalanced (release r g)
  unfolding release
  release-IsBalanced = release_from-IsBalanced r.state

  pub finalize_locked-IsBalanced : IsBalanced (finalize_locked r g)
  unfolding finalize_locked
  finalize_locked-IsBalanced = finalize_from-IsBalanced r r.state g refl held b

  pub finalize-IsBalanced : IsBalanced (finalize r g)
  unfolding finalize
  finalize-IsBalanced = finalize_locked-IsBalanced
