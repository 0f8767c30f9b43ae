-- ===== src/Pressure/Ownership.antt =====
-- Who owns an exact part after any call.
use housegate.Base.{
  ℕ, ◌≡◌, ◌≢◌, refl, ap, ◌∙◌, Bool, true, false, not, ◌||◌, Option, none, some, List, [], String,
  ◌==◌, Result, ok, err, arith, if_ind, Bool-cases, inl, inr,
}
use housegate.Intake.Records.{CandidatePart}
use housegate.Pressure.Scope.{PartsKey, has_text, ScopeError, partition_texts}
use housegate.Pressure.Maps.{get_or}
use housegate.Pressure.Guard.{
  ReservationState, reserved, committed, finalized, released, Reservation, Guard, find_handle,
}
use housegate.Pressure.Claims.{bind_candidates}
use housegate.Pressure.Observed.{release_claims}
use housegate.Pressure.Lifecycle.{
  keys_of, commit_locked, commit, commit_indeterminate, release_locked, release_from, release,
  finalize, uncharge, affected, set_released, set_unbound, retain,
}
use housegate.Pressure.Skeleton.{written, written-Alike}
use housegate.Pressure.Balance.{Held, Held-Alike}
use housegate.Pressure.Reserving.{find_handle-Held}
use housegate.Pressure.Owners.{owner}
use housegate.Pressure.Binding.{bind_candidates-parts, bind_candidates-stays}
use housegate.Pressure.Intact.{
  Intact-trans, reconcile_all-Intact, commit_locked-Intact, finalize_locked-Intact,
  refresh_counts-Intact,
}
use housegate.Pressure.Observing.{Kept, Intact-Kept, refresh_scope-Kept}
use housegate.Pressure.Refresh.{refresh_scope}
use housegate.Pressure.Calls.{scope_of, reserve, reserve_parsed}
use housegate.Pressure.Cleanup.{
  fence, reservation_scope, arm_refreshed, prepare_cleanup_proof, rebase_after_cleanup,
  release_proved, clean_refreshed, release_cleaned, is_done, any_remaining, set_proved,
  CleanupError,
}
use housegate.Pressure.Untouched.{
  refreshed-Intact, fence-Intact, arm_bound-Intact, rebase_after_cleanup-Intact,
}
use housegate.Pressure.History.{
  Call, reserves, commits, commits_indeterminate, releases, finalizes, prepares_cleanup,
  releases_cleaned, sets_hook, refreshes, counts,
}
use housegate.Pressure.Guard.{set_observed_hook}
use housegate.Base.{subst⁻¹}
use housegate.Pressure.Releasing.{
  IsReleased, release_locked-IsReleased, release_claims-stays, uncharge-Intact, KeptUnless,
  release_claims-parts,
}

module _ (k : PartsKey) (name : String) (i : ℕ) (proper : i ≢ 0) where
  release_locked-KeptUnless :
      (r : Reservation) (g : Guard)
      → Held r g
      → Kept k name i g
      → KeptUnless k name i (release_locked r g)
  unfolding release_locked
  release_locked-KeptUnless r g held kept = elim (Bool-cases (i == r.id)) [
    | inl mine ↦ inr (
        subst⁻¹ (λ j. IsReleased j (release_locked r g)) (ground (arith, mine))
          (release_locked-IsReleased r g held))
    | inr other ↦
        let u = uncharge r r.state g in
        let given = release_claims r.id r.parts u in
        let freed = written r.id set_released given in
        inl (
          Intact-Kept k name i freed _ (reconcile_all-Intact (affected r r.state) freed) (
            given_up u (Intact-Kept k name i g u (uncharge-Intact k name i r r.state g) kept)
              (ground (arith, other))))
  ]
    where
      given_up :
          (u : Guard) → Kept k name i u → i ≢ r.id → Kept k name i (release_claims r.id r.parts u)
      given_up u (inl e) other = inl (release_claims-stays k name i r.id r.parts u other e)
      given_up u (inr e) other =
          inr (ap (λ m. has_text name (get_or [] k m)) (release_claims-parts r.id r.parts u) ∙ e)

  release_from-KeptUnless :
      (r : Reservation) (s : ReservationState) (g : Guard)
      → Held r g
      → Kept k name i g
      → KeptUnless k name i (release_from r s g)
  release_from-KeptUnless r reserved g held kept = release_locked-KeptUnless r g held kept
  release_from-KeptUnless r committed g held kept = release_locked-KeptUnless r g held kept
  release_from-KeptUnless r finalized g held kept = inl kept
  release_from-KeptUnless r released g held kept = inl kept

  release_proved-KeptUnless :
      (id : ℕ) (o : Option Reservation) (g : Guard)
      → find_handle id g.handles ≡ o
      → Kept k name i g
      → KeptUnless k name i (release_proved id o g)
  release_proved-KeptUnless id none g e kept = inl kept
  release_proved-KeptUnless id (some r) g e kept =
      let proved = written id set_proved g in
      release_locked-KeptUnless r proved
        (Held-Alike r g proved (written-Alike id set_proved g (λ q. refl))
          (find_handle-Held id r g e))
        kept

  clean_refreshed-KeptUnless :
      (r : Reservation) (p : Bool × Guard)
      → Kept k name i p.1
      → KeptUnless k name i (clean_refreshed r p).1
  clean_refreshed-KeptUnless r (false, g) kept =
      inl (Intact-Kept k name i g (fence r g) (fence-Intact r g) kept)
  clean_refreshed-KeptUnless r (true, g) kept =
      let moved = rebase_after_cleanup r.id g in
      if_ind (λ (p : Option CleanupError × Guard). KeptUnless k name i p.1)
        (any_remaining g r.parts)
        (λ _. inl (Intact-Kept k name i g (fence r g) (fence-Intact r g) kept))
        (λ _.
          release_proved-KeptUnless r.id (find_handle r.id moved.handles) moved refl
            (Intact-Kept k name i g moved (rebase_after_cleanup-Intact r.id g) kept))

  arm_refreshed-KeptUnless :
      (r : Reservation) (cs : List CandidatePart) (p : Bool × Guard)
      → Kept k name i p.1
      → KeptUnless k name i (arm_refreshed r cs p).1
  arm_refreshed-KeptUnless r cs (false, g) kept =
      inl (Intact-Kept k name i g (fence r g) (fence-Intact r g) kept)
  arm_refreshed-KeptUnless r cs (true, g) kept =
      let p = bind_candidates r cs g in
      inl (Intact-Kept k name i p.1 _ (arm_bound-Intact r cs p) (bound kept))
    where
      bound : Kept k name i g → Kept k name i (bind_candidates r cs g).1
      bound (inl e) = inl (bind_candidates-stays r cs g k name i proper e)
      bound (inr e) =
          inr (ap (λ m. has_text name (get_or [] k m)) (bind_candidates-parts r cs g) ∙ e)

  -- After any call, an exact part still belongs to the reservation that owned it, or it is not active,
  -- or that reservation has been released; an id is not 0.
  pub one_owner :
      {g h : Guard} → Call g h → owner k name g.candidate_claims ≡ some i → KeptUnless k name i h
  unfolding reserve commit commit_indeterminate release finalize prepare_cleanup_proof
      release_cleaned set_observed_hook
  one_owner {g} (reserves now is_cancelled x statement table ids) e = by (partition_texts ids)
    where
      by :
          (o : Result ScopeError (List String × Bool))
          → KeptUnless k name i (reserve_parsed now is_cancelled x statement table ids o g).1
      by (err why) = inl (inl e)
      by (ok texts) =
          let p = refresh_scope (scope_of g table ids) x g in
          inl (
            Intact-Kept k name i p.1 _ (refreshed-Intact now is_cancelled statement table ids p)
              (refresh_scope-Kept k name i (scope_of g table ids) x g e))
  one_owner {g} (commits id r cs f) e =
      let (o, bound) = bind_candidates r cs g in
      let retained = written r.id (retain o cs) bound in
      inl (
        Intact-Kept k name i retained _
          (Intact-trans retained (commit_locked r retained) _ (commit_locked-Intact r retained)
            (reconcile_all-Intact (keys_of r.parts) (commit_locked r retained)))
          (inl (bind_candidates-stays r cs g k name i proper e)))
  one_owner {g} (commits_indeterminate id r f) e =
      let unbound = written r.id set_unbound g in
      inl (
        Intact-Kept k name i unbound _
          (Intact-trans unbound (commit_locked r unbound) _ (commit_locked-Intact r unbound)
            (reconcile_all-Intact (keys_of r.parts) (commit_locked r unbound)))
          (inl e))
  one_owner {g} (releases id r f) e =
      release_from-KeptUnless r r.state g (find_handle-Held id r g f) (inl e)
  one_owner {g} (finalizes id r f) e =
      inl (Intact-Kept k name i g _ (finalize_locked-Intact r g) (inl e))
  one_owner {g} (prepares_cleanup id r x cs f) e =
      let scope = reservation_scope g r in
      if_ind (λ (p : Option CleanupError × Guard). KeptUnless k name i p.1)
        (is_done r.state || r.cleanup_proof_armed) (λ _. inl (inl e))
        (λ _.
          arm_refreshed-KeptUnless r cs (refresh_scope scope x g)
            (refresh_scope-Kept k name i scope x g e))
  one_owner {g} (releases_cleaned id r x f) e =
      let scope = reservation_scope g r in
      if_ind (λ (p : Option CleanupError × Guard). KeptUnless k name i p.1) (is_done r.state)
        (λ _. inl (inl e))
        (λ _.
          if_ind (λ (p : Option CleanupError × Guard). KeptUnless k name i p.1)
            (not r.cleanup_proof_armed)
            (λ _. inl (Intact-Kept k name i g (fence r g) (fence-Intact r g) (inl e)))
            (λ _.
              clean_refreshed-KeptUnless r (refresh_scope scope x g)
                (refresh_scope-Kept k name i scope x g e)))
  one_owner {g} sets_hook e = inl (inl e)
  one_owner {g} (refreshes scope x) e = inl (refresh_scope-Kept k name i scope x g e)
  one_owner {g} (counts rows now) e =
      inl (Intact-Kept k name i g _ (refresh_counts-Intact rows now g) (inl e))
