-- ===== src/Pressure/Cleaning.antt =====
-- The cleanup proof and the ledger.
use housegate.Base.{
  ℕ, ◌≡◌, refl, ap, Bool, true, false, Option, none, some, List, [], ◌∷◌, String, str_eq, Result,
  ok, err, if_ind, ◌||◌, not,
}
use housegate.Intake.Records.{CandidatePart}
use housegate.Pressure.Scope.{PartsKey, covers, has_text}
use housegate.Pressure.Maps.{get_or}
use housegate.Pressure.Guard.{Part, Reservation, Guard, find_handle}
use housegate.Pressure.Claims.{BindError, bind_candidates, key_index_for_candidate}
use housegate.Pressure.Lifecycle.{keys_of}
use housegate.Pressure.Skeleton.{
  Alike, Alike-refl, Alike-trans, skeleton, bone, skeleton-update_part, reconcile_all-Alike,
  written, written-Alike,
}
use housegate.Pressure.Undisturbed.{
  bind_candidates-Alike, invalidate_keys-Alike, refresh_scope-Alike,
}
use housegate.Pressure.Ledger.{IsBalanced}
use housegate.Pressure.Balance.{Held-Alike, Alike-IsBalanced}
use housegate.Pressure.Closing.{release_locked-IsBalanced}
use housegate.Pressure.Inventory.{Reading}
use housegate.Pressure.Refresh.{refresh_scope, invalidate_keys}
use housegate.Pressure.Cleanup.{
  CleanupError, fence, table_scope, reservation_scope, freeze_at, freeze_behind, freeze_each, arm,
  arm_bound, arm_refreshed, prepare_cleanup_proof, rebase_parts, rebase_handles, rebase_removed,
  rebase_after_cleanup, release_proved, clean_refreshed, release_cleaned, is_done, contains_removed,
  rebased, is_rebased, live_parts, affected_keys, any_remaining, set_proved, set_armed, set_pending,
  observed_part,
}
use housegate.Pressure.Reserving.{find_handle-Held}

-- `PrepareCleanupProof` changes no state.
pub fence-Alike : (r : Reservation) (g : Guard) → Alike g (fence r g)
fence-Alike r g =
    let closed = invalidate_keys (covers (table_scope g r)) g in
    Alike-trans g closed _ (invalidate_keys-Alike (covers (table_scope g r)) g)
      (written-Alike r.id set_pending closed (λ q. refl))

module _ (r : Reservation) where
  freeze_at-Alike :
      (name : String) (at : ℕ × PartsKey) (g : Guard) → Alike g (freeze_at r name at g)
  freeze_at-Alike name (n, key) g =
      if_ind (Alike g) (has_text name (get_or [] key g.active_parts))
        (λ _. record {
          bones = skeleton-update_part r.id n (observed_part name) g.handles (λ p. refl);
          charge = refl;
          config = refl;
          ids = refl;
          blocked = refl;
        })
        (λ _. Alike-refl g)

  freeze_behind-Alike :
      (c : CandidatePart) (o : Result BindError (ℕ × PartsKey))
      (rest : Guard → Option BindError × Guard) (g : Guard)
      → ((h : Guard) → Alike h (rest h).1)
      → Alike g (freeze_behind r c o rest g).1
  freeze_behind-Alike c (err e) rest g a = Alike-refl g
  freeze_behind-Alike c (ok at) rest g a =
      Alike-trans g (freeze_at r c.part_name at g) _ (freeze_at-Alike c.part_name at g) (a _)

  freeze_each-Alike : (cs : List CandidatePart) (g : Guard) → Alike g (freeze_each r cs g).1
  unfolding freeze_each
  freeze_each-Alike [] g = Alike-refl g
  freeze_each-Alike (c ∷ cs) g =
      if_ind (λ (p : Option BindError × Guard). Alike g p.1) (str_eq c.part_name "")
        (λ _. Alike-refl g)
        (λ _.
          freeze_behind-Alike c (key_index_for_candidate c r.parts) (freeze_each r cs) g
            (freeze_each-Alike cs))

  arm-Alike : (p : Option BindError × Guard) → Alike p.1 (arm r p).1
  arm-Alike (some e, g) = fence-Alike r g
  arm-Alike (none, g) =
      Alike-trans g (written r.id set_armed g) _ (written-Alike r.id set_armed g (λ q. refl))
        (invalidate_keys-Alike (covers (table_scope g r)) (written r.id set_armed g))

  arm_bound-Alike :
      (cs : List CandidatePart) (p : Option BindError × Guard) → Alike p.1 (arm_bound r cs p).1
  arm_bound-Alike cs (some e, g) = fence-Alike r g
  arm_bound-Alike cs (none, g) =
      Alike-trans g (freeze_each r cs g).1 _ (freeze_each-Alike cs g)
        (arm-Alike (freeze_each r cs g))

  arm_refreshed-Alike :
      (cs : List CandidatePart) (p : Bool × Guard) → Alike p.1 (arm_refreshed r cs p).1
  arm_refreshed-Alike cs (false, g) = fence-Alike r g
  arm_refreshed-Alike cs (true, g) =
      Alike-trans g (bind_candidates r cs g).1 _ (bind_candidates-Alike r cs g)
        (arm_bound-Alike cs (bind_candidates r cs g))

  pub prepare_cleanup_proof-Alike :
      (x : Reading) (cs : List CandidatePart) (g : Guard)
      → Alike g (prepare_cleanup_proof x r cs g).1
  unfolding prepare_cleanup_proof
  prepare_cleanup_proof-Alike x cs g =
      let scope = reservation_scope g r in
      if_ind (λ (p : Option CleanupError × Guard). Alike g p.1)
        (is_done r.state || r.cleanup_proof_armed) (λ _. Alike-refl g)
        (λ _.
          Alike-trans g (refresh_scope scope x g).1 _ (refresh_scope-Alike scope x g)
            (arm_refreshed-Alike cs (refresh_scope scope x g)))

-- `ReleaseCleaned`: rebasing moves baselines only, and the release keeps the ledger.
keys_of-rebase_parts :
    (g : Guard) (removed ps : List Part) → keys_of (rebase_parts g removed ps) ≡ keys_of ps
unfolding rebase_parts
keys_of-rebase_parts g removed [] = refl
keys_of-rebase_parts g removed (p ∷ ps) =
    if_ind (λ (q : Part). q.key ∷ keys_of (rebase_parts g removed ps) ≡ p.key ∷ keys_of ps)
      (contains_removed removed p) {x = rebased g p} {y = p}
      (λ _. ap (λ ks. p.key ∷ ks) (keys_of-rebase_parts g removed ps))
      (λ _. ap (λ ks. p.key ∷ ks) (keys_of-rebase_parts g removed ps))

skeleton-rebase_handles :
    (g : Guard) (id : ℕ) (removed : List Part) (hs : List Reservation)
    → skeleton (rebase_handles g id removed hs) ≡ skeleton hs
unfolding rebase_handles
skeleton-rebase_handles g id removed [] = refl
skeleton-rebase_handles g id removed (r ∷ hs) =
    if_ind (λ q. bone q ∷ skeleton (rebase_handles g id removed hs) ≡ bone r ∷ skeleton hs)
      (is_rebased id r) {x = record r { parts = rebase_parts g removed r.parts }} {y = r}
      (λ _. cc (keys_of-rebase_parts g removed r.parts, skeleton-rebase_handles g id removed hs))
      (λ _. ap (λ bs. bone r ∷ bs) (skeleton-rebase_handles g id removed hs))

rebase_removed-Alike :
    (id : ℕ) (removed : List Part) (g : Guard) → Alike g (rebase_removed id removed g)
rebase_removed-Alike id removed g =
    let moved = record g { handles = rebase_handles g id removed g.handles } in
    Alike-trans g moved _
      (record {
        bones = skeleton-rebase_handles g id removed g.handles;
        charge = refl;
        config = refl;
        ids = refl;
        blocked = refl;
      })
      (reconcile_all-Alike (affected_keys id removed g.handles) moved)

pub rebase_after_cleanup-Alike : (id : ℕ) (g : Guard) → Alike g (rebase_after_cleanup id g)
unfolding rebase_after_cleanup
rebase_after_cleanup-Alike id g = rebase_removed-Alike id (live_parts (find_handle id g.handles)) g

release_proved-IsBalanced :
    (id : ℕ) (o : Option Reservation) (g : Guard)
    → find_handle id g.handles ≡ o
    → IsBalanced g
    → IsBalanced (release_proved id o g)
release_proved-IsBalanced id none g e b = b
release_proved-IsBalanced id (some r) g e b =
    let proved = written id set_proved g in
    let alike = written-Alike id set_proved g (λ q. refl) in
    release_locked-IsBalanced r proved (Held-Alike r g proved alike (find_handle-Held id r g e))
      (Alike-IsBalanced g proved alike b)

clean_refreshed-IsBalanced :
    (r : Reservation) (p : Bool × Guard) → IsBalanced p.1 → IsBalanced (clean_refreshed r p).1
clean_refreshed-IsBalanced r (false, g) b = Alike-IsBalanced g (fence r g) (fence-Alike r g) b
clean_refreshed-IsBalanced r (true, g) b =
    let moved = rebase_after_cleanup r.id g in
    if_ind (λ (p : Option CleanupError × Guard). IsBalanced p.1) (any_remaining g r.parts)
      (λ _. Alike-IsBalanced g (fence r g) (fence-Alike r g) b)
      (λ _.
        release_proved-IsBalanced r.id (find_handle r.id moved.handles) moved refl
          (Alike-IsBalanced g moved (rebase_after_cleanup-Alike r.id g) b))

pub release_cleaned-IsBalanced :
    (x : Reading) (r : Reservation) (g : Guard)
    → IsBalanced g
    → IsBalanced (release_cleaned x r g).1
unfolding release_cleaned
release_cleaned-IsBalanced x r g b =
    let scope = reservation_scope g r in
    let p = refresh_scope scope x g in
    if_ind (λ (p : Option CleanupError × Guard). IsBalanced p.1) (is_done r.state) (λ _. b)
      (λ _.
        if_ind (λ (p : Option CleanupError × Guard). IsBalanced p.1) (not r.cleanup_proof_armed)
          (λ _. Alike-IsBalanced g (fence r g) (fence-Alike r g) b)
          (λ _.
            clean_refreshed-IsBalanced r p
              (Alike-IsBalanced g p.1 (refresh_scope-Alike scope x g) b)))
