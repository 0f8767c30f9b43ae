-- ===== src/Pressure/Restoring.antt =====
-- `RestoreBatch` and the ledger: whether it succeeds or rolls back.
use housegate.Base.{
  ℕ, ◌≡◌, refl, ap, Bool, true, false, not, ◌&&◌, Option, none, some, List, [], ◌∷◌, String, str_eq,
  Result, ok, err, if_ind, if◌then◌else◌,
}
use housegate.Intake.Records.{CandidatePart}
use housegate.Pressure.Scope.{has_text, is_nil}
use housegate.Pressure.Guard.{Part, Reservation, Guard, find_handle}
use housegate.Pressure.Admission.{BackpressureError, new_reservation}
use housegate.Pressure.Claims.{BindError, bind_candidates}
use housegate.Pressure.Observed.{flush_observations}
use housegate.Pressure.Lifecycle.{keys_of, commit_locked, release_locked}
use housegate.Pressure.Skeleton.{bone, written, written-Alike}
use housegate.Pressure.Undisturbed.{
  bind_candidates-Alike, flush_observations-Alike, invalidate_keys-Alike, invalidate_pending-Alike,
  refresh_scope-Alike,
}
use housegate.Pressure.Ledger.{IsBalanced}
use housegate.Pressure.Balance.{Held-Alike, Alike-IsBalanced, commit_locked-IsBalanced}
use housegate.Pressure.Closing.{finalize_locked-IsBalanced, release_locked-IsBalanced}
use housegate.Pressure.Reserving.{find_handle-Held, Fair, new_reservation-Fair}
use housegate.Pressure.Inventory.{Reading}
use housegate.Pressure.Refresh.{refresh_scope, exact_scope}
use housegate.Pressure.Restore.{
  RestoreRecord, RestoreError, cover_seen, all_in, effective_candidates, is_unknown, known,
  sort_texts, candidate_partitions,
}
use housegate.Pressure.Batch.{
  Restored, set_recovered, first_outside, set_retained, is_unbound, commit_or_release,
  restore_bound, bind_or_release, restore_named, restore_admitted, restore_with, release_found,
  finalize_found, restore_effective, restore_record, Applied, roll_back, block, restore_each,
  restore_next, applied_record, finalize_applied, restore_flushed, restore_installed,
  restore_refreshed, restore_batch, every_key, failed, skipped, installed,
}

keys_of-cover_seen :
    (g : Guard) (d : RestoreRecord) (cs : List CandidatePart) (ps : List Part)
    → keys_of (cover_seen g d cs ps) ≡ keys_of ps
unfolding cover_seen
keys_of-cover_seen g d cs [] = refl
keys_of-cover_seen g d cs (p ∷ ps) = ap (λ ks. p.key ∷ ks) (keys_of-cover_seen g d cs ps)

bone-set_recovered :
    (g : Guard) (d : RestoreRecord) (cs : List CandidatePart) (r : Reservation)
    → bone (set_recovered g d cs r) ≡ bone r
bone-set_recovered g d cs r =
    if_ind (λ ps. (r.id, r.state, keys_of ps) ≡ bone r) d.finalized
      (λ _. ap (λ ks. (r.id, r.state, ks)) (keys_of-cover_seen g d cs r.parts)) (λ _. refl)

-- The reservation that is found is released or committed.
module _ (id : ℕ) (g : Guard) (b : IsBalanced g) (r : Reservation)
    (found : find_handle id g.handles ≡ some r) where
  released-IsBalanced : IsBalanced (release_locked r g)
  released-IsBalanced = release_locked-IsBalanced r g (find_handle-Held id r g found) b

  retained-IsBalanced : (u : Bool) → IsBalanced (commit_locked r (written id (set_retained u) g))
  retained-IsBalanced u =
      let h = written id (set_retained u) g in
      let alike = written-Alike id (set_retained u) g (λ q. refl) in
      commit_locked-IsBalanced r h (Held-Alike r g h alike (find_handle-Held id r g found))
        (Alike-IsBalanced g h alike b)

module _ (d : RestoreRecord) (ids : List String) (cs : List CandidatePart) (id : ℕ) where
  commit_or_release-IsBalanced :
      (e : Option BindError) (g : Guard) (o : Option Reservation)
      → find_handle id g.handles ≡ o
      → IsBalanced g
      → IsBalanced (commit_or_release d ids cs id e g o).1
  commit_or_release-IsBalanced e g none h b = b
  commit_or_release-IsBalanced (some why) g (some r) h b = released-IsBalanced id g b r h
  commit_or_release-IsBalanced none g (some r) h b =
      retained-IsBalanced id g b r h (is_unbound d ids cs)

  restore_bound-IsBalanced :
      (p : Option BindError × Guard) → IsBalanced p.1 → IsBalanced (restore_bound d ids cs id p).1
  restore_bound-IsBalanced (e, g) b =
      commit_or_release-IsBalanced e g (find_handle id g.handles) refl b

  bind_or_release-IsBalanced :
      (r : Reservation) (e : Option BindError) (g : Guard)
      → find_handle id g.handles ≡ some r
      → IsBalanced g
      → IsBalanced (bind_or_release d ids cs id r e g).1
  bind_or_release-IsBalanced r (some why) g h b = released-IsBalanced id g b r h
  bind_or_release-IsBalanced r none g h b =
      let p = bind_candidates r cs g in
      restore_bound-IsBalanced p (Alike-IsBalanced g p.1 (bind_candidates-Alike r cs g) b)

  restore_named-IsBalanced :
      (g : Guard) (o : Option Reservation)
      → find_handle id g.handles ≡ o
      → IsBalanced g
      → IsBalanced (restore_named d ids cs id g o).1
  restore_named-IsBalanced g none h b = b
  restore_named-IsBalanced g (some r) h b =
      bind_or_release-IsBalanced r (if d.finalized then first_outside r.parts cs else none) g h b

module _ (now : ℕ) (d : RestoreRecord) where
  restore_admitted-IsBalanced :
      (ids : List String) (cs : List CandidatePart) (g : Guard)
      (p : Result BackpressureError ℕ × Guard)
      → IsBalanced g
      → Fair g p
      → IsBalanced (restore_admitted d ids cs g p).1
  restore_admitted-IsBalanced ids cs g (err e, g') b fair = Alike-IsBalanced g g' fair b
  restore_admitted-IsBalanced ids cs g (ok id, g') b fair =
      let named = written id (set_recovered g d cs) g' in
      restore_named-IsBalanced d ids cs id named (find_handle id named.handles) refl (
        Alike-IsBalanced g' named
          (written-Alike id (set_recovered g d cs) g' (bone-set_recovered g d cs)) fair)

  restore_with-IsBalanced :
      (ids : List String) (cs : List CandidatePart) (g : Guard)
      → IsBalanced g
      → IsBalanced (restore_with now d ids cs g).1
  restore_with-IsBalanced ids cs g b =
      restore_admitted-IsBalanced ids cs g (new_reservation now d.table ids false g) b
        (new_reservation-Fair now d.table ids false g b)

  restore_effective-IsBalanced :
      (o : Result RestoreError (List CandidatePart)) (g : Guard)
      → IsBalanced g
      → IsBalanced (restore_effective now d o g).1
  restore_effective-IsBalanced (err e) g b = b
  restore_effective-IsBalanced (ok []) g b = b
  restore_effective-IsBalanced (ok (c ∷ cs)) g b =
      restore_with-IsBalanced (sort_texts (candidate_partitions [] (c ∷ cs))) (c ∷ cs) g b

  abbrev Balanced : Restored × Guard → Type 0
  Balanced p = IsBalanced p.1

  restore_record-IsBalanced :
      (seen : List String) (g : Guard) → IsBalanced g → Balanced (restore_record now seen d g)
  unfolding restore_record
  restore_record-IsBalanced seen g b =
      if_ind Balanced (str_eq d.statement_id "") (λ _. b)
        λ _.
          if_ind Balanced (has_text d.statement_id seen) (λ _. b)
            λ _.
              if_ind Balanced (not (all_in d.observed_candidates d.candidates)) (λ _. b)
                λ _.
                  if_ind Balanced (not d.finalized && is_unknown d.partition_ids) (λ _. b)
                    λ _.
                      if_ind Balanced (d.finalized && is_nil d.candidates) (λ _. b)
                        λ _.
                          if_ind Balanced d.finalized
                            (λ _.
                              restore_effective-IsBalanced (effective_candidates g d d.candidates) g
                                b)
                            (λ _. restore_with-IsBalanced (known d.partition_ids) d.candidates g b)

-- The whole batch.
release_found-IsBalanced :
    (id : ℕ) (o : Option Reservation) (g : Guard)
    → find_handle id g.handles ≡ o
    → IsBalanced g
    → IsBalanced (release_found o g)
release_found-IsBalanced id none g h b = b
release_found-IsBalanced id (some r) g h b = released-IsBalanced id g b r h

roll_back-IsBalanced :
    (applied : List Applied) (g : Guard) → IsBalanced g → IsBalanced (roll_back applied g)
unfolding roll_back
roll_back-IsBalanced [] g b = b
roll_back-IsBalanced (a ∷ applied) g b =
    let o = find_handle a.id g.handles in
    roll_back-IsBalanced applied (release_found o g) (release_found-IsBalanced a.id o g refl b)

block-IsBalanced : (g : Guard) → IsBalanced g → IsBalanced (block g)
block-IsBalanced g b =
    let h = record g { restore_blocked = true } in
    Alike-IsBalanced h (block g) (invalidate_keys-Alike every_key h) b

finalize_found-IsBalanced :
    (id : ℕ) (o : Option Reservation) (g : Guard)
    → find_handle id g.handles ≡ o
    → IsBalanced g
    → IsBalanced (finalize_found o g)
finalize_found-IsBalanced id none g h b = b
finalize_found-IsBalanced id (some r) g h b =
    finalize_locked-IsBalanced r g (find_handle-Held id r g h) b

finalize_applied-IsBalanced :
    (applied : List Applied) (g : Guard) → IsBalanced g → IsBalanced (finalize_applied applied g)
unfolding finalize_applied
finalize_applied-IsBalanced [] g b = b
finalize_applied-IsBalanced (a ∷ applied) g b =
    let behind = finalize_applied applied g in
    let kept = finalize_applied-IsBalanced applied g b in
    if_ind IsBalanced a.finalized
      (λ _. finalize_found-IsBalanced a.id (find_handle a.id behind.handles) behind refl kept)
      (λ _. kept)

restore_next-IsBalanced :
    (d : RestoreRecord) (applied : List Applied)
    (rest : List Applied → Guard → Result RestoreError (List Applied) × Guard)
    (p : Restored × Guard)
    → ((a : List Applied) (g : Guard) → IsBalanced g → IsBalanced (rest a g).1)
    → IsBalanced p.1
    → IsBalanced (restore_next d applied rest p).1
restore_next-IsBalanced d applied rest (failed e, g) keeps b =
    block-IsBalanced (roll_back applied g) (roll_back-IsBalanced applied g b)
restore_next-IsBalanced d applied rest (skipped, g) keeps b = keeps applied g b
restore_next-IsBalanced d applied rest (installed id, g) keeps b =
    keeps (applied_record d id ∷ applied) g b

restore_each-IsBalanced :
    (now : ℕ) (seen : List String) (ds : List RestoreRecord) (applied : List Applied) (g : Guard)
    → IsBalanced g
    → IsBalanced (restore_each now seen ds applied g).1
unfolding restore_each
restore_each-IsBalanced now seen [] applied g b = b
restore_each-IsBalanced now seen (d ∷ ds) applied g b =
    restore_next-IsBalanced d applied (restore_each now (d.statement_id ∷ seen) ds)
      (restore_record now seen d g)
      (λ a h c. restore_each-IsBalanced now (d.statement_id ∷ seen) ds a h c)
      (restore_record-IsBalanced now d seen g b)

module _ (now : ℕ) (is_cancelled : Bool) (x : Reading) where
  restore_flushed-IsBalanced :
      (applied : List Applied) (p : Bool × Guard)
      → IsBalanced p.1
      → IsBalanced (restore_flushed applied p).1
  restore_flushed-IsBalanced applied (false, g) b =
      block-IsBalanced (roll_back applied g) (roll_back-IsBalanced applied g b)
  restore_flushed-IsBalanced applied (true, g) b =
      let h = record (finalize_applied applied g) { restore_blocked = false } in
      Alike-IsBalanced h _ (invalidate_pending-Alike h) (finalize_applied-IsBalanced applied g b)

  restore_installed-IsBalanced :
      (p : Result RestoreError (List Applied) × Guard)
      → IsBalanced p.1
      → IsBalanced (restore_installed x p).1
  restore_installed-IsBalanced (err e, g) b = b
  restore_installed-IsBalanced (ok applied, g) b =
      let p = flush_observations x.hook g.pending_observed g in
      restore_flushed-IsBalanced applied p
        (Alike-IsBalanced g p.1 (flush_observations-Alike x.hook g.pending_observed g) b)

  restore_refreshed-IsBalanced :
      (ds : List RestoreRecord) (p : Bool × Guard)
      → IsBalanced p.1
      → IsBalanced (restore_refreshed now is_cancelled x ds p).1
  restore_refreshed-IsBalanced ds (false, g) b = block-IsBalanced g b
  restore_refreshed-IsBalanced ds (true, g) b =
      let opened = record g { restore_blocked = false } in
      restore_installed-IsBalanced (restore_each now [] ds [] opened)
        (restore_each-IsBalanced now [] ds [] opened b)

  pub restore_batch-IsBalanced :
      (ds : List RestoreRecord) (g : Guard)
      → IsBalanced g
      → IsBalanced (restore_batch now is_cancelled x ds g).1
  unfolding restore_batch
  restore_batch-IsBalanced ds g b =
      let p = refresh_scope (exact_scope g) x g in
      restore_refreshed-IsBalanced ds p
        (Alike-IsBalanced g p.1 (refresh_scope-Alike (exact_scope g) x g) b)
