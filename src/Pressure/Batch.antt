-- ===== src/Pressure/Batch.antt =====
-- `RestoreBatch` of parts_pressure.go: the reservations of a whole journal after a restart, all or none.
use housegate.Base.{
  ℕ, Bool, true, false, not, ◌&&◌, Option, none, some, List, [], ◌∷◌, String, str_eq, if◌then◌else◌,
  Result, ok, err,
}
use housegate.Intake.Records.{CandidatePart}
use housegate.Pressure.Scope.{PartsKey, has_text, is_nil}
use housegate.Pressure.Guard.{Part, Reservation, Guard, find_handle, update_handle}
use housegate.Pressure.Admission.{BackpressureError, new_reservation}
use housegate.Pressure.Claims.{BindError, bind_candidates, key_index_for_candidate}
use housegate.Pressure.Observed.{flush_observations}
use housegate.Pressure.Lifecycle.{commit_locked, release_locked, finalize_locked}
use housegate.Pressure.Inventory.{Reading}
use housegate.Pressure.Refresh.{refresh_scope, exact_scope, invalidate_keys, invalidate_pending}
use housegate.Pressure.Restore.{
  RestoreRecord, RestoreError, known, is_unknown, all_in, effective_candidates, sort_texts,
  candidate_partitions, cover_seen, cancelled, read_failed, no_statement_id, duplicate_statement,
  observation_unknown, partitions_unknown, not_admitted, flush_failed, not_bound,
}

-- The reservation of a record before its candidates are bound.
abbrev pub set_recovered : Guard → RestoreRecord → List CandidatePart → Reservation → Reservation
set_recovered g d cs r = record r {
  statement_id = d.statement_id;
  recovered = true;
  observed_candidates = d.observed_candidates;
  parts = if d.finalized then cover_seen g d cs r.parts else r.parts;
}

-- `keyIndexForCandidate` of each candidate of a finalized record: the first error.
unfoldable pub first_outside : List Part → List CandidatePart → Option BindError
unfolding key_index_for_candidate
first_outside ps [] = none
first_outside ps (c ∷ cs) = elim (key_index_for_candidate c ps) [
  | err e ↦ some e
  | ok at ↦ first_outside ps cs
]

pub data Restored : Type 0 where
  failed : RestoreError → Restored
  skipped : Restored
  installed : ℕ → Restored

abbrev pub set_retained : Bool → Reservation → Reservation
set_retained b r = record r { unbound_retained = b }

abbrev pub is_unbound : RestoreRecord → List String → List CandidatePart → Bool
is_unbound d ids cs = not d.finalized && not (is_nil ids) && is_nil cs

abbrev pub commit_or_release :
    RestoreRecord
    → List String
    → List CandidatePart
    → ℕ
    → Option BindError
    → Guard
    → Option Reservation
    → Restored × Guard
commit_or_release d ids cs id e g none = (skipped, g)
commit_or_release d ids cs id (some why) g (some r) = (failed (not_bound why), release_locked r g)
commit_or_release d ids cs id none g (some r) =
    let unbound = is_unbound d ids cs in
    (
      installed id,
      commit_locked r (record g { handles = update_handle id (set_retained unbound) g.handles }),
    )

abbrev pub restore_bound :
    RestoreRecord
    → List String
    → List CandidatePart
    → ℕ
    → Option BindError × Guard
    → Restored × Guard
restore_bound d ids cs id (e, g) = commit_or_release d ids cs id e g (find_handle id g.handles)

abbrev pub bind_or_release :
    RestoreRecord
    → List String
    → List CandidatePart
    → ℕ
    → Reservation
    → Option BindError
    → Guard
    → Restored × Guard
bind_or_release d ids cs id r (some why) g = (failed (not_bound why), release_locked r g)
bind_or_release d ids cs id r none g = restore_bound d ids cs id (bind_candidates r cs g)

abbrev pub restore_named :
    RestoreRecord
    → List String
    → List CandidatePart
    → ℕ
    → Guard
    → Option Reservation
    → Restored × Guard
restore_named d ids cs id g none = (skipped, g)
restore_named d ids cs id g (some r) =
    bind_or_release d ids cs id r (if d.finalized then first_outside r.parts cs else none) g

abbrev pub restore_admitted :
    RestoreRecord
    → List String
    → List CandidatePart
    → Guard
    → Result BackpressureError ℕ × Guard
    → Restored × Guard
restore_admitted d ids cs g (err e, g') = (failed not_admitted, g')
restore_admitted d ids cs g (ok id, g') =
    let named = record g' { handles = update_handle id (set_recovered g d cs) g'.handles } in
    restore_named d ids cs id named (find_handle id named.handles)

abbrev pub restore_with :
    ℕ → RestoreRecord → List String → List CandidatePart → Guard → Restored × Guard
restore_with now d ids cs g = restore_admitted d ids cs g (new_reservation now d.table ids false g)

abbrev pub restore_effective :
    ℕ → RestoreRecord → Result RestoreError (List CandidatePart) → Guard → Restored × Guard
restore_effective now d (err e) g = (failed e, g)
restore_effective now d (ok []) g = (skipped, g)
restore_effective now d (ok (c ∷ cs)) g =
    restore_with now d (sort_texts (candidate_partitions [] (c ∷ cs))) (c ∷ cs) g

-- The loop body of `RestoreBatch`.
unfoldable pub restore_record : ℕ → List String → RestoreRecord → Guard → Restored × Guard
unfolding has_text all_in effective_candidates candidate_partitions sort_texts new_reservation
    first_outside bind_candidates find_handle update_handle cover_seen commit_locked release_locked
restore_record now seen d g =
    if str_eq d.statement_id ""
    then (failed no_statement_id, g)
    else if has_text d.statement_id seen
    then (failed duplicate_statement, g)
    else if not (all_in d.observed_candidates d.candidates)
    then (failed observation_unknown, g)
    else if not d.finalized && is_unknown d.partition_ids
    then (failed partitions_unknown, g)
    else if d.finalized && is_nil d.candidates
    then (skipped, g)
    else if d.finalized
    then restore_effective now d (effective_candidates g d d.candidates) g
    else restore_with now d (known d.partition_ids) d.candidates g

-- What has been installed: the newest first, each with its statement and whether it is finalized.
pub record Applied : Type 0 where
  pub id : ℕ
  pub statement_id : String
  pub finalized : Bool

-- `rollback` and `fail`
abbrev pub release_found : Option Reservation → Guard → Guard
release_found none g = g
release_found (some r) g = release_locked r g

unfoldable pub roll_back : List Applied → Guard → Guard
unfolding find_handle release_locked
roll_back [] g = g
roll_back (a ∷ applied) g = roll_back applied (release_found (find_handle a.id g.handles) g)

abbrev pub every_key : PartsKey → Bool
every_key key = true

abbrev pub block : Guard → Guard
block g = invalidate_keys every_key (record g { restore_blocked = true })

abbrev pub applied_record : RestoreRecord → ℕ → Applied
applied_record d id = record { id = id; statement_id = d.statement_id; finalized = d.finalized }

abbrev pub restore_next :
    RestoreRecord
    → List Applied
    → (List Applied → Guard → Result RestoreError (List Applied) × Guard)
    → Restored × Guard
    → Result RestoreError (List Applied) × Guard
restore_next d applied rest (failed e, g) = (err e, block (roll_back applied g))
restore_next d applied rest (skipped, g) = rest applied g
restore_next d applied rest (installed id, g) = rest (applied_record d id ∷ applied) g

unfoldable pub restore_each :
    ℕ
    → List String
    → List RestoreRecord
    → List Applied
    → Guard
    → Result RestoreError (List Applied) × Guard
unfolding restore_record roll_back invalidate_keys
restore_each now seen [] applied g = (ok applied, g)
restore_each now seen (d ∷ ds) applied g =
    restore_next d applied (restore_each now (d.statement_id ∷ seen) ds)
      (restore_record now seen d g)

abbrev pub finalize_found : Option Reservation → Guard → Guard
finalize_found none g = g
finalize_found (some r) g = finalize_locked r g

unfoldable pub finalize_applied : List Applied → Guard → Guard
unfolding find_handle finalize_locked
finalize_applied [] g = g
finalize_applied (a ∷ applied) g =
    let behind = finalize_applied applied g in
    if a.finalized then finalize_found (find_handle a.id behind.handles) behind else behind

-- The handles that the caller gets, by statement.
unfoldable pub reservations_of : List Applied → List (String × ℕ)
reservations_of [] = []
reservations_of (a ∷ applied) =
    let rest = reservations_of applied in
    if a.finalized then rest else (a.statement_id, a.id) ∷ rest

abbrev pub restore_flushed :
    List Applied → Bool × Guard → Result RestoreError (List (String × ℕ)) × Guard
restore_flushed applied (false, g) = (err flush_failed, block (roll_back applied g))
restore_flushed applied (true, g) = (
  ok (reservations_of applied),
  invalidate_pending (record (finalize_applied applied g) { restore_blocked = false }),
)

abbrev pub restore_installed :
    Reading
    → Result RestoreError (List Applied) × Guard
    → Result RestoreError (List (String × ℕ)) × Guard
restore_installed x (err e, g) = (err e, g)
restore_installed x (ok applied, g) =
    restore_flushed applied (flush_observations x.hook g.pending_observed g)

abbrev pub restore_refreshed :
    ℕ
    → Bool
    → Reading
    → List RestoreRecord
    → Bool × Guard
    → Result RestoreError (List (String × ℕ)) × Guard
restore_refreshed now is_cancelled x ds (false, g) =
    (err (if is_cancelled then cancelled else read_failed), block g)
restore_refreshed now is_cancelled x ds (true, g) =
    restore_installed x (restore_each now [] ds [] (record g { restore_blocked = false }))

-- `RestoreBatch`
unfoldable pub restore_batch :
    ℕ
    → Bool
    → Reading
    → List RestoreRecord
    → Guard
    → Result RestoreError (List (String × ℕ)) × Guard
unfolding refresh_scope restore_each roll_back flush_observations finalize_applied reservations_of
    invalidate_keys invalidate_pending
restore_batch now is_cancelled x ds g =
    restore_refreshed now is_cancelled x ds (refresh_scope (exact_scope g) x g)
