-- ===== src/Pressure/Cleanup.antt =====
-- The proof that an exact cleanup removed what it should (parts_pressure.go): `PrepareCleanupProof` before
-- the abort, `ReleaseCleaned` after it. Until then the table of the reservation is fenced.
use housegate.Base.{
  ℕ, Bool, true, false, not, ◌&&◌, ◌||◌, Option, none, some, List, [], ◌∷◌, ◌++◌, String, str_eq,
  ◌==◌, if◌then◌else◌, Result, ok, err, map,
}
use housegate.Intake.Records.{CandidatePart}
use housegate.Pressure.Scope.{PartsKey, key_eq, PartsScope, covers, has_text}
use housegate.Pressure.Maps.{get_or}
use housegate.Pressure.Guard.{
  ReservationState, reserved, committed, finalized, released, Part, Reservation, Guard, find_handle,
  update_handle, generation,
}
use housegate.Pressure.Debt.{reconcile_all, update_part, set_part}
use housegate.Pressure.Claims.{
  BindError, bind_candidates, is_released, key_index_for_candidate, add_text, empty_part_name,
}
use housegate.Pressure.Lifecycle.{release_locked}
use housegate.Pressure.Inventory.{Reading}
use housegate.Pressure.Refresh.{refresh_scope, invalidate_keys}
use housegate.Pressure.Calls.{scope_of}

-- `tableScope` and `reservationScope`
abbrev pub table_of : List Part → String
table_of [] = ""
table_of (p ∷ ps) = p.key.table

abbrev pub last_table : String → List Part → String
last_table t [] = t
last_table t (p ∷ ps) = last_table p.key.table ps

abbrev pub table_scope : Guard → Reservation → PartsScope
table_scope g r = scope_of g (table_of r.parts) []

abbrev pub reservation_scope : Guard → Reservation → PartsScope
reservation_scope g r =
    scope_of g (last_table "" r.parts) (map (λ (p : Part). p.key.partition) r.parts)

pub data CleanupError : Type 0 where
  read_failed not_prepared part_remains : CleanupError
  not_bound : BindError → CleanupError

abbrev pub is_done : ReservationState → Bool
is_done reserved = false
is_done committed = false
is_done finalized = true
is_done released = true

abbrev pub set_pending : Reservation → Reservation
set_pending r = record r { cleanup_proof_pending = true }

-- The reservation stays fenced: its table cannot be admitted to, and its inventory is not trusted.
abbrev pub fence : Reservation → Guard → Guard
fence r g =
    let closed = invalidate_keys (covers (table_scope g r)) g in
    record closed { handles = update_handle r.id set_pending closed.handles }

-- The loop of `PrepareCleanupProof`: the frozen candidates that are active now.
abbrev pub observed_part : String → Part → Part
observed_part name p = record p { cleanup_observed = add_text name p.cleanup_observed }

abbrev pub freeze_at : Reservation → String → ℕ × PartsKey → Guard → Guard
freeze_at r name (n, key) g =
    if has_text name (get_or [] key g.active_parts)
    then record g { handles = update_part r.id n (observed_part name) g.handles }
    else g

abbrev pub freeze_behind :
    Reservation
    → CandidatePart
    → Result BindError (ℕ × PartsKey)
    → (Guard → Option BindError × Guard)
    → Guard
    → Option BindError × Guard
freeze_behind r c (err e) rest g = (some e, g)
freeze_behind r c (ok at) rest g = rest (freeze_at r c.part_name at g)

unfoldable pub freeze_each : Reservation → List CandidatePart → Guard → Option BindError × Guard
unfolding key_index_for_candidate update_handle set_part
freeze_each r [] g = (none, g)
freeze_each r (c ∷ cs) g =
    if str_eq c.part_name ""
    then (some empty_part_name, g)
    else freeze_behind r c (key_index_for_candidate c r.parts) (freeze_each r cs) g

abbrev pub set_armed : Reservation → Reservation
set_armed r = record r { cleanup_proof_armed = true; cleanup_proof_pending = true }

abbrev pub arm : Reservation → Option BindError × Guard → Option CleanupError × Guard
arm r (some e, g) = (some (not_bound e), fence r g)
arm r (none, g) =
    let armed = record g { handles = update_handle r.id set_armed g.handles } in
    (none, invalidate_keys (covers (table_scope g r)) armed)

abbrev pub arm_bound :
    Reservation → List CandidatePart → Option BindError × Guard → Option CleanupError × Guard
arm_bound r cs (some e, g) = (some (not_bound e), fence r g)
arm_bound r cs (none, g) = arm r (freeze_each r cs g)

abbrev pub arm_refreshed :
    Reservation → List CandidatePart → Bool × Guard → Option CleanupError × Guard
arm_refreshed r cs (false, g) = (some read_failed, fence r g)
arm_refreshed r cs (true, g) = arm_bound r cs (bind_candidates r cs g)

-- `PrepareCleanupProof`
unfoldable pub prepare_cleanup_proof :
    Reading → Reservation → List CandidatePart → Guard → Option CleanupError × Guard
unfolding refresh_scope bind_candidates freeze_each invalidate_keys update_handle covers
prepare_cleanup_proof x r cs g =
    if is_done r.state || r.cleanup_proof_armed
    then (none, g)
    else arm_refreshed r cs (refresh_scope (reservation_scope g r) x g)

-- `remainingObservedCandidatesLocked`: whether a frozen name is still active.
unfoldable pub any_active : List String → List String → Bool
unfolding has_text
any_active [] active = false
any_active (name ∷ names) active = has_text name active || any_active names active

unfoldable pub any_remaining : Guard → List Part → Bool
unfolding any_active
any_remaining g [] = false
any_remaining g (p ∷ ps) =
    any_active p.cleanup_observed (get_or [] p.key g.active_parts) || any_remaining g ps

-- `rebaseLiveReservationsAfterCleanupLocked`: what was removed at a key, and who had it in its baseline.
unfoldable pub removed_at : PartsKey → List Part → List String
removed_at key [] = []
removed_at key (p ∷ ps) = if key_eq p.key key then p.cleanup_observed else removed_at key ps

abbrev pub contains_removed : List Part → Part → Bool
contains_removed removed p = any_active (removed_at p.key removed) p.baseline_parts

abbrev pub rebased : Guard → Part → Part
rebased g p = record p {
  baseline = get_or 0 p.key g.snapshot;
  baseline_parts = get_or [] p.key g.active_parts;
  visible_after = generation g p.key;
}

unfoldable pub rebase_parts : Guard → List Part → List Part → List Part
unfolding any_active removed_at
rebase_parts g removed [] = []
rebase_parts g removed (p ∷ ps) =
    (if contains_removed removed p then rebased g p else p) ∷ rebase_parts g removed ps

unfoldable pub rebased_keys : List Part → List Part → List PartsKey
unfolding any_active removed_at
rebased_keys removed [] = []
rebased_keys removed (p ∷ ps) =
    let rest = rebased_keys removed ps in if contains_removed removed p then p.key ∷ rest else rest

abbrev pub is_rebased : ℕ → Reservation → Bool
is_rebased id r = r.live && not (r.id == id) && not (is_released r.state)

unfoldable pub rebase_handles : Guard → ℕ → List Part → List Reservation → List Reservation
unfolding rebase_parts
rebase_handles g id removed [] = []
rebase_handles g id removed (r ∷ rs) =
    (if is_rebased id r then record r { parts = rebase_parts g removed r.parts } else r)
    ∷ rebase_handles g id removed rs

unfoldable pub affected_keys : ℕ → List Part → List Reservation → List PartsKey
unfolding rebased_keys
affected_keys id removed [] = []
affected_keys id removed (r ∷ rs) =
    (if is_rebased id r then rebased_keys removed r.parts else []) ++ affected_keys id removed rs

abbrev pub live_parts : Option Reservation → List Part
live_parts none = []
live_parts (some r) = if r.live then r.parts else []

abbrev pub rebase_removed : ℕ → List Part → Guard → Guard
rebase_removed id removed g =
    reconcile_all (affected_keys id removed g.handles)
      (record g { handles = rebase_handles g id removed g.handles })

unfoldable pub rebase_after_cleanup : ℕ → Guard → Guard
unfolding rebase_handles affected_keys reconcile_all find_handle
rebase_after_cleanup id g = rebase_removed id (live_parts (find_handle id g.handles)) g

abbrev pub set_proved : Reservation → Reservation
set_proved r = record r { cleanup_proof_pending = false }

-- The end of `ReleaseCleaned`, from the reservation as it stands then.
abbrev pub release_proved : ℕ → Option Reservation → Guard → Guard
release_proved id none g = g
release_proved id (some r) g =
    release_locked r (record g { handles = update_handle id set_proved g.handles })

abbrev pub clean_refreshed : Reservation → Bool × Guard → Option CleanupError × Guard
clean_refreshed r (false, g) = (some read_failed, fence r g)
clean_refreshed r (true, g) = if any_remaining g r.parts then (some part_remains, fence r g) else (
  none,
  let rebased = rebase_after_cleanup r.id g in
      release_proved r.id (find_handle r.id rebased.handles) rebased,
)

-- `ReleaseCleaned`
unfoldable pub release_cleaned : Reading → Reservation → Guard → Option CleanupError × Guard
unfolding refresh_scope any_remaining rebase_after_cleanup release_locked find_handle
    invalidate_keys update_handle covers
release_cleaned x r g =
    if is_done r.state
    then (none, g)
    else if not r.cleanup_proof_armed
    then (some not_prepared, fence r g)
    else clean_refreshed r (refresh_scope (reservation_scope g r) x g)
