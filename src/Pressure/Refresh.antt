-- ===== src/Pressure/Refresh.antt =====
-- The refreshes of the inventory (parts_pressure.go): what a read installs, and what it leaves alone.
use housegate.Base.{
  ℕ, ◌-◌, Bool, true, false, not, ◌||◌, Option, none, some, List, [], ◌∷◌, String, str_eq, leb,
  if◌then◌else◌,
}
use housegate.Pressure.Scope.{
  PartsKey, key_eq, PartsScope, covers, requested_keys, is_full, physical_table_name,
}
use housegate.Pressure.Maps.{PartsMap, drop_keys}
use housegate.Pressure.Guard.{Slot, Observation, Guard, key_of}
use housegate.Pressure.Debt.{reconcile}
use housegate.Pressure.Observed.{reconcile_claims, flush_observations}
use housegate.Pressure.Inventory.{
  PartRow, CountRow, Reading, count_rows, name_rows, number_rows, put_all, put_each, put_absent,
  add_keys, add_covered, add_members, bump_each, is_gone,
}

-- `applyExactScopeLocked`
unfoldable pub apply_exact_scope :
    PartsScope → PartsMap ℕ → PartsMap (List String) → ℕ → Guard → Guard
unfolding covers requested_keys is_full drop_keys
apply_exact_scope scope counts names now g =
    let requested = requested_keys scope in
    let covered = add_members requested (
      add_covered scope g.names_fresh_at
        (add_covered scope g.count_fresh_at (add_keys names (add_keys counts [])))) in
    record g {
      snapshot =
          put_absent requested 0 (put_all counts (drop_keys (is_gone scope counts) g.snapshot));
      active_parts =
          put_absent requested [] (put_all names (drop_keys (is_gone scope names) g.active_parts));
      key_generation = bump_each covered g.key_generation;
      count_fresh_at = put_each covered now g.count_fresh_at;
      names_fresh_at = put_each covered now g.names_fresh_at;
      last_full_ok =
          if is_full g.cfg.unsafe_database scope then not g.restore_blocked else g.last_full_ok;
      last_full_at = if is_full g.cfg.unsafe_database scope then now else g.last_full_at;
    }

-- `reconcileScopeLocked`, for the keys that have entries when it begins.
unfoldable pub reconcile_scope_keys : PartsScope → PartsMap (List Slot) → Guard → Guard
unfolding covers reconcile
reconcile_scope_keys scope [] g = g
reconcile_scope_keys scope ((k, ss) ∷ m) g =
    reconcile_scope_keys scope m (if covers scope k then reconcile k g else g)

abbrev pub reconcile_scope : PartsScope → Guard → Guard
reconcile_scope scope g = reconcile_scope_keys scope g.committed_reservations g

-- `invalidateKeysLocked`
abbrev pub any_key {ℓ} : {V : Type ℓ} → (PartsKey → Bool) → PartsMap V → Bool
any_key match [] = false
any_key match ((k, v) ∷ m) = match k || any_key match m

unfoldable pub invalidate_keys : (PartsKey → Bool) → Guard → Guard
unfolding drop_keys
invalidate_keys match g = record g {
  count_fresh_at = drop_keys match g.count_fresh_at;
  names_fresh_at = drop_keys match g.names_fresh_at;
  last_full_ok =
      if any_key match g.count_fresh_at
        || any_key match g.names_fresh_at
        || match (record { database = g.cfg.unsafe_database; table = ""; partition = "" })
      then false
      else g.last_full_ok;
}

-- `invalidatePendingObservationKeysLocked`
abbrev pub is_pending_key : Guard → List Observation → PartsKey → Bool
is_pending_key g [] key = false
is_pending_key g (o ∷ os) key =
    key_eq (key_of g (physical_table_name o.candidate.table_id) o.candidate.partition_id) key
    || is_pending_key g os key

abbrev pub invalidate_pending_from : List Observation → Guard → Guard
invalidate_pending_from [] g = g
invalidate_pending_from (o ∷ os) g = invalidate_keys (is_pending_key g (o ∷ os)) g

unfoldable pub invalidate_pending : Guard → Guard
unfolding invalidate_keys
invalidate_pending g = invalidate_pending_from g.pending_observed g

-- `markExactScopeFreshLocked`
unfoldable pub mark_exact_scope_fresh : PartsScope → ℕ → Guard → Guard
unfolding covers requested_keys is_full
mark_exact_scope_fresh scope now g =
    let covered =
      add_members (requested_keys scope)
        (add_covered scope g.active_parts (add_covered scope g.snapshot [])) in
    record g {
      count_fresh_at = put_each covered now g.count_fresh_at;
      names_fresh_at = put_each covered now g.names_fresh_at;
      last_full_ok =
          if is_full g.cfg.unsafe_database scope then not g.restore_blocked else g.last_full_ok;
      last_full_at = if is_full g.cfg.unsafe_database scope then now else g.last_full_at;
    }

-- `refreshScope`: the flag says that it succeeded. Another call may come in while the hook runs, but
-- not one of the same table, whose lock the caller holds.
unfoldable pub install : PartsScope → Reading → List PartRow → Guard → Guard
unfolding count_rows name_rows apply_exact_scope reconcile_claims reconcile_scope_keys
    invalidate_pending
install scope x rows g =
    let applied = apply_exact_scope scope (count_rows rows []) (name_rows rows []) x.applied_at g in
    invalidate_pending (reconcile_scope scope (reconcile_claims scope applied))

unfoldable pub after_flush : PartsScope → Reading → Bool × Guard → Bool × Guard
unfolding invalidate_keys reconcile_claims reconcile_scope_keys mark_exact_scope_fresh
    invalidate_pending
after_flush scope x (false, g) = (false, invalidate_keys (covers scope) g)
after_flush scope x (true, g) = (
  true,
  invalidate_pending
      (mark_exact_scope_fresh scope x.marked_at (reconcile_scope scope (reconcile_claims scope g))),
)

unfoldable pub refresh_rows : PartsScope → Reading → Option (List PartRow) → Guard → Bool × Guard
unfolding install flush_observations after_flush
refresh_rows scope x none g = (false, g)
refresh_rows scope x (some rows) g =
    let installed = install scope x rows g in
    after_flush scope x (flush_observations x.hook installed.pending_observed installed)

unfoldable pub refresh_scope : PartsScope → Reading → Guard → Bool × Guard
unfolding refresh_rows
refresh_scope scope x g = refresh_rows scope x x.rows g

-- `exactScope` and `countScope`
abbrev pub exact_scope : Guard → PartsScope
exact_scope g = record {
  database = g.cfg.unsafe_database;
  include_safe_database = false;
  safe_database = "";
  table = "";
  partitions = [];
}

abbrev pub count_scope : Guard → PartsScope
count_scope g = record {
  database = g.cfg.unsafe_database;
  include_safe_database = not (str_eq g.cfg.safe_database "");
  safe_database = g.cfg.safe_database;
  table = "";
  partitions = [];
}

-- `Refresh`
unfoldable pub refresh : Reading → Guard → Bool × Guard
unfolding refresh_scope
refresh x g = refresh_scope (exact_scope g) x g

-- `applyCountScopeLocked`
unfoldable pub apply_count_scope : PartsScope → PartsMap ℕ → ℕ → Guard → Guard
unfolding covers is_full drop_keys
apply_count_scope scope counts now g =
    let covered = add_covered scope g.count_fresh_at (add_keys counts []) in
    record g {
      snapshot = put_all counts (drop_keys (is_gone scope counts) g.snapshot);
      key_generation = bump_each covered g.key_generation;
      count_fresh_at = put_each covered now g.count_fresh_at;
      last_full_ok =
          if is_full g.cfg.unsafe_database scope then not g.restore_blocked else g.last_full_ok;
      last_full_at = if is_full g.cfg.unsafe_database scope then now else g.last_full_at;
    }

-- `RefreshCounts`
abbrev pub refresh_counts_from : Option (List CountRow) → ℕ → Guard → Bool × Guard
refresh_counts_from none now g = (false, g)
refresh_counts_from (some rows) now g = (
  true,
  reconcile_scope (count_scope g) (apply_count_scope (count_scope g) (number_rows rows []) now g),
)

unfoldable pub refresh_counts : Option (List CountRow) → ℕ → Guard → Bool × Guard
unfolding number_rows apply_count_scope reconcile_scope_keys
refresh_counts rows now g = refresh_counts_from rows now g

-- `Snapshot`
unfoldable pub snapshot_at : ℕ → Guard → Option (PartsMap ℕ)
snapshot_at now g =
    if not g.last_full_ok || not (leb (now - g.last_full_at) g.cfg.snapshot_ttl)
    then none
    else some g.snapshot

-- `Invalidate` and `TakeStale`; the channel that wakes the supervisor is not modelled.
unfoldable pub invalidate : Guard → Guard
invalidate g = record g { stale = true }

unfoldable pub take_stale : Guard → Bool × Guard
take_stale g = (g.stale, record g { stale = false })
