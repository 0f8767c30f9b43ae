-- ===== src/Pressure/Examples.antt =====
-- A guard at concrete calls, and the theorems about it there.
use housegate.Base.{
  suc, ◌&&◌, ◌≡◌, refl, true, false, some, List, [], ◌∷◌, String, ok, err, map, ◌≤◌, length, arith,
  IsSublist, IsSublist-refl, empty, keeps, leaves, All, inl,
}
use housegate.Intake.Records.{CandidatePart}
use housegate.Pressure.Scope.{
  PartsKey, PartsScope, covers, has_text, logical_partition_id, partition_texts, key_eq,
}
use housegate.Pressure.Maps.{get_or, get, has_key, put}
use housegate.Pressure.Guard.{
  PressureConfig, Guard, Reservation, new_parts_pressure_guard, generation,
}
use housegate.Pressure.Admission.{soft, captured, fresh_reservation}
use housegate.Pressure.Debt.{SlotView, views, reconcile}
use housegate.Pressure.LiveKeys.{refresh_scopes, refresh_live_keys}
use housegate.Pressure.LiveReads.{IsLive, owns, refresh_live_keys-reads}
use housegate.Pressure.Inventory.{PartRow, Reading}
use housegate.Pressure.Refresh.{refresh_scope}
use housegate.Pressure.Calls.{ReserveError, reserve, refused, scope_of}
use housegate.Pressure.Lifecycle.{commit}
use housegate.Pressure.Restore.{RestoreRecord, RestoreError}
use housegate.Pressure.Batch.{restore_batch}
use housegate.Pressure.Fence.{failed_restore_fences, none_yet, and_then}
use housegate.Pressure.Skeleton.{skeleton}
use housegate.Pressure.Ledger.{outstanding}
use housegate.Pressure.Limits.{IsWithin, reserve-IsWithin}
use housegate.Pressure.History.{ledger_is_exact, here, next, calls, reserves, refreshes}
use housegate.Pressure.Owners.{owner}
use housegate.Pressure.Releasing.{KeptUnless}
use housegate.Pressure.Ownership.{one_owner}
use housegate.Pressure.Owed.{IsOwed, unseen, reconcile_bounds}
use housegate.Pressure.Partitions.{partition_texts-logical}

abbrev small : PressureConfig
small = record {
  unsafe_database = "hg_unsafe";
  safe_database = "hg_safe";
  soft_parts = 2;
  hard_parts = 3;
  snapshot_ttl = 6;
}

abbrev row : String → String → PartRow
row partition name = record {
  database = "hg_unsafe";
  table = "t";
  partition = partition;
  partition_key = "day";
  part_name = name;
}

-- Partition 1 has one active part, which is read at the time 4.
abbrev one_part : Reading
one_part = record {
  rows = some (row "1" "a_1_1_0" ∷ []);
  hook = λ o. true;
  applied_at = 4;
  marked_at = 4;
}

abbrev start : Guard
start = new_parts_pressure_guard small

abbrev two_ids : List String
two_ids = "p_1" ∷ "p_2" ∷ []

first_admitted : (reserve 5 false one_part "s" "t" two_ids start).0 ≡ ok 1
unfolding reserve new_parts_pressure_guard get has_key put key_eq get_or
first_admitted = refl

-- A third reservation of the same partitions is refused: partition 1 would have four parts.
abbrev once : Guard
once = (reserve 5 false one_part "s" "t" two_ids start).1

second_refused :
    (reserve 5 false one_part "r" "t" two_ids once).0
    ≡ err (refused (record { table = "t"; partition = "p_1"; parts = 2; limit = 2; kind = soft }))
unfolding reserve new_parts_pressure_guard get has_key put key_eq get_or
second_refused = refl

reserve-IsWithin_example : IsWithin "t" two_ids (reserve 5 false one_part "s" "t" two_ids start).1
reserve-IsWithin_example = reserve-IsWithin 5 "t" two_ids false one_part "s" start 1 first_admitted

abbrev first_key : PartsKey
first_key = record { database = "hg_unsafe"; table = "t"; partition = "p_1" }

ledger_is_exact_example :
    get_or 0 first_key once.reserved ≡ outstanding first_key (skeleton once.handles)
ledger_is_exact_example =
    ledger_is_exact small (next here (calls (reserves 5 false one_part "s" "t" two_ids))) first_key

-- The first reservation is committed with the part that it has written, which a later read shows.
abbrev written_part : CandidatePart
written_part = record {
  table_id = "t";
  partition_id = "p_1";
  part_name = "a_2_2_0";
  part_row_lt_hash = "aa";
  row_count = 7;
  part_bytes = 90;
}

abbrev held : Reservation
held = record (fresh_reservation 1 (captured start first_key ∷ [])) { statement_id = "s" }

abbrev bound : Guard
bound = (commit held (written_part ∷ []) once).1

bound_owner : owner first_key "a_2_2_0" bound.candidate_claims ≡ some 1
unfolding commit owner get_or get put reserve new_parts_pressure_guard has_key key_eq
bound_owner = refl

abbrev two_parts : Reading
two_parts = record one_part { rows = some (row "1" "a_1_1_0" ∷ row "1" "a_2_2_0" ∷ []) }

one_owner_example :
    KeptUnless first_key "a_2_2_0" 1 (refresh_scope (scope_of bound "t" two_ids) two_parts bound).1
one_owner_example =
    one_owner first_key "a_2_2_0" 1 (λ e. omega (arith, e))
      (refreshes (scope_of bound "t" two_ids) two_parts) bound_owner

abbrev bound_views : List SlotView
bound_views = views bound.handles (get_or [] first_key bound.committed_reservations)

-- The committed part is named, and the read that admitted it does not show it.
bound-IsOwed :
    IsSublist bound_views bound_views
    × All (IsOwed (generation bound first_key) (get_or [] first_key bound.active_parts)) bound_views
    × (length bound_views ≡ 1)
unfolding commit get_or get put reserve new_parts_pressure_guard has_key key_eq views has_text
bound-IsOwed = (IsSublist-refl bound_views, (unseen refl (λ e. cc) (inl (omega arith)), tt), refl)

reconcile_bounds_example :
    (length bound_views ≤ get_or 0 first_key (reconcile first_key bound).committed)
    × (get_or 0 first_key (reconcile first_key bound).committed ≤ length bound_views)
reconcile_bounds_example =
    reconcile_bounds first_key bound bound_views bound-IsOwed.0 bound-IsOwed.1

-- The committed part is not seen yet, so it is still charged.
bound_debt : get_or 0 first_key bound.committed ≡ 1
unfolding commit get_or get put reserve new_parts_pressure_guard has_key key_eq
bound_debt = refl

partition_texts-logical_example :
    partition_texts (map (λ t. logical_partition_id t false) ("1" ∷ "all" ∷ []))
    ≡ ok ("1" ∷ "all" ∷ [], false)
partition_texts-logical_example = partition_texts-logical "1" ("all" ∷ [])

-- A batch with a record that names no statement fails, and the next reservation is refused.
abbrev nameless : RestoreRecord
nameless = record {
  statement_id = "";
  table = "t";
  partition_ids = some ("p_1" ∷ []);
  candidates = [];
  observed_candidates = [];
  finalized = false;
  legacy_observation = false;
}

batch_fails :
    (restore_batch 5 false one_part (nameless ∷ []) start).0 ≡ err RestoreError.no_statement_id
unfolding restore_batch new_parts_pressure_guard
batch_fails = refl

failed_restore_fences_example :
    (why : ReserveError) × ((reserve 5 false one_part "s" "t" two_ids
        (refresh_scope
          (scope_of start "t" two_ids)
          one_part
          (restore_batch 5 false one_part (nameless ∷ []) start).1).1).0
      ≡ err why)
failed_restore_fences_example =
    failed_restore_fences 5 false one_part (nameless ∷ []) start RestoreError.no_statement_id
      batch_fails (and_then none_yet (refreshes (scope_of start "t" two_ids) one_part)) 5 false
      one_part "s" "t" two_ids

-- Partition 1 has a part of the live reservation of `once`, and an exact part of that of `bound`.
once-IsLive : IsLive first_key once
unfolding reserve new_parts_pressure_guard get has_key put key_eq get_or
once-IsLive = IsLive.reserves _ _ (keeps _ empty) refl (keeps _ (leaves _ empty)) refl

bound-IsLive : IsLive first_key bound
unfolding commit get_or get put reserve new_parts_pressure_guard has_key key_eq
bound-IsLive = owns _ (keeps _ empty) refl

bound_unsafe : first_key.database ≡ bound.cfg.unsafe_database
unfolding commit get_or get put reserve new_parts_pressure_guard has_key key_eq
bound_unsafe = refl

refresh_live_keys-reads_example :
    (before : List PartsScope) × (s : PartsScope) × (after : List PartsScope) × (covers s first_key
      ≡ true)
    × (let (b, h) = refresh_scopes (λ n. two_parts) 0 before bound in
        let (well, h') = refresh_scope s two_parts h in
        let (c, h'') = refresh_scopes (λ n. two_parts) (suc (length before)) after h' in
        refresh_live_keys (λ n. two_parts) bound ≡ (b && (well && c), h''))
refresh_live_keys-reads_example =
    refresh_live_keys-reads (λ n. two_parts) bound first_key bound-IsLive bound_unsafe
