-- ===== src/Pressure/Calls.antt =====
-- The calls of a statement on the guard (parts_pressure.go): `Reserve`, and the cleanup proof of a
-- reservation. Each runs under the lock of its table.
use housegate.Base.{ℕ, Bool, true, false, List, String, str_eq, if◌then◌else◌, Result, ok, err}
use housegate.Pressure.Scope.{PartsScope, ScopeError, partition_texts}
use housegate.Pressure.Guard.{Reservation, Guard, update_handle}
use housegate.Pressure.Admission.{BackpressureError, new_reservation}
use housegate.Pressure.Inventory.{Reading}
use housegate.Pressure.Refresh.{refresh_scope}

pub data ReserveError : Type 0 where
  no_statement_id cancelled refresh_failed : ReserveError
  bad_partitions : ScopeError → ReserveError
  refused : BackpressureError → ReserveError

-- The scope of a table, whole or some partitions of it.
abbrev pub scope_of : Guard → String → List String → PartsScope
scope_of g table partitions = record {
  database = g.cfg.unsafe_database;
  include_safe_database = false;
  safe_database = "";
  table = table;
  partitions = partitions;
}

-- `reserve`. `is_cancelled` is the context when the refresh has failed, `now` the clock at the checks.
abbrev pub set_statement : String → Reservation → Reservation
set_statement s r = record r { statement_id = s }

abbrev pub named_reservation :
    String → Result BackpressureError ℕ × Guard → Result ReserveError ℕ × Guard
named_reservation statement (err e, g) = (err (refused e), g)
named_reservation statement (ok id, g) =
    (ok id, record g { handles = update_handle id (set_statement statement) g.handles })

abbrev pub reserve_refreshed :
    ℕ → Bool → String → String → List String → Bool × Guard → Result ReserveError ℕ × Guard
reserve_refreshed now is_cancelled statement table ids (false, g) =
    (err (if is_cancelled then cancelled else refresh_failed), g)
reserve_refreshed now is_cancelled statement table ids (true, g) =
    named_reservation statement (new_reservation now table ids true g)

abbrev pub reserve_parsed :
    ℕ
    → Bool
    → Reading
    → String
    → String
    → List String
    → Result ScopeError (List String × Bool)
    → Guard
    → Result ReserveError ℕ × Guard
reserve_parsed now is_cancelled x statement table ids (err e) g = (err (bad_partitions e), g)
reserve_parsed now is_cancelled x statement table ids (ok texts) g =
    reserve_refreshed now is_cancelled statement table ids
      (refresh_scope (scope_of g table ids) x g)

unfoldable pub reserve :
    ℕ → Bool → Reading → String → String → List String → Guard → Result ReserveError ℕ × Guard
unfolding partition_texts refresh_scope new_reservation update_handle
reserve now is_cancelled x statement table ids g =
    reserve_parsed now is_cancelled x statement table ids (partition_texts ids) g

-- `ReserveStatement`
unfoldable pub reserve_statement :
    ℕ → Bool → Reading → String → String → List String → Guard → Result ReserveError ℕ × Guard
unfolding reserve
reserve_statement now is_cancelled x statement table ids g =
    if str_eq statement ""
    then (err no_statement_id, g)
    else reserve now is_cancelled x statement table ids g
