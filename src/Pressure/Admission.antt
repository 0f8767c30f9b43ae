-- ===== src/Pressure/Admission.antt =====
-- The admission checks of parts_pressure.go, and a new reservation behind them.
use housegate.Base.{
  ℕ, ◌+◌, ◌-◌, Bool, true, false, ◌&&◌, ◌||◌, Option, none, some, List, [], ◌∷◌, String, str_eq,
  leb, if◌then◌else◌, Result, ok, err, ◌%◌,
}
use housegate.Seq.Counter.{u64_mod}
use housegate.Pressure.Scope.{PartsKey, has_text}
use housegate.Pressure.Maps.{PartsMap, get, get_or}
use housegate.Pressure.Guard.{reserved, Part, Reservation, Guard, key_of, generation, increment}

-- `BackpressureError`
pub data PressureKind : Type 0 where
  unavailable hard soft : PressureKind

pub record BackpressureError : Type 0 where
  pub table : String
  pub partition : String
  pub parts : ℕ
  pub limit : ℕ
  pub kind : PressureKind

-- `pendingCleanupProofForTableLocked`
unfoldable pub has_table : String → List Part → Bool
has_table table [] = false
has_table table (p ∷ ps) = str_eq p.key.table table || has_table table ps

unfoldable pub pending_cleanup_proof : String → List Reservation → Bool
unfolding has_table
pending_cleanup_proof table [] = false
pending_cleanup_proof table (r ∷ rs) =
    (r.live && r.cleanup_proof_pending && has_table table r.parts) || pending_cleanup_proof table rs

abbrev pub unavailable_at : String → String → BackpressureError
unavailable_at table partition = record {
  table = table;
  partition = partition;
  parts = 0;
  limit = 0;
  kind = unavailable;
}

-- `checkTableAvailableLocked`
unfoldable pub check_table_available : Guard → String → Option BackpressureError
unfolding pending_cleanup_proof
check_table_available g table =
    if g.restore_blocked || pending_cleanup_proof table g.handles
    then some (unavailable_at table "")
    else none

-- `namesFreshLocked` at the time `now`
unfoldable pub names_fresh : ℕ → Guard → PartsKey → Bool
names_fresh now g key = elim (get key g.names_fresh_at) [
  | some at ↦ leb (now - at) g.cfg.snapshot_ttl
  | none ↦ g.last_full_ok && leb (now - g.last_full_at) g.cfg.snapshot_ttl
]

-- `checkAvailableLocked`
unfoldable pub check_available : ℕ → Guard → String → String → Option BackpressureError
unfolding check_table_available names_fresh
check_available now g table partition = elim (check_table_available g table) [
  | some e ↦ some e
  | none ↦
      if str_eq partition "" || names_fresh now g (key_of g table partition)
      then none
      else some (unavailable_at table partition)
]

-- What the capacity of a key is charged with.
unfoldable pub charged : Guard → PartsKey → ℕ
charged g key = get_or 0 key g.snapshot + get_or 0 key g.reserved + get_or 0 key g.committed

-- `checkCapacityLocked`
unfoldable pub check_capacity : Guard → String → String → Option BackpressureError
unfolding charged
check_capacity g table partition =
    let number = charged g (key_of g table partition) in
    if leb g.cfg.hard_parts number
    then some (record {
      table = table;
      partition = partition;
      parts = number;
      limit = g.cfg.hard_parts;
      kind = hard;
    })
    else if leb g.cfg.soft_parts number
    then some (record {
      table = table;
      partition = partition;
      parts = number;
      limit = g.cfg.soft_parts;
      kind = soft;
    })
    else none

-- `checkLocked` and `Allow`
unfoldable pub check : ℕ → Guard → String → String → Option BackpressureError
unfolding check_available check_capacity
check now g table partition = elim (check_available now g table partition) [
  | some e ↦ some e
  | none ↦ check_capacity g table partition
]

-- The loop of `newReservationLocked` over the partitions, one part for each of them.
abbrev pub captured : Guard → PartsKey → Part
captured g key = record {
  key = key;
  baseline = get_or 0 key g.snapshot;
  baseline_parts = get_or [] key g.active_parts;
  initial_parts = get_or [] key g.active_parts;
  candidate_parts = [];
  candidate_covered = false;
  visible_after = generation g key;
  cleanup_observed = [];
}

abbrev pub capture_one :
    Option BackpressureError
    → Part
    → Result BackpressureError (List Part)
    → Result BackpressureError (List Part)
capture_one (some e) p rest = err e
capture_one none p (err e) = err e
capture_one none p (ok ps) = ok (p ∷ ps)

unfoldable pub capture :
    ℕ → Guard → String → Bool → List String → List String → Result BackpressureError (List Part)
unfolding check
capture now g table enforce seen [] = ok []
capture now g table enforce seen (p ∷ ps) =
    let rest = capture now g table enforce (p ∷ seen) ps in
    let again = capture now g table enforce seen ps in
    if has_text p seen
    then again
    else capture_one (if enforce then check now g table p else none) (captured g (key_of g table p))
        rest

unfoldable pub reserve_parts : List Part → PartsMap ℕ → PartsMap ℕ
reserve_parts [] m = m
reserve_parts (p ∷ ps) m = reserve_parts ps (increment p.key m)

-- The end of `newReservationLocked`: the reservation gets the next id.
abbrev pub fresh_reservation : ℕ → List Part → Reservation
fresh_reservation id parts = record {
  id = id;
  statement_id = "";
  parts = parts;
  cleanup_proof_armed = false;
  cleanup_proof_pending = false;
  recovered = false;
  observed_candidates = [];
  unbound_retained = false;
  state = reserved;
  live = true;
}

unfoldable pub admit : List Part → Guard → ℕ × Guard
unfolding reserve_parts
admit parts g =
    let id = (g.next_reservation_id + 1) % u64_mod in
    (
      id,
      record g {
        reserved = reserve_parts parts g.reserved;
        next_reservation_id = id;
        handles = fresh_reservation id parts ∷ g.handles;
      },
    )

-- `newReservationLocked`; `enforce` is its `enforceLimits`.
abbrev pub admitted :
    Result BackpressureError (List Part) → Guard → Result BackpressureError ℕ × Guard
admitted (err e) g = (err e, g)
admitted (ok parts) g = let (id, g') = admit parts g in (ok id, g')

abbrev pub admitted_if :
    Option BackpressureError
    → Result BackpressureError (List Part)
    → Guard
    → Result BackpressureError ℕ × Guard
admitted_if (some e) parts g = (err e, g)
admitted_if none parts g = admitted parts g

unfoldable pub new_reservation :
    ℕ → String → List String → Bool → Guard → Result BackpressureError ℕ × Guard
unfolding check_available capture admit
new_reservation now table partitions enforce g =
    admitted_if (if enforce then check_available now g table "" else none)
      (capture now g table enforce [] partitions) g
