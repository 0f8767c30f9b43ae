-- ===== src/Pressure/Guard.antt =====
-- `PartsPressureGuard` of pkg/storageintegrity/parts_pressure.go: its state, the reservations that it
-- hands out, and the admission checks. A reservation is known by its id, as the code knows it by its
-- pointer: `handles` holds every one that was made, and its flag `live` says that `liveReservations`
-- has it. The parallel slices of a reservation are one list of parts.
use housegate.Base.{
  ℕ, ◌+◌, Bool, false, Option, none, some, List, [], ◌∷◌, String, ◌==◌, if◌then◌else◌,
}
use housegate.Intake.Records.{CandidatePart}
use housegate.Pressure.Scope.{PartsKey}
use housegate.Pressure.Maps.{PartsMap, put, get_or}

-- `PartsPressureConfig` after its defaults: times are in nanoseconds.
pub record PressureConfig : Type 0 where
  pub unsafe_database : String
  pub safe_database : String
  pub soft_parts : ℕ
  pub hard_parts : ℕ
  pub snapshot_ttl : ℕ

-- `reservationState`
pub data ReservationState : Type 0 where
  reserved committed finalized released : ReservationState

-- What a reservation holds for one of its keys.
pub record Part : Type 0 where
  pub key : PartsKey
  pub baseline : ℕ
  pub baseline_parts : List String
  pub initial_parts : List String
  pub candidate_parts : List String
  pub candidate_covered : Bool
  pub visible_after : ℕ
  pub cleanup_observed : List String

-- `partsReservation`
pub record Reservation : Type 0 where
  pub id : ℕ
  pub statement_id : String
  pub parts : List Part
  pub cleanup_proof_armed : Bool
  pub cleanup_proof_pending : Bool
  pub recovered : Bool
  pub observed_candidates : List CandidatePart
  pub unbound_retained : Bool
  pub state : ReservationState
  pub live : Bool

-- `reservationSlot`
pub record Slot : Type 0 where
  pub reservation : ℕ
  pub key_index : ℕ

-- `candidateClaim`, with the key and the name that it is filed under.
pub record Claim : Type 0 where
  pub key : PartsKey
  pub name : String
  pub reservation : ℕ
  pub statement_id : String
  pub candidate : CandidatePart
  pub observed_active : Bool
  pub observed_persisted : Bool

-- `candidateObservation`
pub record Observation : Type 0 where
  pub statement_id : String
  pub candidate : CandidatePart

-- `hooked` says that `observedHook` is set.
pub record Guard : Type 0 where
  pub cfg : PressureConfig
  pub snapshot : PartsMap ℕ
  pub active_parts : PartsMap (List String)
  pub reserved : PartsMap ℕ
  pub committed : PartsMap ℕ
  pub committed_reservations : PartsMap (List Slot)
  pub candidate_claims : List Claim
  pub pending_observed : List Observation
  pub handles : List Reservation
  pub next_reservation_id : ℕ
  pub key_generation : PartsMap ℕ
  pub count_fresh_at : PartsMap ℕ
  pub names_fresh_at : PartsMap ℕ
  pub last_full_ok : Bool
  pub last_full_at : ℕ
  pub restore_blocked : Bool
  pub hooked : Bool
  pub stale : Bool

abbrev pub default_soft_parts : ℕ
default_soft_parts = 2400

abbrev pub default_hard_parts : ℕ
default_hard_parts = 2950

abbrev pub default_snapshot_ttl : ℕ
default_snapshot_ttl = 6000000000

abbrev pub or_default : ℕ → ℕ → ℕ
or_default d n = if n == 0 then d else n

-- `NewPartsPressureGuard`; a limit that is negative counts as 0.
unfoldable pub new_parts_pressure_guard : PressureConfig → Guard
new_parts_pressure_guard c = record {
  cfg = record c {
    soft_parts = or_default default_soft_parts c.soft_parts;
    hard_parts = or_default default_hard_parts c.hard_parts;
    snapshot_ttl = or_default default_snapshot_ttl c.snapshot_ttl;
  };
  snapshot = [];
  active_parts = [];
  reserved = [];
  committed = [];
  committed_reservations = [];
  candidate_claims = [];
  pending_observed = [];
  handles = [];
  next_reservation_id = 0;
  key_generation = [];
  count_fresh_at = [];
  names_fresh_at = [];
  last_full_ok = false;
  last_full_at = 0;
  restore_blocked = false;
  hooked = false;
  stale = false;
}

-- `SetCandidateObservedHook`
unfoldable pub set_observed_hook : Bool → Guard → Guard
set_observed_hook hooked g = record g { hooked = hooked }

unfoldable pub find_handle : ℕ → List Reservation → Option Reservation
find_handle id [] = none
find_handle id (r ∷ rs) = if r.id == id then some r else find_handle id rs

-- A write through the pointer of the reservation.
unfoldable pub update_handle : ℕ → (Reservation → Reservation) → List Reservation → List Reservation
update_handle id f [] = []
update_handle id f (r ∷ rs) =
    let rest = update_handle id f rs in if r.id == id then f r ∷ rs else r ∷ rest

abbrev pub key_of : Guard → String → String → PartsKey
key_of g table partition = record {
  database = g.cfg.unsafe_database;
  table = table;
  partition = partition;
}

-- `generationForLocked`
abbrev pub generation : Guard → PartsKey → ℕ
generation g key = get_or 0 key g.key_generation

-- `g.reserved[key]++`
abbrev pub increment : PartsKey → PartsMap ℕ → PartsMap ℕ
increment key m = put key (get_or 0 key m + 1) m
