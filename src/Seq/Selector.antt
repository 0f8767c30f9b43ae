-- ===== src/Seq/Selector.antt =====
-- `laneSelector` of pkg/plugins/sistatement/lanes.go: the lane of each statement, and how many statements
-- a client lane has in flight. The observer and the log are left out.
pub mod Counts
pub mod Counting
pub mod Rotation
pub mod History
pub mod Lasting
pub mod Capped
mod Examples
use housegate.Base.{
  ℕ, ◌+◌, ◌-◌, Bool, true, false, not, ◌&&◌, ◌||◌, Option, none, some, List, [], ◌∷◌, Result, ok,
  err, ltb, ◌==◌, if◌then◌else◌, Bytes, bytes_eq,
}
use housegate.Durable.{Faults}
use housegate.Seq.Lane.{LaneError, LanedStore, abandon, retire, close as close_store}
use housegate.Seq.Pool.{
  PoolAnswers, LanePool, AcquireReason, AcquireError, acquire, exclude, put_file,
}

-- `inflight` by the lane, the legacy lane being the empty one.
unfoldable pub in_flight : Bytes → List (Bytes × ℕ) → ℕ
in_flight key [] = 0
in_flight key ((k, n) ∷ m) = if bytes_eq k key then n else in_flight key m

unfoldable pub put_in_flight : Bytes → ℕ → List (Bytes × ℕ) → List (Bytes × ℕ)
put_in_flight key n [] = (key, n) ∷ []
put_in_flight key n ((k, i) ∷ m) =
    let rest = put_in_flight key n m in if bytes_eq k key then (k, n) ∷ m else (k, i) ∷ rest

unfoldable pub drop_in_flight : Bytes → List (Bytes × ℕ) → List (Bytes × ℕ)
drop_in_flight key [] = []
drop_in_flight key ((k, n) ∷ m) =
    let rest = drop_in_flight key m in if bytes_eq k key then rest else (k, n) ∷ rest

-- `laneSelector`. `is_auto` is its mode and `max_in_flight` its cap, 0 for none; `opened` says that its
-- pool is there, `pool` is it, and before that the directory that it will stand on.
pub record Selector : Type 0 where
  pub is_auto : Bool
  pub max_in_flight : ℕ
  pub opened : Bool
  pub pool : LanePool
  pub current : Option LanedStore
  pub legacy_pinned : Bool
  pub rotated : Bool
  pub closed : Bool
  pub inflight : List (Bytes × ℕ)

pub data PickError : Type 0 where
  selector_closed open_failed at_cap : PickError
  not_acquired : AcquireError → PickError

-- What one turn of the loop of `pick` comes to: a lane, an error, or another wait.
pub data PickResult : Type 0 where
  refused : PickError → PickResult
  picked : Bytes → PickResult
  waits : PickResult

-- `newLaneSelector`
unfoldable pub new_selector : Bool → ℕ → LanePool → Selector
new_selector is_auto cap pool = record {
  is_auto = is_auto;
  max_in_flight = cap;
  opened = false;
  pool = pool;
  current = none;
  legacy_pinned = false;
  rotated = false;
  closed = false;
  inflight = [];
}

-- `acquireLocked`; `opens` says whether the pool opens.
abbrev pub take_acquired :
    Selector
    → Result AcquireError (LanedStore × AcquireReason) × LanePool
    → Result PickError LanedStore × Selector
take_acquired s (err e, p) = (err (not_acquired e), record s { pool = p })
take_acquired s (ok (store, reason), p) =
    (ok store, record s { pool = p; current = some store; rotated = false })

unfoldable pub acquire_locked :
    PoolAnswers → Bool → Selector → Result PickError LanedStore × Selector
unfolding acquire
acquire_locked v opens s =
    if not s.opened && not opens
    then (err open_failed, s)
    else take_acquired (record s { opened = true }) (acquire v s.pool)

-- The end of a turn: the cap holds for client lanes.
unfoldable pub admit_key : Bool → Bytes → Selector → PickResult × Selector
unfolding in_flight put_in_flight
admit_key is_cancelled key s =
    if bytes_eq key [] || s.max_in_flight == 0 || ltb (in_flight key s.inflight) s.max_in_flight
    then (
      picked key,
      record s { inflight = put_in_flight key (in_flight key s.inflight + 1) s.inflight },
    )
    else if is_cancelled
    then (refused at_cap, s)
    else (waits, s)

abbrev pub pick_store : Bool → Result PickError LanedStore × Selector → PickResult × Selector
pick_store is_cancelled (err e, s) = (refused e, s)
pick_store is_cancelled (ok store, s) = admit_key is_cancelled store.lane s

abbrev pub pick_current :
    PoolAnswers → Bool → Bool → Option LanedStore → Selector → PickResult × Selector
pick_current v opens is_cancelled none s = pick_store is_cancelled (acquire_locked v opens s)
pick_current v opens is_cancelled (some store) s = admit_key is_cancelled store.lane s

-- One turn of the loop of `pick`.
unfoldable pub pick : PoolAnswers → Bool → Bool → Bool → Selector → PickResult × Selector
unfolding acquire_locked admit_key
pick v opens lanes_enabled is_cancelled s =
    if s.closed
    then (refused selector_closed, s)
    else if s.is_auto && lanes_enabled && not s.legacy_pinned
    then pick_current v opens is_cancelled s.current s
    else admit_key is_cancelled [] s

-- `doneFunc`: what it gives is the lane and whether it has run already.
pub record Done : Type 0 where
  pub key : Bytes
  pub has_run : Bool

unfoldable pub lowered : Bytes → List (Bytes × ℕ) → List (Bytes × ℕ)
unfolding in_flight put_in_flight drop_in_flight
lowered key m =
    let left = in_flight key m - 1 in
    if left == 0 then drop_in_flight key m else put_in_flight key left m

unfoldable pub run_done : Done → Selector → Done × Selector
unfolding lowered
run_done d s =
    if d.has_run
    then (d, s)
    else (record d { has_run = true }, record s { inflight = lowered d.key s.inflight })

-- The lane writes its file, also where the call that writes reports an error.
abbrev pub write_back : LanedStore → Selector → Selector
write_back store s = record s {
  pool = record s.pool { dir = put_file store.lane store.file s.pool.dir };
}

-- `rotate`
abbrev pub give_up :
    Bool → Selector → Option LaneError × LanedStore → Option LaneError × Option LaneError × Selector
give_up unlocks s (none, store) = (none, none, write_back store s)
give_up unlocks s (some e, store) = (
  some e,
  (close_store unlocks (retire store)).0,
  record (write_back store s) { pool = exclude store.lane (write_back store s).pool },
)

abbrev pub rotate_current :
    Faults
    → Bool
    → Bytes
    → Option LanedStore
    → Selector
    → Option LaneError × Option LaneError × Selector
rotate_current f unlocks lane none s = (none, none, s)
rotate_current f unlocks lane (some store) s =
    if bytes_eq store.lane lane
    then give_up unlocks (record s { current = none; rotated = true }) (abandon f unlocks store)
    else (none, none, s)

unfoldable pub rotate :
    Faults → Bool → Bytes → Selector → Option LaneError × Option LaneError × Selector
unfolding abandon retire close_store exclude put_file
rotate f unlocks lane s = rotate_current f unlocks lane s.current s

-- `pinLegacy`
unfoldable pub pin_legacy : Bool → Selector → Selector
pin_legacy has_reason s = record s { legacy_pinned = has_reason }

-- `close`
abbrev pub close_current : Bool → Option LanedStore → Selector → Option LaneError × Selector
close_current unlocks none s = (none, s)
close_current unlocks (some store) s = ((close_store unlocks store).0, record s { current = none })

unfoldable pub close : Bool → Selector → Option LaneError × Selector
unfolding close_store
close unlocks s = close_current unlocks s.current (record s { closed = true })
