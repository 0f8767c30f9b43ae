-- ===== src/Seq/Lane.antt =====
-- `LanedStore` of pkg/plugins/sistatement/lanepool.go: one client lane, a JSON file and the state read
-- from it. A method returns its result and the store with what it wrote, errors included.
pub mod Sound
pub mod Taking
pub mod Giving
pub mod History
mod Examples
use housegate.Base.{
  ℕ, suc, ◌+◌, ◌-◌, ◌%◌, ◌≡◌, Bool, true, false, not, ◌||◌, Option, none, some, List, [], ◌∷◌,
  Result, ok, err, ltb, leb, ◌==◌, if◌then◌else◌, length, take, Bytes, bytes_eq,
}
use housegate.Durable.{Faults, WriteError, File, write_durable}
use housegate.Seq.FreeList.{max_free_seqs, search, found_at, insert_at, ascending_below}
use housegate.Seq.Counter.{u64_mod, max_u64, yield_value}

-- `laneFile`
pub record LaneFile : Type 0 where
  pub version : ℕ
  pub lane : Bytes
  pub next : ℕ  -- uint64
  pub free : List ℕ
  pub abandoned : Bool

-- What `<lane>.json` holds: a document that decodes, with or without something behind it, or not.
pub data LaneText : Type 0 where
  undecodable : LaneText
  trailing_data : LaneText
  document : LaneFile → LaneText

pub data ReadError : Type 0 where
  absent unreadable decode trailing version_unknown names_another next_is_zero too_many : ReadError
  not_ascending : ReadError

pub data LaneError : Type 0 where
  closed exhausted reused never_reserved unlock_failed : LaneError
  write_failed : WriteError → LaneError

abbrev pub lane_file_version : ℕ
lane_file_version = 1

-- The checks of `readLaneFile` on a document, in its order.
unfoldable pub check_lane_file : Bytes → LaneFile → Result ReadError LaneFile
check_lane_file lane d =
    if not (d.version == lane_file_version)
    then err version_unknown
    else if not (bytes_eq d.lane lane)
    then err names_another
    else if d.next == 0
    then err next_is_zero
    else if ltb max_free_seqs (length d.free)
    then err too_many
    else if ascending_below d.next none d.free
    then ok d
    else err not_ascending

-- `readLaneFile`; `reads` says whether the system reads a file that is there.
unfoldable pub read_lane_file : Bool → Bytes → Option LaneText → Result ReadError LaneFile
unfolding check_lane_file
read_lane_file reads lane none = err absent
read_lane_file reads lane (some undecodable) = err (if reads then decode else unreadable)
read_lane_file reads lane (some trailing_data) = err (if reads then trailing else unreadable)
read_lane_file reads lane (some (document d)) =
    if reads then check_lane_file lane d else err unreadable

pub record LanedStore : Type 0 where
  pub lane : Bytes
  pub state : LaneFile
  pub closed : Bool
  pub retired : Bool
  pub file : File LaneText

-- `persist`, and the assignment of `state` that follows it where it succeeds.
unfoldable pub persist : Faults → LanedStore → LaneFile → Option LaneError × LanedStore
persist f s st =
    let (file, e) = write_durable f s.file (document st) in
    elim e [
      | some w ↦ (some (write_failed w), record s { file = file })
      | none ↦ (none, record s { file = file; state = st })
    ]

-- `Reserve` by what is on the free list.
unfoldable pub reserve_from : Faults → LanedStore → List ℕ → Result LaneError ℕ × LanedStore
reserve_from f s (seq ∷ rest) = yield_value seq (persist f s (record s.state { free = rest }))
reserve_from f s [] =
    if s.state.next == max_u64
    then (err exhausted, s)
    else yield_value s.state.next
        (persist f s (record s.state { next = (s.state.next + 1) % u64_mod }))

-- `Reserve`
unfoldable pub reserve : Faults → LanedStore → Result LaneError ℕ × LanedStore
unfolding reserve_from
reserve f s = if s.closed then (err LaneError.closed, s) else reserve_from f s s.state.free

-- `ReserveSupplied`
unfoldable pub reserve_supplied : Faults → LanedStore → ℕ → Option LaneError × LanedStore
reserve_supplied f s seq =
    if s.closed
    then (some LaneError.closed, s)
    else if seq == max_u64
    then (some exhausted, s)
    else if ltb seq s.state.next
    then (some reused, s)
    else persist f s (record s.state { next = (seq + 1) % u64_mod })

-- `release`: the flag says that the largest entry was dropped. `Release` reports it to `OnBurn`.
unfoldable pub release : Faults → LanedStore → ℕ → Result LaneError Bool × LanedStore
release f s seq =
    let idx = search seq s.state.free in
    let grown = insert_at seq idx s.state.free in
    let burned = ltb max_free_seqs (length grown) in
    let kept = if burned then take max_free_seqs grown else grown in
    if s.closed
    then (err LaneError.closed, s)
    else if seq == 0 || leb s.state.next seq
    then (err never_reserved, s)
    else if found_at seq idx s.state.free
    then (ok false, s)
    else yield_value burned (persist f s (record s.state { free = kept }))

-- `Abandon`. `unlocks` says whether the lock's release succeeds; the lane is closed either way.
abbrev pub abandon_persisted : Bool → Option LaneError × LanedStore → Option LaneError × LanedStore
abandon_persisted unlocks (some e, s) = (some e, s)
abandon_persisted unlocks (none, s) =
    (if unlocks then none else some unlock_failed, record s { closed = true })

unfoldable pub abandon : Faults → Bool → LanedStore → Option LaneError × LanedStore
abandon f unlocks s =
    if s.closed
    then (some LaneError.closed, s)
    else abandon_persisted unlocks (persist f s (record s.state { abandoned = true }))

-- `Close`
unfoldable pub close : Bool → LanedStore → Option LaneError × LanedStore
close unlocks s =
    if s.closed
    then (none, s)
    else (if unlocks then none else some unlock_failed, record s { closed = true })

-- `retire` and `Retired`
unfoldable pub retire : LanedStore → LanedStore
retire s = record s { retired = true }

unfoldable pub is_retired : LanedStore → Bool
is_retired s = s.state.abandoned || s.retired

-- The state of a lane that is minted, and the end of an attempt of `mint` under the lane's lock.
abbrev pub first_state : Bytes → LaneFile
first_state lane = record {
  version = lane_file_version;
  lane = lane;
  next = 1;
  free = [];
  abandoned = false;
}

abbrev pub store_of : Bytes → LaneFile → File LaneText → LanedStore
store_of lane st file = record {
  lane = lane;
  state = st;
  closed = false;
  retired = false;
  file = file;
}

unfoldable pub mint_store : Faults → Bytes → File LaneText → Option LaneError × LanedStore
mint_store f lane file = persist f (store_of lane (first_state lane) file) (first_state lane)
