-- ===== src/Seq/Pool.antt =====
-- `LanePool` of pkg/plugins/sistatement/lanepool.go: which lane of a directory an agent takes, and the
-- lanes that it mints. The directory is the files `<lane>.json` by the lane; another name in it is of no
-- interest to the pool.

pub mod Choice
pub mod Taking
use housegate.Base.{
  ℕ, zero, suc, ◌+◌, ◌/◌, ◌%◌, Bool, true, false, not, ◌&&◌, ◌||◌, Option, none, some, List, [],
  ◌∷◌, Result, ok, err, ltb, if◌then◌else◌, Bytes, bytes_eq, bytes_le,
}
use housegate.Durable.{Faults, File}
use housegate.Statement.{valid_client_lane}
use housegate.Seq.Counter.{LockOutcome, granted, held_elsewhere, broken}
use housegate.Seq.Lane.{
  LaneFile, LaneText, LaneError, LanedStore, ReadError, read_lane_file, store_of, mint_store,
}

pub record Entry : Type 0 where
  pub lane : Bytes
  pub is_dir : Bool
  pub file : File LaneText

-- `LanePool`, with the directory that it stands on.
pub record LanePool : Type 0 where
  pub dir : List Entry
  pub excluded : List Bytes

-- What the system answers in one call of `Acquire`: the attempts of `mint` are numbered from 0. A file
-- lock that the platform does not support is a broken one.
pub record PoolAnswers : Type 0 where
  pub lists : Bool
  pub locks : Bytes → LockOutcome
  pub reads : Bytes → Bool
  pub random : ℕ → Option Bytes
  pub mint_locks : ℕ → LockOutcome
  pub stats : ℕ → Bool
  pub faults : Faults

-- `AcquireReason`
pub data AcquireReason : Type 0 where
  reused new_process lost_state : AcquireReason

pub data AcquireError : Type 0 where
  list_failed lock_failed random_failed stat_failed no_unused_lane : AcquireError
  not_persisted : LaneError → AcquireError

-- The files of the directory by their lanes.
abbrev pub no_file : File LaneText
no_file = record { visible = none; stale = [] }

abbrev pub is_there : Option LaneText → Bool
is_there none = false
is_there (some text) = true

unfoldable pub file_of : Bytes → List Entry → File LaneText
file_of lane [] = no_file
file_of lane (e ∷ es) = if bytes_eq e.lane lane then e.file else file_of lane es

unfoldable pub put_file : Bytes → File LaneText → List Entry → List Entry
put_file lane file [] = (record { lane = lane; is_dir = false; file = file }) ∷ []
put_file lane file (e ∷ es) =
    let rest = put_file lane file es in
    if bytes_eq e.lane lane then record e { file = file } ∷ es else e ∷ rest

-- What `os.Lstat` finds at the path of a lane.
unfoldable pub is_taken : Bytes → List Entry → Bool
is_taken lane [] = false
is_taken lane (e ∷ es) =
    if bytes_eq e.lane lane then e.is_dir || is_there e.file.visible else is_taken lane es

unfoldable pub has_lane : Bytes → List Bytes → Bool
has_lane lane [] = false
has_lane lane (l ∷ ls) = bytes_eq l lane || has_lane lane ls

-- `exclude`
unfoldable pub exclude : Bytes → LanePool → LanePool
exclude lane p = record p { excluded = lane ∷ p.excluded }

-- The loop of `Acquire` over the entries: the lanes with a file, and those of them that are not excluded.
unfoldable pub found_lanes : List Entry → List Bytes
unfolding valid_client_lane
found_lanes [] = []
found_lanes (e ∷ es) =
    let rest = found_lanes es in
    if valid_client_lane e.lane && not e.is_dir && is_there e.file.visible
    then e.lane ∷ rest
    else rest

unfoldable pub without_excluded : List Bytes → List Bytes → List Bytes
unfolding has_lane
without_excluded excluded [] = []
without_excluded excluded (l ∷ ls) =
    let rest = without_excluded excluded ls in if has_lane l excluded then rest else l ∷ rest

-- `slices.Sort`
unfoldable pub insert_lane : Bytes → List Bytes → List Bytes
insert_lane l [] = l ∷ []
insert_lane l (m ∷ ms) =
    let rest = insert_lane l ms in if bytes_le l m then l ∷ m ∷ ms else m ∷ rest

unfoldable pub sort_lanes : List Bytes → List Bytes
unfolding insert_lane
sort_lanes [] = []
sort_lanes (l ∷ ls) = insert_lane l (sort_lanes ls)

-- The loop of `Acquire` over the sorted lanes.
abbrev pub opened_or :
    Bytes
    → File LaneText
    → Result ReadError LaneFile
    → Result AcquireError (Option LanedStore)
    → Result AcquireError (Option LanedStore)
opened_or lane file (err e) rest = rest
opened_or lane file (ok d) rest = if d.abandoned then rest else ok (some (store_of lane d file))

abbrev pub locked_or :
    PoolAnswers
    → Bytes
    → File LaneText
    → LockOutcome
    → Result AcquireError (Option LanedStore)
    → Result AcquireError (Option LanedStore)
locked_or v lane file held_elsewhere rest = rest
locked_or v lane file broken rest = err lock_failed
locked_or v lane file granted rest =
    opened_or lane file (read_lane_file (v.reads lane) lane file.visible) rest

unfoldable pub try_lanes :
    PoolAnswers → List Entry → List Bytes → Result AcquireError (Option LanedStore)
unfolding read_lane_file file_of
try_lanes v dir [] = ok none
try_lanes v dir (l ∷ ls) = locked_or v l (file_of l dir) (v.locks l) (try_lanes v dir ls)

-- `hex.EncodeToString`
unfoldable pub hex_digit : ℕ → ℕ
hex_digit n = if ltb n 10 then 48 + n else 87 + n

unfoldable pub encode_hex : Bytes → Bytes
unfolding hex_digit
encode_hex [] = []
encode_hex (b ∷ bs) = hex_digit (b / 16) ∷ hex_digit (b % 16) ∷ encode_hex bs

-- `mint`
abbrev pub mint_attempts : ℕ
mint_attempts = 8

abbrev pub minted :
    LanePool → Option LaneError × LanedStore → Result AcquireError LanedStore × LanePool
minted p (some e, s) = (err (not_persisted e), record p { dir = put_file s.lane s.file p.dir })
minted p (none, s) = (ok s, record p { dir = put_file s.lane s.file p.dir })

abbrev pub mint_locked :
    PoolAnswers
    → LanePool
    → ℕ
    → Bytes
    → LockOutcome
    → Result AcquireError LanedStore × LanePool
    → Result AcquireError LanedStore × LanePool
mint_locked v p i lane held_elsewhere rest = rest
mint_locked v p i lane broken rest = (err lock_failed, p)
mint_locked v p i lane granted rest =
    if not (v.stats i)
    then (err stat_failed, p)
    else if is_taken lane p.dir
    then rest
    else minted p (mint_store v.faults lane (file_of lane p.dir))

abbrev pub mint_drawn :
    PoolAnswers
    → LanePool
    → ℕ
    → Option Bytes
    → Result AcquireError LanedStore × LanePool
    → Result AcquireError LanedStore × LanePool
mint_drawn v p i none rest = (err random_failed, p)
mint_drawn v p i (some bytes) rest = mint_locked v p i (encode_hex bytes) (v.mint_locks i) rest

unfoldable pub mint_from :
    PoolAnswers → LanePool → ℕ → ℕ → Result AcquireError LanedStore × LanePool
unfolding is_taken file_of put_file mint_store encode_hex
mint_from v p i zero = (err no_unused_lane, p)
mint_from v p i (suc left) = mint_drawn v p i (v.random i) (mint_from v p (suc i) left)

abbrev pub mint : PoolAnswers → LanePool → Result AcquireError LanedStore × LanePool
mint v p = mint_from v p 0 mint_attempts

-- `Acquire`
abbrev pub mint_reason : List Bytes → AcquireReason
mint_reason [] = lost_state
mint_reason (l ∷ ls) = new_process

abbrev pub with_reason :
    AcquireReason
    → Result AcquireError LanedStore × LanePool
    → Result AcquireError (LanedStore × AcquireReason) × LanePool
with_reason why (err e, p) = (err e, p)
with_reason why (ok s, p) = (ok (s, why), p)

abbrev pub acquired :
    PoolAnswers
    → LanePool
    → List Bytes
    → Result AcquireError (Option LanedStore)
    → Result AcquireError (LanedStore × AcquireReason) × LanePool
acquired v p found (err e) = (err e, p)
acquired v p found (ok (some s)) = (ok (s, reused), p)
acquired v p found (ok none) = with_reason (mint_reason found) (mint v p)

unfoldable pub acquire :
    PoolAnswers → LanePool → Result AcquireError (LanedStore × AcquireReason) × LanePool
unfolding found_lanes without_excluded sort_lanes try_lanes mint_from
acquire v p =
    if not v.lists
    then (err list_failed, p)
    else acquired v p (found_lanes p.dir)
        (try_lanes v p.dir (sort_lanes (without_excluded p.excluded (found_lanes p.dir))))
