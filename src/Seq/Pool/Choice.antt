-- ===== src/Seq/Pool/Choice.antt =====
-- What `Acquire` takes: a lane of a file that is intact and not abandoned and that is not excluded, or a
-- new one. Lanes that are out of the pool stay out.
use housegate.Base.{
  ◌≡◌, refl, Bool, true, false, ◌||◌, Option, none, some, List, [], ◌∷◌, Result, ok, err, All,
  arith, if_ind, if◌then◌else◌, ◌⊎◌, Bytes, bytes_eq, bytes_eq→eq, bytes_eq_refl, bytes_le,
}
use housegate.Durable.{File}
use housegate.Seq.Counter.{LockOutcome, granted, held_elsewhere, broken}
use housegate.Seq.Lane.{
  LaneFile, LaneText, undecodable, trailing_data, document, LanedStore, ReadError, check_lane_file,
  read_lane_file,
}
use housegate.Seq.Pool.{
  Entry, LanePool, PoolAnswers, AcquireError, is_there, file_of, put_file, is_taken, has_lane,
  without_excluded, insert_lane, sort_lanes, opened_or, locked_or, try_lanes,
}

-- The file of a lane that is to be used.
abbrev pub IsReady : Bytes → List Entry → Type 0
IsReady l dir =
    (d : LaneFile) × ((file_of l dir).visible ≡ some (document d)) × (d.abandoned ≡ false)

-- A lane that the pool must not give out again.
abbrev pub IsOut : LanePool → Bytes → Type 0
IsOut p l =
    (is_taken l p.dir ≡ true)
    × ((has_lane l p.excluded ≡ true)
        ⊎ ((d : LaneFile) × ((file_of l p.dir).visible ≡ some (document d)) × (d.abandoned ≡ true)))

abbrev pub IsChosen : LanePool → LanedStore → Type 0
IsChosen p s =
    (has_lane s.lane p.excluded ≡ false) × IsReady s.lane p.dir × (is_there s.file.visible ≡ true)

abbrev pub ChosenIf : LanePool → Result AcquireError (Option LanedStore) → Type 0
ChosenIf p (err e) = Unit
ChosenIf p (ok none) = Unit
ChosenIf p (ok (some s)) = IsChosen p s

read_lane_file-visible :
    (reads : Bool) (l : Bytes) (o : Option LaneText) (d : LaneFile)
    → read_lane_file reads l o ≡ ok d
    → o ≡ some (document d)
unfolding read_lane_file check_lane_file
read_lane_file-visible reads l none d h = cc
read_lane_file-visible reads l (some undecodable) d h = ground (arith, h)
read_lane_file-visible reads l (some trailing_data) d h = ground (arith, h)
read_lane_file-visible reads l (some (document c)) d h = ground (arith, h)

opened_or-ChosenIf :
    (p : LanePool) (l : Bytes) (r : Result ReadError LaneFile)
    (rest : Result AcquireError (Option LanedStore))
    → has_lane l p.excluded ≡ false
    → ((d : LaneFile) → r ≡ ok d → (file_of l p.dir).visible ≡ some (document d))
    → ChosenIf p rest
    → ChosenIf p (opened_or l (file_of l p.dir) r rest)
opened_or-ChosenIf p l (err e) rest free seen h = h
opened_or-ChosenIf p l (ok d) rest free seen h =
    if_ind (ChosenIf p) d.abandoned (λ _. h)
      (λ fresh. (free, (d, seen d refl, fresh), rw (seen d refl) refl))

locked_or-ChosenIf :
    (v : PoolAnswers) (p : LanePool) (l : Bytes) (o : LockOutcome)
    (rest : Result AcquireError (Option LanedStore))
    → has_lane l p.excluded ≡ false
    → ChosenIf p rest
    → ChosenIf p (locked_or v l (file_of l p.dir) o rest)
locked_or-ChosenIf v p l held_elsewhere rest free h = h
locked_or-ChosenIf v p l broken rest free h = tt
locked_or-ChosenIf v p l granted rest free h =
    opened_or-ChosenIf p l _ rest free
      (read_lane_file-visible (v.reads l) l (file_of l p.dir).visible) h

pub try_lanes-ChosenIf :
    (v : PoolAnswers) (p : LanePool) (ls : List Bytes)
    → All (λ l. has_lane l p.excluded ≡ false) ls
    → ChosenIf p (try_lanes v p.dir ls)
unfolding try_lanes
try_lanes-ChosenIf v p [] h = tt
try_lanes-ChosenIf v p (l ∷ ls) h =
    locked_or-ChosenIf v p l (v.locks l) (try_lanes v p.dir ls) h.0 (try_lanes-ChosenIf v p ls h.1)

pub without_excluded-All :
    (out ls : List Bytes) → All (λ l. has_lane l out ≡ false) (without_excluded out ls)
unfolding without_excluded
without_excluded-All out [] = tt
without_excluded-All out (l ∷ ls) =
    if_ind (All (λ l. has_lane l out ≡ false)) (has_lane l out) (λ _. without_excluded-All out ls)
      (λ free. (free, without_excluded-All out ls))

module _ (P : Bytes → Type 0) where
  insert_lane-All : (l : Bytes) (ls : List Bytes) → P l → All P ls → All P (insert_lane l ls)
  unfolding insert_lane
  insert_lane-All l [] p h = (p, tt)
  insert_lane-All l (m ∷ ms) p h =
      if_ind (All P) (bytes_le l m) (λ _. (p, h)) (λ _. (h.0, insert_lane-All l ms p h.1))

  pub sort_lanes-All : (ls : List Bytes) → All P ls → All P (sort_lanes ls)
  unfolding sort_lanes
  sort_lanes-All [] h = tt
  sort_lanes-All (l ∷ ls) h = insert_lane-All l (sort_lanes ls) h.0 (sort_lanes-All ls h.1)

-- The directory after a write of one file.
pub file_of-put_file :
    (j l : Bytes) (f : File LaneText) (es : List Entry)
    → file_of j (put_file l f es) ≡ (if bytes_eq l j then f else file_of j es)
unfolding file_of put_file
file_of-put_file j l f [] = refl
file_of-put_file j l f (e ∷ es) = ground (
  arith,
  file_of-put_file j l f es,
  bytes_eq→eq e.lane l,
  bytes_eq→eq e.lane j,
  bytes_eq→eq l j,
  bytes_eq_refl l,
  bytes_eq_refl j,
)

pub is_taken-put_file :
    (j l : Bytes) (f : File LaneText) (es : List Entry)
    → is_there f.visible ≡ true
    → is_taken j (put_file l f es) ≡ (bytes_eq l j || is_taken j es)
unfolding is_taken put_file
is_taken-put_file j l f [] h = ground (arith, h)
is_taken-put_file j l f (e ∷ es) h = ground (
  arith,
  h,
  is_taken-put_file j l f es h,
  bytes_eq→eq e.lane l,
  bytes_eq→eq e.lane j,
  bytes_eq→eq l j,
  bytes_eq_refl l,
  bytes_eq_refl j,
)

pub is_taken-other :
    (j l : Bytes) (f : File LaneText) (es : List Entry)
    → bytes_eq l j ≡ false
    → is_taken j (put_file l f es) ≡ is_taken j es
unfolding is_taken put_file
is_taken-other j l f [] other = ground (arith, other)
is_taken-other j l f (e ∷ es) other =
    ground (arith, other, is_taken-other j l f es other, bytes_eq→eq e.lane l, bytes_eq→eq e.lane j)
