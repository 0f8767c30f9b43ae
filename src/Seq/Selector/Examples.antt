-- ===== src/Seq/Selector/Examples.antt =====
-- A selector over a directory with one lane, and the theorems about it there.
use housegate.Base.{ℕ, ◌≤◌, ◌≡◌, ◌≢◌, refl, true, false, some, [], ◌∷◌, Bytes, bytes_eq}
use housegate.Durable.{no_faults, write_durable}
use housegate.Seq.FreeList.{ascending_below}
use housegate.Seq.Counter.{granted}
use housegate.Seq.Lane.{LaneFile, document, persist}
use housegate.Seq.Pool.{LanePool, PoolAnswers, has_lane}
use housegate.Seq.Selector.{Selector, pick, picked, waits, rotate, new_selector, in_flight}
use housegate.Seq.Selector.Counts.{InUse, after_pick, pending_dones}
use housegate.Seq.Selector.History.{here, next, picks, rotates, gone_after}
use housegate.Seq.Selector.Lasting.{rotated_lane_never_returns}
use housegate.Seq.Selector.Capped.{lane_is_capped}

-- The lane "0000000000000001".
abbrev old_file : LaneFile
old_file = record {
  version = 1;
  lane = 48 ∷ 48 ∷ 48 ∷ 48 ∷ 48 ∷ 48 ∷ 48 ∷ 48 ∷ 48 ∷ 48 ∷ 48 ∷ 48 ∷ 48 ∷ 48 ∷ 48 ∷ 49 ∷ [];
  next = 7;
  free = 3 ∷ [];
  abandoned = false;
}

abbrev pool : LanePool
pool = record {
  dir =
      (record {
        lane = old_file.lane;
        is_dir = false;
        file = record { visible = some (document old_file); stale = [] };
      })
      ∷ [];
  excluded = [];
}

-- The platform answers everything; the random bytes are always the same.
abbrev answers : PoolAnswers
answers = record {
  lists = true;
  locks = λ lane. granted;
  reads = λ lane. true;
  random = λ i. some (0 ∷ 0 ∷ 0 ∷ 0 ∷ 0 ∷ 0 ∷ 0 ∷ 171 ∷ []);
  mint_locks = λ i. granted;
  stats = λ i. true;
  faults = no_faults;
}

abbrev new_lane : Bytes
new_lane = 48 ∷ 48 ∷ 48 ∷ 48 ∷ 48 ∷ 48 ∷ 48 ∷ 48 ∷ 48 ∷ 48 ∷ 48 ∷ 48 ∷ 48 ∷ 48 ∷ 97 ∷ 98 ∷ []

abbrev cap : ℕ
cap = 1

abbrev start : Selector
start = new_selector true cap pool

abbrev first : InUse
first = after_pick [] (pick answers true true false start)

abbrev rotated : InUse
rotated = record first { selector = (rotate no_faults true old_file.lane first.selector).2 }

first_reuses : (pick answers true true false start).0 ≡ picked old_file.lane
unfolding pick new_selector bytes_eq ascending_below
first_reuses = refl

second_waits : (pick answers true true false first.selector).0 ≡ waits
unfolding pick new_selector bytes_eq ascending_below
second_waits = refl

after_rotation : (pick answers true true false rotated.selector).0 ≡ picked new_lane
unfolding pick new_selector rotate bytes_eq ascending_below persist write_durable
after_rotation = refl

lane_is_capped_example :
    (in_flight old_file.lane first.selector.inflight ≡ pending_dones old_file.lane first.dones)
    × (old_file.lane ≢ [] → cap ≢ 0 → pending_dones old_file.lane first.dones ≤ cap)
lane_is_capped_example =
    lane_is_capped true cap pool (next here (picks answers true true false)) old_file.lane

rotated_lane_never_returns_example :
    has_lane new_lane (gone_after old_file.lane first.selector.current []) ≡ false
rotated_lane_never_returns_example =
    rotated_lane_never_returns true cap pool
      (next (next here (picks answers true true false)) (rotates no_faults true old_file.lane))
      answers true true false new_lane after_rotation (λ e. cc)
