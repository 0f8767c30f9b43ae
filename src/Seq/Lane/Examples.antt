-- ===== src/Seq/Lane/Examples.antt =====
-- Runs of a client lane, and the theorems about it at concrete histories.
use mathlib.Core.List.{Memᴰ}
use housegate.Base.{
  ◌<◌, ◌≡◌, refl, true, false, some, none, [], ◌∷◌, arith, ok, err, All, NotIn, Bytes,
}
use housegate.Durable.{Faults, no_faults, write_durable, candidates, fsync_dir}
use housegate.Seq.Lane.{
  LaneFile, LanedStore, persist, reserve, reserve_supplied, release, abandon, mint_store,
  first_state, read_lane_file, document, write_failed,
}
use housegate.Seq.FreeList.{search, found_at, insert_at}
use housegate.Seq.Counter.History.{no_file}
use housegate.Seq.Lane.Giving.{abandon_is_durable, SaysAbandoned}
use housegate.Seq.Lane.History.{
  minted, next, reserves, supplies, lane_reserve_never_repeats, lane_reserve_supplied_never_repeats,
  lane_recovery,
}

-- "00ff00ff00ff00ff"
abbrev lane_name : Bytes
lane_name =
    48 ∷ 48 ∷ 102 ∷ 102 ∷ 48 ∷ 48 ∷ 102 ∷ 102 ∷ 48 ∷ 48 ∷ 102 ∷ 102 ∷ 48 ∷ 48 ∷ 102 ∷ 102 ∷ []

abbrev unsynced : Faults
unsynced = record no_faults { dir_syncs = false }

abbrev minted_store : LanedStore
minted_store = record {
  lane = lane_name;
  state = first_state lane_name;
  closed = false;
  retired = false;
  file = record { visible = some (document (first_state lane_name)); stale = [] };
}

mint_gives_store : mint_store no_faults lane_name no_file ≡ (none, minted_store)
unfolding mint_store persist write_durable
mint_gives_store = refl

released_is_reused :
    let (r, s) = reserve no_faults minted_store in
    let (b, t) = release no_faults s 1 in
    (r ≡ ok 1) × (b ≡ ok false) × ((reserve no_faults t).0 ≡ ok 1)
unfolding reserve release persist write_durable found_at search insert_at
released_is_reused = (refl, refl, refl)

-- The rename is visible and its directory is not synced: the state stays, the file has both contents.
unsynced-reserve :
    ((reserve unsynced minted_store).0 ≡ err (write_failed fsync_dir))
    × ((reserve unsynced minted_store).1.state ≡ first_state lane_name)
unfolding reserve persist write_durable
unsynced-reserve = (refl, refl)

lane_reserve_never_repeats_example : NotIn 2 (1 ∷ []) × (0 < 2)
unfolding mint_store reserve persist write_durable
lane_reserve_never_repeats_example =
    lane_reserve_never_repeats lane_name (next (minted no_faults refl) (reserves no_faults))
      no_faults 2 refl

lane_reserve_supplied_never_repeats_example : NotIn 7 (1 ∷ [])
unfolding mint_store reserve reserve_supplied persist write_durable
lane_reserve_supplied_never_repeats_example =
    lane_reserve_supplied_never_repeats lane_name
      (next (minted no_faults refl) (reserves no_faults)) no_faults 7 (omega arith) refl

-- After a supplied seq whose rename was not synced, the content before it may come back.
lane_recovery_example :
    (d : LaneFile) × (read_lane_file true lane_name
        (some (document (record (first_state lane_name) { next = 2 })))
      ≡ ok d)
    × All (λ h. h < d.next) (1 ∷ [])
unfolding mint_store reserve reserve_supplied persist write_durable
lane_recovery_example =
    lane_recovery lane_name
      (next (next (minted no_faults refl) (reserves no_faults)) (supplies unsynced 9 (omega arith)))
      (some (document (record (first_state lane_name) { next = 2 }))) (Memᴰ.tail (Memᴰ.head refl))

abandon_is_durable_example :
    All SaysAbandoned (candidates (abandon no_faults true minted_store).1.file)
    × ((abandon no_faults true minted_store).1.closed ≡ true)
unfolding abandon persist write_durable
abandon_is_durable_example = abandon_is_durable no_faults minted_store refl
