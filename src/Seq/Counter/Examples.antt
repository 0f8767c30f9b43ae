-- ===== src/Seq/Counter/Examples.antt =====
-- Runs of a client_seq counter, and the theorems about it at concrete histories.
use mathlib.Core.List.{Memᴰ}
use housegate.Base.{
  ◌≤◌, ◌<◌, ◌≡◌, refl, false, true, none, some, [], ◌∷◌, arith, ok, err, All, NotIn,
}
use housegate.Durable.{Faults, no_faults, write_durable, fsync_dir}
use housegate.Seq.Counter.{
  decimal, SeqCounter, Reads, persist_locked, persist_free_locked, reserve_supplied, reserve,
  open_seq_counter, granted, write_failed,
}
use housegate.Seq.Counter.History.{
  fresh_world, here, next, reserves, supplies, settled, reserve_never_repeats,
  reserve_supplied_never_repeats, recovery,
}

abbrev all_reads : Reads
all_reads = record { seq_reads = true; free_reads = true }

-- The rename is visible and its directory is not synced.
abbrev unsynced : Faults
unsynced = record no_faults { dir_syncs = false }

-- The first seq is 1.
first_is_one : (reserve no_faults fresh_world.counter).0 ≡ ok 1
unfolding reserve persist_locked persist_free_locked write_durable
first_is_one = refl

-- A rename that is not synced moves nothing: the caller has an error and the next call the same seq.
unsynced-reserve :
    let (r, c) = reserve unsynced fresh_world.counter in
    (r ≡ err (write_failed fsync_dir)) × ((reserve no_faults c).0 ≡ ok 1)
unfolding reserve persist_locked persist_free_locked write_durable
unsynced-reserve = (refl, refl)

reserve_never_repeats_example : NotIn 2 (1 ∷ []) × (0 < 2)
unfolding reserve persist_locked persist_free_locked write_durable
reserve_never_repeats_example =
    reserve_never_repeats (next here (reserves no_faults)) no_faults 2 refl

reserve_supplied_never_repeats_example : NotIn 7 (1 ∷ [])
unfolding reserve reserve_supplied persist_locked persist_free_locked write_durable
reserve_supplied_never_repeats_example =
    reserve_supplied_never_repeats (next here (reserves no_faults)) no_faults 7 (omega arith) refl

-- After a supplied seq whose rename was not synced, the old content may come back.
recovery_example :
    (c : SeqCounter) × (open_seq_counter granted all_reads
        (settled (some (decimal 1)))
        (settled none)
      ≡ ok c)
    × All (λ h. h ≤ c.last) (1 ∷ [])
unfolding reserve reserve_supplied persist_locked persist_free_locked write_durable
recovery_example =
    recovery (next (next here (reserves no_faults)) (supplies unsynced 9 (omega arith)))
      (some (decimal 1)) none (Memᴰ.tail (Memᴰ.head refl)) (Memᴰ.head refl)
