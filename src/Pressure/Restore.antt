-- ===== src/Pressure/Restore.antt =====
-- The records of `RestoreBatch` (parts_pressure.go): the checks on one, and what of it still matters.
use Prim.Native.Nat.{Ordering}
use Prim.Native.String.{compare}
use housegate.Base.{
  Bool, true, false, not, ◌&&◌, ◌||◌, Option, none, some, List, [], ◌∷◌, String, str_eq,
  if◌then◌else◌, Result, ok, err,
}
use housegate.Intake.Records.{CandidatePart}
use housegate.Intake.Consistency.{candidate_part_in}
use housegate.Pressure.Scope.{has_text, physical_table_name}
use housegate.Pressure.Maps.{get_or}
use housegate.Pressure.Guard.{Part, Guard, key_of}
use housegate.Pressure.Claims.{BindError}

-- Go's order of strings.
abbrev pub str_lt : String → String → Bool
str_lt s t = elim (compare s t) [ Ordering.lt ↦ true | _ ↦ false ]

-- `PartsRestoreRecord`; `none` is a partition set that is not known.
pub record RestoreRecord : Type 0 where
  pub statement_id : String
  pub table : String
  pub partition_ids : Option (List String)
  pub candidates : List CandidatePart
  pub observed_candidates : List CandidatePart
  pub finalized : Bool
  pub legacy_observation : Bool

pub data RestoreError : Type 0 where
  cancelled read_failed no_statement_id duplicate_statement observation_unknown : RestoreError
  partitions_unknown empty_part_name outside_table outside_partition : RestoreError
  migration_required not_admitted flush_failed : RestoreError
  not_bound : BindError → RestoreError

abbrev pub known : Option (List String) → List String
known none = []
known (some ids) = ids

abbrev pub is_unknown : Option (List String) → Bool
is_unknown none = true
is_unknown (some ids) = false

unfoldable pub all_in : List CandidatePart → List CandidatePart → Bool
all_in [] cs = true
all_in (o ∷ os) cs = candidate_part_in o cs && all_in os cs

abbrev pub is_active_part : Guard → String → CandidatePart → Bool
is_active_part g table c =
    has_text c.part_name (get_or [] (key_of g table c.partition_id) g.active_parts)

-- The candidates of a finalized record that still matter: those that an earlier inventory has seen and
-- that are gone now are historical cleanup.
abbrev pub keep_candidate :
    Guard
    → RestoreRecord
    → CandidatePart
    → Result RestoreError (List CandidatePart)
    → Result RestoreError (List CandidatePart)
keep_candidate g d c (err e) = err e
keep_candidate g d c (ok rest) =
    if candidate_part_in c d.observed_candidates && not (is_active_part g d.table c)
    then ok rest
    else ok (c ∷ rest)

unfoldable pub effective_candidates :
    Guard → RestoreRecord → List CandidatePart → Result RestoreError (List CandidatePart)
unfolding physical_table_name has_text candidate_part_in
effective_candidates g d [] = ok []
effective_candidates g d (c ∷ cs) =
    let rest = effective_candidates g d cs in
    if str_eq c.part_name ""
    then err empty_part_name
    else if not (str_eq (physical_table_name c.table_id) d.table)
    then err outside_table
    else if not (has_text c.partition_id (known d.partition_ids))
    then err outside_partition
    else if d.legacy_observation
        && not (candidate_part_in c d.observed_candidates)
        && not (is_active_part g d.table c)
    then err migration_required
    else keep_candidate g d c rest

-- `restoreCandidatePartitions`: each partition once, sorted.
unfoldable pub insert_text : String → List String → List String
insert_text s [] = s ∷ []
insert_text s (t ∷ ts) = let rest = insert_text s ts in if str_lt t s then t ∷ rest else s ∷ t ∷ ts

unfoldable pub sort_texts : List String → List String
unfolding insert_text
sort_texts [] = []
sort_texts (s ∷ ss) = insert_text s (sort_texts ss)

unfoldable pub candidate_partitions : List String → List CandidatePart → List String
unfolding has_text
candidate_partitions seen [] = []
candidate_partitions seen (c ∷ cs) =
    let rest = candidate_partitions (c.partition_id ∷ seen) cs in
    let again = candidate_partitions seen cs in
    if has_text c.partition_id seen then again else c.partition_id ∷ rest

-- Which keys of a finalized reservation wait for a candidate that nobody has seen.
abbrev pub waits_for : Guard → RestoreRecord → CandidatePart → Bool
waits_for g d c =
    not (candidate_part_in c d.observed_candidates) && not (is_active_part g d.table c)

unfoldable pub has_waiting : Guard → RestoreRecord → String → List CandidatePart → Bool
unfolding candidate_part_in has_text
has_waiting g d partition [] = false
has_waiting g d partition (c ∷ cs) =
    (str_eq c.partition_id partition && waits_for g d c) || has_waiting g d partition cs

unfoldable pub cover_seen : Guard → RestoreRecord → List CandidatePart → List Part → List Part
unfolding has_waiting
cover_seen g d cs [] = []
cover_seen g d cs (p ∷ ps) =
    record p { candidate_covered = not (has_waiting g d p.key.partition cs) } ∷ cover_seen g d cs ps
