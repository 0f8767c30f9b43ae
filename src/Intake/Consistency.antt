-- ===== src/Intake/Consistency.antt =====
-- What the intake checks of a prepared result before it binds or cleans it
-- (`preparedCandidateConsistencyReject`, `preparedConsistencyReject` of intake.go), when two calls
-- bring the same statement (`sameStatement`), and the versions of journal.go.
use housegate.Base.{
  ℕ, Bool, true, false, not, ◌&&◌, ◌||◌, Option, none, some, List, [], ◌∷◌, String, str_eq,
  bytes_eq, ◌==◌, if◌then◌else◌,
}
use housegate.Intake.Records.{
  CandidatePart, PreparedLocalResult, AdmissionRecord, StatementEnvelope, IntakeRecord,
  IntakeJournalRecord,
}

-- Membership in a Go map from strings, as the list of its keys.
unfoldable pub has_key : String → List String → Bool
has_key s [] = false
has_key s (k ∷ ks) = str_eq s k || has_key s ks

unfoldable pub has_all_keys : List String → List String → Bool
unfolding has_key
has_all_keys [] ks = true
has_all_keys (x ∷ xs) ks = has_key x ks && has_all_keys xs ks

-- The loop over the candidates: the first complaint, or the partitions seen. `tracks` says that the
-- caller passed touched partitions.
unfoldable pub candidates_reject : Bool → String → List String → List CandidatePart → Option String
unfolding has_key
candidates_reject tracks target seen [] = none
candidates_reject tracks target seen (c ∷ cs) =
    let rest = candidates_reject tracks target (c.partition_id ∷ seen) cs in
    if str_eq c.table_id "" || not (str_eq c.table_id target)
    then some "candidate table mismatch"
    else if str_eq c.partition_id ""
    then some "candidate has no partition_id"
    else if str_eq c.part_name ""
    then some "candidate has no part_name"
    else if tracks && has_key c.partition_id seen
    then some "candidate partition is duplicated"
    else rest

-- The loop over the touched partitions.
unfoldable pub touched_reject : List String → List String → Option String
unfolding has_key
touched_reject seen [] = none
touched_reject seen (p ∷ ps) =
    let rest = touched_reject (p ∷ seen) ps in
    if str_eq p ""
    then some "touched candidate partition is empty"
    else if has_key p seen
    then some "touched candidate partition is duplicated"
    else rest

abbrev pub partitions_of : List CandidatePart → List String
partitions_of [] = []
partitions_of (c ∷ cs) = c.partition_id ∷ partitions_of cs

-- The candidates' partitions against the touched ones. The order of a map's keys does not show: each
-- loop has one message.
unfoldable pub partitions_reject : List String → List String → Option String
unfolding touched_reject has_all_keys
partitions_reject touched partitions = elim (touched_reject [] touched) [
  | some m ↦ some m
  | none ↦
      if not (has_all_keys partitions touched)
      then some "candidate partition was not touched by the payload"
      else if not (has_all_keys touched partitions)
      then some "candidate partition is missing for touched payload partition"
      else none
]

-- `preparedCandidateConsistencyReject`: the reason, or `none` for "".
unfoldable pub prepared_candidate_consistency_reject :
    StatementEnvelope → PreparedLocalResult → Option (List String) → Option String
unfolding candidates_reject
prepared_candidate_consistency_reject env p none =
    candidates_reject false env.target_table_id [] p.candidate_parts
prepared_candidate_consistency_reject env p (some touched) =
    elim (candidates_reject true env.target_table_id [] p.candidate_parts) [
      | some m ↦ some m
      | none ↦ partitions_reject touched (partitions_of p.candidate_parts)
    ]

-- `preparedConsistencyReject`; the configured source is "" where none is expected.
unfoldable pub prepared_consistency_reject :
    String → StatementEnvelope → PreparedLocalResult → Option String
prepared_consistency_reject expected env p =
    let has_payload =
      not (str_eq env.payload_hash "")
      || not (str_eq env.payload_ref "")
      || not (env.payload_length == 0) in
    let candidates = prepared_candidate_consistency_reject env p none in
    if str_eq p.source_node ""
    then some "prepared result has no source_node"
    else if not (str_eq expected "") && not (str_eq p.source_node expected)
    then some "committed source mismatch"
    else if not has_payload
    then candidates
    else if str_eq p.payload_ref "" || not (str_eq p.payload_ref env.payload_ref)
    then some "payload ref mismatch"
    else if str_eq p.payload_hash "" || not (str_eq p.payload_hash env.payload_hash)
    then some "payload hash mismatch"
    else if p.payload_length == 0 || not (p.payload_length == env.payload_length)
    then some "payload length mismatch"
    else if str_eq p.payload_encoding "" || not (str_eq p.payload_encoding env.payload_encoding)
    then some "payload encoding mismatch"
    else if p.revision == 0 || not (p.revision == env.revision)
    then some "payload revision mismatch"
    else candidates

-- `equalStrings`: nil differs from an empty slice.
unfoldable pub same_strings : List String → List String → Bool
same_strings [] [] = true
same_strings [] (y ∷ ys) = false
same_strings (x ∷ xs) [] = false
same_strings (x ∷ xs) (y ∷ ys) = str_eq x y && same_strings xs ys

unfoldable pub equal_strings : Option (List String) → Option (List String) → Bool
unfolding same_strings
equal_strings none none = true
equal_strings none (some ys) = false
equal_strings (some xs) none = false
equal_strings (some xs) (some ys) = same_strings xs ys

-- `len(ids) == 0`, of a nil slice also.
abbrev pub is_empty_list {ℓ} : {A : Type ℓ} → List A → Bool
is_empty_list [] = true
is_empty_list (x ∷ xs) = false

abbrev pub is_nil_or_empty : Option (List String) → Bool
is_nil_or_empty none = true
is_nil_or_empty (some xs) = is_empty_list xs

-- `a == b` on envelopes, field by field.
unfoldable pub same_envelope : StatementEnvelope → StatementEnvelope → Bool
same_envelope a b =
    str_eq a.statement_id b.statement_id
    && str_eq a.statement_kind b.statement_kind
    && str_eq a.sql b.sql
    && str_eq a.sql_hash b.sql_hash
    && str_eq a.target_table_id b.target_table_id
    && str_eq a.payload_ref b.payload_ref
    && str_eq a.payload_hash b.payload_hash
    && (a.payload_length == b.payload_length)
    && str_eq a.payload_encoding b.payload_encoding
    && (a.revision == b.revision)
    && str_eq a.signer b.signer
    && str_eq a.user_jws b.user_jws
    && (a.envelope_version == b.envelope_version)
    && str_eq a.network_id b.network_id
    && (a.keeper_shard_id == b.keeper_shard_id)
    && str_eq a.settings_hash b.settings_hash
    && str_eq a.schema_hash b.schema_hash
    && str_eq a.row_id_profile_id b.row_id_profile_id

-- `sameStatement`
unfoldable pub same_statement :
    StatementEnvelope → AdmissionRecord → StatementEnvelope → AdmissionRecord → Bool → Bool → Bool
unfolding same_envelope equal_strings
same_statement a a_adm b b_adm stored_terminal zero_candidate_terminal =
    if not (same_envelope a b)
    then false
    else if not (equal_strings a_adm.touched_partition_ids b_adm.touched_partition_ids)
        && not (
            zero_candidate_terminal
            && is_nil_or_empty a_adm.touched_partition_ids
            && is_nil_or_empty b_adm.touched_partition_ids)
    then false
    else (stored_terminal && is_empty_list a_adm.payload) || bytes_eq a_adm.payload b_adm.payload

-- `zeroCandidateTerminal`
abbrev pub zero_candidate_terminal : IntakeRecord → Bool
zero_candidate_terminal r =
    r.is_terminal && r.has_prepared && is_empty_list r.prepared.candidate_parts

abbrev pub current_intake_journal_version : ℕ
current_intake_journal_version = 1

-- `intakeJournalVersionForAdmission` and `terminalIntakeJournalVersion`
abbrev pub intake_journal_version_for_admission : AdmissionRecord → ℕ
intake_journal_version_for_admission adm = elim adm.touched_partition_ids [
  | none ↦ 0
  | some ids ↦ current_intake_journal_version
]

abbrev is_some {ℓ} : {A : Type ℓ} → Option A → Bool
is_some none = false
is_some (some a) = true

abbrev pub terminal_intake_journal_version : IntakeRecord → ℕ
terminal_intake_journal_version r =
    if is_some r.adm.touched_partition_ids
      || not r.has_prepared
      || is_empty_list r.prepared.candidate_parts
    then current_intake_journal_version
    else 0

-- `candidateCoordinateKey` writes each of three coordinates behind its length, so two keys are equal
-- when the coordinates are. `candidatePartIn` and `allCandidatePartsObserved` follow.
unfoldable pub same_candidate : CandidatePart → CandidatePart → Bool
same_candidate a b =
    str_eq a.table_id b.table_id
    && str_eq a.partition_id b.partition_id
    && str_eq a.part_name b.part_name

unfoldable pub candidate_part_in : CandidatePart → List CandidatePart → Bool
unfolding same_candidate
candidate_part_in c [] = false
candidate_part_in c (x ∷ xs) = same_candidate x c || candidate_part_in c xs

unfoldable pub all_candidate_parts_observed : List CandidatePart → List CandidatePart → Bool
unfolding candidate_part_in
all_candidate_parts_observed [] observed = true
all_candidate_parts_observed (c ∷ cs) observed =
    candidate_part_in c observed && all_candidate_parts_observed cs observed

-- `normalizeTerminalJournalRecord`: the touched set of a terminal without candidates, then the
-- version of a legacy record whose candidates are complete.
unfoldable pub legacy_journal_migration_complete :
    Option (List String) → List CandidatePart → List CandidatePart → Bool
unfolding all_candidate_parts_observed
legacy_journal_migration_complete touched candidates observed =
    is_empty_list candidates
    || (is_some touched && all_candidate_parts_observed candidates observed)

abbrev pub with_known_touched : IntakeJournalRecord → IntakeJournalRecord
with_known_touched j =
    if j.has_prepared
      && is_empty_list j.prepared.candidate_parts
      && not (is_some j.admission.touched_partition_ids)
    then record j { admission = record j.admission { touched_partition_ids = some [] } }
    else j

abbrev pub with_upgraded_version : IntakeJournalRecord → IntakeJournalRecord
with_upgraded_version j =
    if (j.journal_version == 0)
      && legacy_journal_migration_complete j.admission.touched_partition_ids
          j.prepared.candidate_parts j.observed_candidate_parts
    then record j { journal_version = current_intake_journal_version }
    else j

abbrev pub normalize_terminal_journal_record : IntakeJournalRecord → IntakeJournalRecord
normalize_terminal_journal_record j =
    if j.is_terminal then with_upgraded_version (with_known_touched j) else j
