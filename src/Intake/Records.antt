-- ===== src/Intake/Records.antt =====
-- What the intake keeps of a statement: `intakeRecord` and its parts (pkg/storageintegrity/intake.go)
-- and the durable `IntakeJournalRecord` with the conversions (journal.go). Slices are copied there, so
-- nothing is shared; a nil slice is told from an empty one where the code does.
use housegate.Base.{ℕ, Bool, true, false, ◌||◌, Option, List, [], String, Bytes, if◌then◌else◌}
use housegate.Intake.Outcomes.{
  SubmitOutcome, ClaimOutcome, no_submit, no_claim, Lifecycle, blank, preparing, unsafe_written,
  submit_accepted, rc_bound, ack2, abort_pending, cleaned,
}

pub record CandidatePart : Type 0 where
  pub table_id : String
  pub partition_id : String
  pub part_name : String
  pub part_row_lt_hash : String
  pub row_count : ℕ
  pub part_bytes : ℕ

pub record PartitionLtHashSum : Type 0 where
  pub table_id : String
  pub partition_id : String
  pub new_parts_lt_hash_sum : String

pub record PreparedLocalResult : Type 0 where
  pub statement_id : String
  pub source_node : String
  pub payload_ref : String
  pub payload_hash : String
  pub payload_length : ℕ
  pub payload_encoding : String
  pub revision : ℕ
  pub candidate_parts : List CandidatePart
  pub partition_new_part_sums : List PartitionLtHashSum
  pub source_claim_root : String
  pub lifecycle : Lifecycle

abbrev pub no_prepared : PreparedLocalResult
no_prepared = record {
  statement_id = "";
  source_node = "";
  payload_ref = "";
  payload_hash = "";
  payload_length = 0;
  payload_encoding = "";
  revision = 0;
  candidate_parts = [];
  partition_new_part_sums = [];
  source_claim_root = "";
  lifecycle = blank;
}

pub record AdmissionRecord : Type 0 where
  pub statement_id : String
  pub kind : String
  pub table_id : String
  pub sql : String
  pub sql_hash : String
  pub signer : String
  pub user_jws : String
  pub payload : Bytes
  pub payload_length : ℕ
  pub payload_ref : String
  pub payload_hash : String
  pub payload_encoding : String
  pub revision : ℕ
  pub envelope_version : ℕ
  pub network_id : String
  pub keeper_shard_id : ℕ
  pub settings_hash : String
  pub schema_hash : String
  pub row_id_profile_id : String
  pub touched_partition_ids : Option (List String)

pub record StatementEnvelope : Type 0 where
  pub statement_id : String
  pub statement_kind : String
  pub sql : String
  pub sql_hash : String
  pub target_table_id : String
  pub payload_ref : String
  pub payload_hash : String
  pub payload_length : ℕ
  pub payload_encoding : String
  pub revision : ℕ
  pub signer : String
  pub user_jws : String
  pub envelope_version : ℕ
  pub network_id : String
  pub keeper_shard_id : ℕ
  pub settings_hash : String
  pub schema_hash : String
  pub row_id_profile_id : String

pub record IntakeResult : Type 0 where
  pub statement_id : String
  pub is_ack2 : Bool
  pub lifecycle : Lifecycle
  pub submit : SubmitOutcome
  pub claim : ClaimOutcome
  pub prepared : PreparedLocalResult
  pub reason : String
  pub source_write_possible : Bool
  pub terminal : Bool
  pub source_frontier_retained : Bool

-- `IntakeResult{StatementID: id}`
abbrev pub blank_result : String → IntakeResult
blank_result id = record {
  statement_id = id;
  is_ack2 = false;
  lifecycle = blank;
  submit = no_submit;
  claim = no_claim;
  prepared = no_prepared;
  reason = "";
  source_write_possible = false;
  terminal = false;
  source_frontier_retained = false;
}

-- `intakeRecord`, less the fields that let concurrent attempts wait for each other.
pub record IntakeRecord : Type 0 where
  pub journal_version : ℕ
  pub statement_id : String
  pub source : String
  pub frontier_ordinal : ℕ
  pub env : StatementEnvelope
  pub adm : AdmissionRecord
  pub prepared : PreparedLocalResult
  pub has_prepared : Bool
  pub observed_candidate_parts : List CandidatePart
  pub submit : SubmitOutcome
  pub has_submit : Bool
  pub submit_unknown : Bool
  pub claim_unknown : Bool
  pub stage : Lifecycle
  pub abort_reason : String
  pub require_prepared_lookup : Bool
  pub prepare_known_unwritten : Bool
  pub terminal_res : IntakeResult
  pub is_terminal : Bool

-- `IntakeJournalRecord`, less the time of its last update.
pub record IntakeJournalRecord : Type 0 where
  pub journal_version : ℕ
  pub statement_id : String
  pub source : String
  pub frontier_ordinal : ℕ
  pub env : StatementEnvelope
  pub admission : AdmissionRecord
  pub stage : Lifecycle
  pub abort_reason : String
  pub prepared : PreparedLocalResult
  pub has_prepared : Bool
  pub observed_candidate_parts : List CandidatePart
  pub submit : SubmitOutcome
  pub has_submit : Bool
  pub submit_unknown : Bool
  pub claim_unknown : Bool
  pub prepare_known_unwritten : Bool
  pub terminal_result : IntakeResult
  pub is_terminal : Bool

-- `journalRecordFromIntakeRecord`
abbrev pub journal_record_from : IntakeRecord → IntakeJournalRecord
journal_record_from r = record {
  journal_version = r.journal_version;
  statement_id = r.statement_id;
  source = r.source;
  frontier_ordinal = r.frontier_ordinal;
  env = r.env;
  admission = r.adm;
  stage = r.stage;
  abort_reason = r.abort_reason;
  prepared = r.prepared;
  has_prepared = r.has_prepared;
  observed_candidate_parts = r.observed_candidate_parts;
  submit = r.submit;
  has_submit = r.has_submit;
  submit_unknown = r.submit_unknown;
  claim_unknown = r.claim_unknown;
  prepare_known_unwritten = r.prepare_known_unwritten;
  terminal_result = r.terminal_res;
  is_terminal = r.is_terminal;
}

-- `intakeRecordFromJournalRecord`. JSON keeps no unexported field of the result.
abbrev pub intake_record_from : IntakeJournalRecord → IntakeRecord
intake_record_from j = record {
  journal_version = j.journal_version;
  statement_id = j.statement_id;
  source = j.source;
  frontier_ordinal = j.frontier_ordinal;
  env = j.env;
  adm = j.admission;
  prepared = j.prepared;
  has_prepared = j.has_prepared;
  observed_candidate_parts = j.observed_candidate_parts;
  submit = j.submit;
  has_submit = j.has_submit;
  submit_unknown = j.submit_unknown;
  claim_unknown = j.claim_unknown;
  stage = j.stage;
  abort_reason = j.abort_reason;
  require_prepared_lookup = false;
  prepare_known_unwritten = j.prepare_known_unwritten;
  terminal_res = record j.terminal_result {
    terminal = j.is_terminal;
    source_frontier_retained = false;
    source_write_possible = false;
  };
  is_terminal = j.is_terminal;
}

abbrev pub is_unprepared_stage : Lifecycle → Bool
is_unprepared_stage blank = true
is_unprepared_stage preparing = true
is_unprepared_stage unsafe_written = false
is_unprepared_stage submit_accepted = false
is_unprepared_stage rc_bound = false
is_unprepared_stage ack2 = false
is_unprepared_stage abort_pending = false
is_unprepared_stage cleaned = false

-- `needsPreparedLookupAfterRestart`
abbrev pub needs_prepared_lookup_after_restart : IntakeRecord → Bool
needs_prepared_lookup_after_restart r =
    if r.has_prepared || r.is_terminal || r.prepare_known_unwritten
    then false
    else is_unprepared_stage r.stage
