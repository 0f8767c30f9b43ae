-- ===== src/Intake/Examples.antt =====
-- Runs of the intake, and the theorems about it at concrete attempts.
use mathlib.Core.List.{Memᴰ}
use housegate.Base.{◌↔◌, zero, suc, bytes_eq, ◌≡◌, refl, true, false, none, some, [], ◌∷◌}
use housegate.Durable.{no_faults, write_durable}
use housegate.Seq.Counter.History.{settled}
use housegate.Intake.Outcomes.{
  accepted, terminal_reject, no_submit, unsafe_written, cleaned, ack2_ready,
}
use housegate.Intake.Records.{
  CandidatePart, PreparedLocalResult, AdmissionRecord, StatementEnvelope,
}
use housegate.Intake.Consistency.{
  has_key, has_all_keys, candidates_reject, touched_reject, partitions_reject,
  prepared_candidate_consistency_reject, prepared_consistency_reject, same_statement, same_envelope,
  equal_strings, same_strings,
}
use housegate.Intake.World.{
  Config, made, rejected, failed, Answers, World, prepares, submits, registers, cleans,
  save_intake_record, save_journal_snapshot, cache_submit, cache_prepared, set_stage,
  set_abort_pending, set_prepare_reject_abort_pending, reset_after_prepare_reject,
  clear_prepare_known_unwritten, set_terminal,
}
use housegate.Intake.Aborts.{abort, abort_parts, abort_terminal_prepare_reject}
use housegate.Intake.Claims.{gate_inputs, finalize_claim, register_and_finish}
use housegate.Intake.Run.{
  lookup_prepared_before_prepare, after_submit, prepare_and_submit, run_unsubmitted, run_abort, run,
}
use housegate.Intake.Orchestrate.{
  Node, new_record, world_of, frontier_key, attempt_with, resume_record, create_record,
  load_or_create, orchestrate,
}
use housegate.Intake.Ack2.{Earned}
use housegate.Intake.Ack2.Gate.{IsOpen, ack2_ready-exact}
use housegate.Intake.Ack2.Runs.{ack2_is_earned}
use housegate.Intake.Safety.Saving.{SyncsDirectory}
use housegate.Intake.Safety.History.{fresh_node, here, next, calls, restarts, never_writes_twice}

abbrev config : Config
config = record {
  expected_source = "node-1";
  has_journal = true;
  has_lease_manager = false;
  has_querier = true;
  looks_up = true;
}

abbrev envelope : StatementEnvelope
envelope = record {
  statement_id = "0xab:1:n";
  statement_kind = "INSERT";
  sql = "INSERT INTO t VALUES";
  sql_hash = "h";
  target_table_id = "t";
  payload_ref = "ref";
  payload_hash = "hash";
  payload_length = 3;
  payload_encoding = "native";
  revision = 7;
  signer = "0xab";
  user_jws = "jws";
  envelope_version = 2;
  network_id = "net";
  keeper_shard_id = 0;
  settings_hash = "s";
  schema_hash = "c";
  row_id_profile_id = "r";
}

abbrev admission : AdmissionRecord
admission = record {
  statement_id = "0xab:1:n";
  kind = "INSERT";
  table_id = "t";
  sql = "INSERT INTO t VALUES";
  sql_hash = "h";
  signer = "0xab";
  user_jws = "jws";
  payload = 1 ∷ 2 ∷ 3 ∷ [];
  payload_length = 3;
  payload_ref = "ref";
  payload_hash = "hash";
  payload_encoding = "native";
  revision = 7;
  envelope_version = 2;
  network_id = "net";
  keeper_shard_id = 0;
  settings_hash = "s";
  schema_hash = "c";
  row_id_profile_id = "r";
  touched_partition_ids = some ("p1" ∷ []);
}

abbrev part : CandidatePart
part = record {
  table_id = "t";
  partition_id = "p1";
  part_name = "p1_1_1_0";
  part_row_lt_hash = "x";
  row_count = 1;
  part_bytes = 10;
}

abbrev prepared : PreparedLocalResult
prepared = record {
  statement_id = "0xab:1:n";
  source_node = "node-1";
  payload_ref = "ref";
  payload_hash = "hash";
  payload_length = 3;
  payload_encoding = "native";
  revision = 7;
  candidate_parts = part ∷ [];
  partition_new_part_sums = [];
  source_claim_root = "root";
  lifecycle = unsafe_written;
}

-- Every call succeeds.
abbrev good : Answers
good = record {
  lease_ensured = true;
  lookup = some (some prepared);
  prepare = made prepared;
  prepare_writes = true;
  submit = some (record no_submit { category = accepted });
  query_submit = none;
  query_claim = none;
  before_claim = true;
  register = some (record { category = accepted; bound_source = "node-1"; reason = "" });
  before_cleanup = true;
  aborts = true;
  abort_leaves = true;
  after_cleanup = true;
  saves = λ n. no_faults;
}

-- The source writes and its reply is lost.
abbrev lost_reply : Answers
lost_reply = record good { prepare = failed }

abbrev synced : SyncsDirectory no_faults
synced = record { opens = refl; syncs = refl }

abbrev called : Answers → Node → Node
called a n = (orchestrate config a true true envelope admission n).1

abbrev restarted : Node → Node
restarted n = record n { memory = none; journal = settled n.journal.visible }

-- A write whose reply was lost is found after a restart and not made again.
never_writes_twice_example :
    (called good (restarted (called lost_reply fresh_node))).doubled ≡ false
never_writes_twice_example = never_writes_twice config (
    next
      (next
        (next here (
          calls lost_reply true true envelope admission (record {
            durable = record { journaled = refl; disk = λ n. synced };
            lookup_is_exact = λ e. refl;
            reject_is_early = λ text e. cc;
          })))
        (restarts _ (Memᴰ.head refl)))
      (calls good true true envelope admission (record {
        durable = record { journaled = refl; disk = λ n. synced };
        lookup_is_exact = λ e. cc;
        reject_is_early = λ text e. cc;
      })))

abbrev started : World
started = world_of fresh_node (new_record config 1 envelope admission)

ack2_is_earned_example : Earned (run config good started).0.0 (run config good started).1
unfolding run run_unsubmitted lookup_prepared_before_prepare prepare_and_submit cache_prepared
    save_journal_snapshot save_intake_record write_durable after_submit
    prepared_candidate_consistency_reject candidates_reject has_key has_all_keys touched_reject
    partitions_reject prepared_consistency_reject cache_submit set_stage register_and_finish
    finalize_claim ack2_ready set_terminal frontier_key
ack2_is_earned_example = ack2_is_earned config good refl started refl refl

-- One good attempt makes each call once.
good-calls : (run config good started).1.calls ≡ registers ∷ submits ∷ prepares ∷ []
unfolding run run_unsubmitted lookup_prepared_before_prepare prepare_and_submit cache_prepared
    save_journal_snapshot save_intake_record write_durable after_submit
    prepared_candidate_consistency_reject candidates_reject has_key has_all_keys touched_reject
    partitions_reject prepared_consistency_reject cache_submit set_stage register_and_finish
    finalize_claim ack2_ready set_terminal frontier_key
good-calls = refl

-- A terminal reject of the submission hands the source the exact part.
abbrev refused : Answers
refused = record good { submit = some (record no_submit { category = terminal_reject }) }

refused-cleans :
    ((run config refused started).0.0.lifecycle ≡ cleaned)
    × ((run config refused started).1.calls ≡ cleans (part ∷ []) ∷ submits ∷ prepares ∷ [])
unfolding run run_unsubmitted lookup_prepared_before_prepare prepare_and_submit cache_prepared
    save_journal_snapshot save_intake_record write_durable after_submit
    prepared_candidate_consistency_reject candidates_reject has_key has_all_keys touched_reject
    partitions_reject abort abort_parts set_abort_pending set_terminal frontier_key
refused-cleans = (refl, refl)

-- A source that rejects, and a disk that renames the second save but cannot sync its directory.
abbrev rejecting : Answers
rejecting = record good {
  prepare = rejected "schema";
  prepare_writes = false;
  saves = λ n. elim n [ zero ↦ no_faults | suc m ↦ record no_faults { dir_syncs = false } ];
}

-- A source that writes, and a disk that saves nothing.
abbrev unsaved : Answers
unsaved = record good { saves = λ n. record no_faults { opens = false } }

-- The first save reports an error and is visible all the same, so that a restart trusts it: without the
-- condition on the directory's sync a write is made twice.
unsynced-doubles :
    (called good (called good (restarted (called unsaved (called rejecting fresh_node))))).doubled
    ≡ true
unfolding orchestrate load_or_create create_record resume_record attempt_with same_statement
    same_envelope equal_strings same_strings run run_abort run_unsubmitted
    lookup_prepared_before_prepare prepare_and_submit clear_prepare_known_unwritten cache_prepared
    save_journal_snapshot save_intake_record write_durable after_submit
    prepared_candidate_consistency_reject candidates_reject has_key has_all_keys touched_reject
    partitions_reject prepared_consistency_reject cache_submit set_stage register_and_finish
    finalize_claim ack2_ready set_terminal frontier_key abort_terminal_prepare_reject abort_parts
    set_prepare_reject_abort_pending reset_after_prepare_reject bytes_eq
unsynced-doubles = refl

ack2_ready-exact_example :
    (ack2_ready (
        gate_inputs prepared
          (record { category = accepted; bound_source = "node-1"; reason = "" })
          (record no_submit { category = accepted }))
      ≡ none)
    ↔ IsOpen (
        gate_inputs prepared
          (record { category = accepted; bound_source = "node-1"; reason = "" })
          (record no_submit { category = accepted }))
ack2_ready-exact_example = ack2_ready-exact (
    gate_inputs prepared (record { category = accepted; bound_source = "node-1"; reason = "" })
      (record no_submit { category = accepted }))
