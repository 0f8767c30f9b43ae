-- ===== src/Intake/Orchestrate.antt =====
-- `Orchestrate` of pkg/storageintegrity/intake.go for one statement, with `finishAttempt` and
-- `finishAttemptAndDropRecord`: from a validated admission to the published outcome of one attempt.
use housegate.Base.{
  ℕ, ◌+◌, ◌%◌, Bool, true, false, not, ◌&&◌, ◌||◌, Option, none, some, List, [], String, str_eq,
  ltb, if◌then◌else◌,
}
use housegate.Durable.{File}
use housegate.Seq.Counter.{u64_mod}
use housegate.Intake.Outcomes.{no_submit, preparing, is_rc_bound}
use housegate.Intake.Records.{
  AdmissionRecord, StatementEnvelope, no_prepared, IntakeResult, blank_result, IntakeRecord,
  IntakeJournalRecord, intake_record_from, needs_prepared_lookup_after_restart,
}
use housegate.Intake.Consistency.{
  same_statement, zero_candidate_terminal, intake_journal_version_for_admission,
}
use housegate.Intake.World.{Config, Answers, World, Call, IntakeError, Outcome, Saved, set_and_save}
use housegate.Intake.Run.{run}

-- The orchestrator and the world, as one statement sees them: the record in memory, if any, the file,
-- the greatest frontier ordinal of the source, and what the calls did.
pub record Node : Type 0 where
  pub memory : Option IntakeRecord
  pub journal : File IntakeJournalRecord
  pub next_ordinal : ℕ  -- uint64
  pub calls : List Call
  pub written : Bool
  pub doubled : Bool

-- Why a call of `Orchestrate` returns no outcome of a run.
pub data CallError : Type 0 where
  load_failed reused_envelope frontier_failed : CallError
  attempt : IntakeError → CallError

abbrev pub Published : Type 0
Published = (IntakeResult × Option CallError) × Node

abbrev pub default_frontier_key : String
default_frontier_key = "__default_source__"

-- `frontierKey`
unfoldable pub frontier_key : Config → String
frontier_key c = if str_eq c.expected_source "" then default_frontier_key else c.expected_source

-- The record of a journal entry that is loaded on demand.
abbrev pub loaded_record : Config → IntakeJournalRecord → IntakeRecord
loaded_record c j =
    let r = intake_record_from j in
    record r {
      source = if str_eq r.source "" then frontier_key c else r.source;
      require_prepared_lookup = needs_prepared_lookup_after_restart r;
    }

-- The record of a statement that is new.
abbrev pub new_record : Config → ℕ → StatementEnvelope → AdmissionRecord → IntakeRecord
new_record c ordinal env adm = record {
  journal_version = intake_journal_version_for_admission adm;
  statement_id = env.statement_id;
  source = frontier_key c;
  frontier_ordinal = ordinal;
  env = env;
  adm = adm;
  prepared = no_prepared;
  has_prepared = false;
  observed_candidate_parts = [];
  submit = no_submit;
  has_submit = false;
  submit_unknown = false;
  claim_unknown = false;
  stage = preparing;
  abort_reason = "";
  require_prepared_lookup = false;
  prepare_known_unwritten = false;
  terminal_res = blank_result "";
  is_terminal = false;
}

abbrev pub world_of : Node → IntakeRecord → World
world_of n r = record {
  rec = r;
  journal = n.journal;
  saved = 0;
  calls = n.calls;
  written = n.written;
  doubled = n.doubled;
}

abbrev pub node_of : Node → World → Node
node_of n w = record n {
  memory = some w.rec;
  journal = w.journal;
  calls = w.calls;
  written = w.written;
  doubled = w.doubled;
}

-- `finishAttempt`, with the frontier kept or released.
abbrev pub finish_attempt : Node → Outcome → Published
finish_attempt n ((res, some e), w) =
    ((record res { source_frontier_retained = true }, some (attempt e)), node_of n w)
finish_attempt n ((res, none), w) =
    let released = res.terminal || is_rc_bound res.lifecycle in
    let res' = record res { source_frontier_retained = not released } in
    let r =
      if res'.terminal then record w.rec { is_terminal = true; terminal_res = res' } else w.rec in
    ((res', none), record (node_of n w) { memory = some r })

module _ (c : Config) (a : Answers) where
  -- The frontier is waited for, which `gets_frontier` answers, and the attempt runs.
  unfoldable pub attempt_with : Bool → Node → World → Published
  attempt_with gets_frontier n w =
      if gets_frontier
      then finish_attempt n (run c a w)
      else ((blank_result w.rec.env.statement_id, some frontier_failed), node_of n w)

  -- A record that is bound: another envelope is refused and an end is repeated.
  unfoldable pub resume_record :
      Bool → StatementEnvelope → AdmissionRecord → Node → IntakeRecord → Published
  resume_record gets_frontier env adm n r =
      if not (same_statement r.env r.adm env adm r.is_terminal (zero_candidate_terminal r))
      then ((blank_result env.statement_id, some reused_envelope), record n { memory = some r })
      else if r.is_terminal
      then ((r.terminal_res, none), record n { memory = some r })
      else attempt_with gets_frontier n (world_of n r)

  abbrev pub after_first_save : Bool → Node → Saved → Published
  after_first_save gets_frontier n (some e, w) = (
    (blank_result w.rec.env.statement_id, some (attempt e)),
    record (node_of n w) { memory = none },
  )
  after_first_save gets_frontier n (none, w) = attempt_with gets_frontier n w

  -- A new statement is saved before anything else; its record is dropped where that fails.
  unfoldable pub create_record : Bool → StatementEnvelope → AdmissionRecord → Node → Published
  create_record gets_frontier env adm n =
      let ordinal = (n.next_ordinal + 1) % u64_mod in
      let r = new_record c ordinal env adm in
      let n' = record n { next_ordinal = ordinal } in
      after_first_save gets_frontier n' (set_and_save c a (world_of n' r) r)

  -- The record of the journal, or a new one.
  unfoldable pub load_or_create :
      Bool
      → Bool
      → StatementEnvelope
      → AdmissionRecord
      → Node
      → Option IntakeJournalRecord
      → Published
  load_or_create loads gets_frontier env adm n none =
      if c.has_journal && not loads
      then ((blank_result env.statement_id, some load_failed), n)
      else create_record gets_frontier env adm n
  load_or_create loads gets_frontier env adm n (some j) =
      if not c.has_journal
      then create_record gets_frontier env adm n
      else if not loads
      then ((blank_result env.statement_id, some load_failed), n)
      else let r = loaded_record c j in
        resume_record gets_frontier env adm
          (record n {
            next_ordinal =
                if ltb n.next_ordinal r.frontier_ordinal
                then r.frontier_ordinal
                else n.next_ordinal;
          })
          r

  -- `Orchestrate`: `loads` and `gets_frontier` say whether the journal is read and the frontier got.
  unfoldable pub orchestrate : Bool → Bool → StatementEnvelope → AdmissionRecord → Node → Published
  orchestrate loads gets_frontier env adm n = elim n.memory [
    | some r ↦ resume_record gets_frontier env adm n r
    | none ↦ load_or_create loads gets_frontier env adm n n.journal.visible
  ]
