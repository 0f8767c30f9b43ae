-- ===== src/Intake/World.antt =====
-- One statement under the orchestrator of pkg/storageintegrity/intake.go: its record in memory, its
-- file in the journal, and the calls that were made. What the remote parts answer in one attempt is
-- the parameter `Answers`. One attempt runs at a time, which `active` and `done` see to.
use housegate.Base.{
  ℕ, suc, Bool, true, false, Option, none, some, List, [], String, ltb, if◌then◌else◌,
}
use housegate.Durable.{Faults, File, write_durable}
use housegate.Intake.Outcomes.{
  SubmitOutcome, ClaimOutcome, no_submit, Lifecycle, preparing, unsafe_written, abort_pending,
  rank_lifecycle,
}
use housegate.Intake.Records.{
  CandidatePart, PreparedLocalResult, no_prepared, IntakeRecord, IntakeJournalRecord, IntakeResult,
  blank_result, journal_record_from,
}
use housegate.Intake.Consistency.{
  terminal_intake_journal_version, normalize_terminal_journal_record,
}

-- The configuration, and which optional parts are there.
pub record Config : Type 0 where
  pub expected_source : String
  pub has_journal : Bool
  pub has_lease_manager : Bool
  pub has_querier : Bool
  pub looks_up : Bool

-- What `PrepareLocalStatement` returns: a result, `ErrPrepareTerminalReject`, or another error.
pub data PrepareAnswer : Type 0 where
  made : PreparedLocalResult → PrepareAnswer
  rejected : String → PrepareAnswer
  failed : PrepareAnswer

-- The answers of the ports, the hooks and the disk in one attempt; `none` is an error. A hook that is
-- not set answers `true`. `prepare_writes` and `abort_leaves` say what a call does to the source.
pub record Answers : Type 0 where
  pub lease_ensured : Bool
  pub lookup : Option (Option PreparedLocalResult)
  pub prepare : PrepareAnswer
  pub prepare_writes : Bool
  pub submit : Option SubmitOutcome
  pub query_submit : Option SubmitOutcome
  pub query_claim : Option ClaimOutcome
  pub before_claim : Bool
  pub register : Option ClaimOutcome
  pub before_cleanup : Bool
  pub aborts : Bool
  pub abort_leaves : Bool
  pub after_cleanup : Bool
  pub saves : ℕ → Faults

pub data Call : Type 0 where
  prepares submits registers : Call
  cleans : List CandidatePart → Call

-- `written` is whether the source holds an unsafe write of the statement, `doubled` whether it ever
-- made one on top of another.
pub record World : Type 0 where
  pub rec : IntakeRecord
  pub journal : File IntakeJournalRecord
  pub saved : ℕ
  pub calls : List Call
  pub written : Bool
  pub doubled : Bool

pub data IntakeError : Type 0 where
  lease_failed persist_failed lookup_required lookup_failed query_failed prepare_failed :
      IntakeError
  submit_failed register_failed hook_failed abort_failed unexpected_candidates : IntakeError
  inconsistent : String → IntakeError

abbrev pub Outcome : Type 0
Outcome = (IntakeResult × Option IntakeError) × World

abbrev pub Saved : Type 0
Saved = Option IntakeError × World

-- `if err := save(...); err != nil { return res, err }` and what follows.
abbrev pub saved_or : Saved → IntakeResult → (World → Outcome) → Outcome
saved_or (some e, w) res k = ((res, some e), w)
saved_or (none, w) res k = k w

-- `saveIntakeRecord` of journal.go makes the calls of `writeDurable` in the same order; the close of
-- the directory is deferred and its error is not read.
unfoldable pub save_intake_record :
    Faults → File IntakeJournalRecord → IntakeJournalRecord → File IntakeJournalRecord × Bool
save_intake_record f file j =
    let (file', e) = write_durable (record f { dir_closes = true }) file j in
    (file', elim e [ none ↦ true | some x ↦ false ])

abbrev pub without_payload : IntakeJournalRecord → IntakeJournalRecord
without_payload j =
    if j.is_terminal then record j { admission = record j.admission { payload = [] } } else j

-- What `saveJournalSnapshot` writes for a snapshot: a terminal record wins over an older snapshot.
abbrev pub snapshot_to_save : IntakeRecord → IntakeJournalRecord → IntakeJournalRecord
snapshot_to_save r snap = without_payload (
    if r.is_terminal then journal_record_from r else record snap {
      admission = record snap.admission { touched_partition_ids = r.adm.touched_partition_ids };
      observed_candidate_parts = r.observed_candidate_parts;
    })

-- The journal's answer, as an error or none.
abbrev pub saved_as : Bool → Option IntakeError
saved_as true = none
saved_as false = some persist_failed

abbrev pub store_record : Answers → World → IntakeJournalRecord → Saved
store_record a w j =
    let (file, ok) = save_intake_record (a.saves w.saved) w.journal j in
    (saved_as ok, record w { journal = file; saved = suc w.saved })

-- `saveJournalSnapshot`
unfoldable pub save_journal_snapshot : Config → Answers → World → IntakeJournalRecord → Saved
save_journal_snapshot c a w snap =
    if c.has_journal then store_record a w (snapshot_to_save w.rec snap) else (none, w)

-- Memory changes when the journal took the record.
abbrev pub publish : IntakeRecord → Saved → Saved
publish r (some e, w) = (some e, w)
publish r (none, w) = (none, record w { rec = r })

-- The record that `setTerminal` writes, and the record in memory after it.
abbrev pub ended_snapshot : IntakeRecord → IntakeResult → IntakeJournalRecord
ended_snapshot r res =
    let snap = journal_record_from r in
    record snap {
      journal_version = terminal_intake_journal_version r;
      stage = res.lifecycle;
      is_terminal = true;
      terminal_result = res;
      admission = record snap.admission { payload = [] };
    }

abbrev pub terminal_snapshot : IntakeRecord → IntakeResult → IntakeJournalRecord
terminal_snapshot r res = normalize_terminal_journal_record (ended_snapshot r res)

abbrev pub terminal_record : IntakeRecord → IntakeResult → IntakeRecord
terminal_record r res =
    let snap = terminal_snapshot r res in
    record r {
      journal_version = snap.journal_version;
      stage = res.lifecycle;
      is_terminal = true;
      terminal_res = res;
      adm = record r.adm {
        payload = [];
        touched_partition_ids = snap.admission.touched_partition_ids;
      };
    }

abbrev pub reset_record : IntakeRecord → IntakeRecord
reset_record r = record r {
  stage = preparing;
  abort_reason = "";
  prepared = no_prepared;
  has_prepared = false;
  submit = no_submit;
  has_submit = false;
  submit_unknown = false;
  claim_unknown = false;
  terminal_res = blank_result "";
  is_terminal = false;
  require_prepared_lookup = false;
  prepare_known_unwritten = true;
}

module _ (c : Config) (a : Answers) where
  -- A setter that changes the record first and then saves it.
  abbrev pub set_and_save : World → IntakeRecord → Saved
  set_and_save w r = save_journal_snapshot c a (record w { rec = r }) (journal_record_from r)

  -- A setter that saves the changed record first, and changes it only when the journal took it.
  abbrev pub save_and_set : World → IntakeRecord → Saved
  save_and_set w r = publish r (save_journal_snapshot c a w (journal_record_from r))

  -- `cacheSubmit`
  unfoldable pub cache_submit : World → SubmitOutcome → Saved
  cache_submit w s = set_and_save w (record w.rec { submit = s; has_submit = true })

  -- `cachePrepared`
  unfoldable pub cache_prepared : World → PreparedLocalResult → Saved
  cache_prepared w p = set_and_save w (record w.rec {
    prepared = p;
    has_prepared = true;
    require_prepared_lookup = false;
    prepare_known_unwritten = false;
    stage =
        if ltb (rank_lifecycle w.rec.stage) (rank_lifecycle unsafe_written)
        then unsafe_written
        else w.rec.stage;
  })

  -- `setStage`
  unfoldable pub set_stage : World → Lifecycle → Saved
  set_stage w l = set_and_save w (record w.rec {
    stage = if ltb (rank_lifecycle w.rec.stage) (rank_lifecycle l) then l else w.rec.stage;
  })

  -- `setAbortPending`
  unfoldable pub set_abort_pending : World → String → Saved
  set_abort_pending w reason =
      set_and_save w (record w.rec { stage = abort_pending; abort_reason = reason })

  -- `setSubmitUnknown` and `setClaimUnknown` of intake_retry.go
  unfoldable pub set_submit_unknown : World → Bool → Saved
  set_submit_unknown w v = set_and_save w (record w.rec { submit_unknown = v })

  unfoldable pub set_claim_unknown : World → Bool → Saved
  set_claim_unknown w v = set_and_save w (record w.rec { claim_unknown = v })

  -- `setPrepareRejectAbortPending`
  unfoldable pub set_prepare_reject_abort_pending : World → String → Saved
  set_prepare_reject_abort_pending w reason = save_and_set w (record w.rec {
    stage = abort_pending;
    abort_reason = reason;
    prepare_known_unwritten = true;
  })

  -- `setKnownUnwrittenTerminalAbortPending`
  unfoldable pub set_known_unwritten_terminal_abort_pending : World → SubmitOutcome → String → Saved
  set_known_unwritten_terminal_abort_pending w s reason = save_and_set w (record w.rec {
    stage = abort_pending;
    abort_reason = reason;
    prepare_known_unwritten = true;
    submit = s;
    has_submit = true;
  })

  -- `resetAfterPrepareReject`
  unfoldable pub reset_after_prepare_reject : World → Saved
  reset_after_prepare_reject w = save_and_set w (reset_record w.rec)

  -- `clearPrepareKnownUnwritten`
  unfoldable pub clear_prepare_known_unwritten : World → Saved
  clear_prepare_known_unwritten w =
      save_and_set w (record w.rec { prepare_known_unwritten = false })

  -- `setTerminal`
  unfoldable pub set_terminal : World → IntakeResult → Saved
  set_terminal w res =
      publish (terminal_record w.rec res)
        (if c.has_journal then store_record a w (terminal_snapshot w.rec res) else (none, w))
