-- ===== src/Intake/Aborts.antt =====
-- The ways an attempt ends in cleanup: `abort`, `abortKnownUnwrittenTerminal` and
-- `abortTerminalPrepareReject` of pkg/storageintegrity/intake.go, with `abortParts` of intake_abort.go.
use housegate.Base.{true, false, not, ◌&&◌, ◌||◌, none, some, List, [], ◌∷◌, String, if◌then◌else◌}
use housegate.Intake.Outcomes.{SubmitOutcome, abort_pending, cleaned}
use housegate.Intake.Records.{CandidatePart, IntakeRecord, IntakeResult, blank_result}
use housegate.Intake.Consistency.{is_empty_list}
use housegate.Intake.World.{
  Config, Answers, World, cleans, hook_failed, abort_failed, unexpected_candidates, Outcome,
  saved_or, set_abort_pending, set_terminal, set_prepare_reject_abort_pending,
  set_known_unwritten_terminal_abort_pending, reset_after_prepare_reject,
}

-- `resultFor`
abbrev pub result_for : IntakeRecord → IntakeResult
result_for r = record (blank_result r.statement_id) {
  source_write_possible = r.has_prepared;
  prepared = if r.has_prepared then r.prepared else (blank_result "").prepared;
  lifecycle = if r.has_prepared then r.prepared.lifecycle else (blank_result "").lifecycle;
  submit = if r.has_submit then r.submit else (blank_result "").submit;
}

-- `abortParts`: the frozen candidates of the cached result, and nothing else.
unfoldable pub abort_parts : IntakeRecord → List CandidatePart
abort_parts r = if r.has_prepared then r.prepared.candidate_parts else []

abbrev pub pending : IntakeResult → IntakeResult
pending res = record res { is_ack2 = false; lifecycle = abort_pending }

module _ (c : Config) (a : Answers) where
  -- `AbortPreparedStatement`: the source drops the parts that it is handed.
  abbrev pub clean : World → World
  clean w = record w {
    calls = cleans (abort_parts w.rec) ∷ w.calls;
    written = w.written && (not a.aborts || a.abort_leaves);
  }

  -- After the source's cleanup: the inventory proof, then the terminal record. The lease that is given
  -- back last has no state here.
  abbrev pub finish_clean : IntakeResult → World → Outcome
  finish_clean res w =
      let done = record res { lifecycle = cleaned; terminal = true } in
      if not a.after_cleanup
      then ((record res { lifecycle = abort_pending; terminal = false }, some hook_failed), w)
      else saved_or (set_terminal c a w done) done (λ w'. ((done, none), w'))

  abbrev pub clean_or : IntakeResult → World → (World → Outcome) → Outcome
  clean_or res w k = if a.aborts then k (clean w) else ((res, some abort_failed), clean w)

  -- `abort`
  unfoldable pub abort : IntakeResult → World → String → Outcome
  abort res w reason = saved_or (set_abort_pending c a w reason) (pending res) λ w'.
      if not a.before_cleanup
      then ((pending res, some hook_failed), w')
      else clean_or (pending res) w' (finish_clean (pending res))

  -- The end of `abortKnownUnwrittenTerminal`.
  abbrev pub finish_known : IntakeResult → World → Outcome
  finish_known res w =
      let done = record res { lifecycle = cleaned; terminal = true } in
      saved_or (set_terminal c a w done) done (λ w'. ((done, none), w'))

  -- `abortKnownUnwrittenTerminal`
  unfoldable pub abort_known_unwritten_terminal :
      IntakeResult → World → SubmitOutcome → String → Outcome
  abort_known_unwritten_terminal res w s reason =
      let held = record (pending res) { submit = s } in
      saved_or (set_known_unwritten_terminal_abort_pending c a w s reason) held λ w'.
        if not (is_empty_list (abort_parts w'.rec))
        then ((held, some unexpected_candidates), w')
        else clean_or held w' (finish_known held)

  -- The end of `abortTerminalPrepareReject`: cleaned, and open to a retry.
  abbrev pub finish_reject : IntakeResult → World → Outcome
  finish_reject res w =
      let done = record res { lifecycle = cleaned; terminal = false } in
      saved_or (reset_after_prepare_reject c a w) done (λ w'. ((done, none), w'))

  -- `abortTerminalPrepareReject`
  unfoldable pub abort_terminal_prepare_reject : IntakeResult → World → String → Outcome
  abort_terminal_prepare_reject res w reason =
      let held = pending res in
      saved_or (set_prepare_reject_abort_pending c a w reason) held λ w'.
        if not (is_empty_list (abort_parts w'.rec))
        then ((held, some unexpected_candidates), w')
        else clean_or held w' (finish_reject held)
