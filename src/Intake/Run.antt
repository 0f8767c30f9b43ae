-- ===== src/Intake/Run.antt =====
-- One attempt: `run`, `prepareAndSubmit`, `afterSubmit` and `lookupPreparedBeforePrepare` of
-- pkg/storageintegrity/intake.go, and `convergeUnknownSubmit` of intake_retry.go. The two calls that
-- `prepareAndSubmit` makes side by side are both answered before either answer is read.
use housegate.Base.{
  Bool, true, false, not, ◌&&◌, ◌||◌, Option, none, some, ◌∷◌, String, str_eq, Result, ok, err, ltb,
  if◌then◌else◌,
}
use housegate.Intake.Outcomes.{
  SubmitOutcome, no_submit, permits_ack2, requires_abort, is_unknown, Lifecycle, blank, preparing,
  unsafe_written, submit_accepted, rc_bound, ack2, abort_pending, cleaned, rank_lifecycle, resend,
  forward, reject, classify_query_convergence,
}
use housegate.Intake.Records.{PreparedLocalResult, IntakeResult, blank_result}
use housegate.Intake.Consistency.{
  prepared_candidate_consistency_reject, prepared_consistency_reject,
}
use housegate.Intake.World.{
  Config, PrepareAnswer, made, rejected, failed, Answers, World, prepares, submits, IntakeError,
  lease_failed, lookup_required, lookup_failed, query_failed, prepare_failed, submit_failed,
  inconsistent, Outcome, Saved, saved_or, cache_submit, cache_prepared, set_stage,
  set_submit_unknown, clear_prepare_known_unwritten,
}
use housegate.Intake.Aborts.{
  result_for, abort, abort_known_unwritten_terminal, abort_terminal_prepare_reject,
}
use housegate.Intake.Claims.{register_and_finish, converge_unknown_claim}

-- `IntakeResult{StatementID: env.StatementID}`
abbrev pub bare : World → IntakeResult
bare w = blank_result w.rec.env.statement_id

abbrev pub answer_or {ℓ} :
    {A : Type ℓ} → Result IntakeError A × World → IntakeResult → (A → World → Outcome) → Outcome
answer_or (err e, w) res k = ((res, some e), w)
answer_or (ok x, w) res k = k x w

-- A value beside a save.
abbrev pub value_of {ℓ} : {A : Type ℓ} → A → Saved → Result IntakeError A × World
value_of x (some e, w) = (err e, w)
value_of x (none, w) = (ok x, w)

-- A prepared result that answers for another statement.
abbrev pub other_statement : PreparedLocalResult → String → Bool
other_statement p id = str_eq p.statement_id "" || not (str_eq p.statement_id id)

module _ (c : Config) (a : Answers) where
  -- What the source's lookup says, cached where there is something.
  abbrev pub looked_up :
      Option (Option PreparedLocalResult)
      → World
      → Result IntakeError (Option PreparedLocalResult) × World
  looked_up none w = (err lookup_failed, w)
  looked_up (some none) w =
      (ok none, record w { rec = record w.rec { require_prepared_lookup = false } })
  looked_up (some (some p)) w = value_of (some p) (cache_prepared c a w p)

  -- `lookupPreparedBeforePrepare`
  unfoldable pub lookup_prepared_before_prepare :
      World → Result IntakeError (Option PreparedLocalResult) × World
  lookup_prepared_before_prepare w =
      if not w.rec.require_prepared_lookup
      then (ok none, w)
      else if not c.looks_up
      then (err lookup_required, w)
      else looked_up a.lookup w

  -- `convergeUnknownSubmit`
  abbrev pub queried_submit :
      Option SubmitOutcome → World → Result IntakeError (Option SubmitOutcome) × World
  queried_submit none w = (err query_failed, w)
  queried_submit (some status) w =
      value_of
        (elim (classify_query_convergence status.category) [
          | resend ↦ none
          | forward ↦ some status
          | reject ↦ some status
        ])
        (set_submit_unknown c a w false)

  unfoldable pub converge_unknown_submit : World → Result IntakeError (Option SubmitOutcome) × World
  converge_unknown_submit w =
      if not c.has_querier || not w.rec.submit_unknown
      then (ok none, w)
      else queried_submit a.query_submit w

  -- `afterSubmit` on an accepted submission, up to the claim.
  abbrev pub accepted_submit : PreparedLocalResult → SubmitOutcome → IntakeResult → World → Outcome
  accepted_submit p s res w =
      if other_statement p w.rec.env.statement_id
      then abort c a res w "prepared statement id mismatch"
      else elim (prepared_consistency_reject c.expected_source w.rec.env p) [
        | some reason ↦ abort c a res w reason
        | none ↦
            saved_or (cache_submit c a w s) res
              λ w'. saved_or (set_stage c a w' submit_accepted) res (register_and_finish c a p)
      ]

  -- `afterSubmit`, and the claim where it is not done.
  unfoldable pub after_submit : PreparedLocalResult → SubmitOutcome → World → Outcome
  after_submit p s w =
      let res = record (result_for w.rec) { submit = s } in
      elim (prepared_candidate_consistency_reject w.rec.env p w.rec.adm.touched_partition_ids) [
        | some reason ↦ ((record res { reason = reason }, some (inconsistent reason)), w)
        | none ↦
            if requires_abort s.category
            then abort c a res w s.reason
            else if not (permits_ack2 s.category)
            then saved_or (set_submit_unknown c a w (is_unknown s.category)) res
                (λ w'. ((res, none), w'))
            else accepted_submit p s res w
      ]

  -- `SubmitStatement` and what follows it; `res` is returned with its error.
  abbrev pub submitted : PreparedLocalResult → IntakeResult → Option SubmitOutcome → World → Outcome
  submitted p res none w = ((res, some submit_failed), w)
  submitted p res (some s) w = after_submit p s w

  -- A definite answer stands for the submission; without one it is made again.
  abbrev pub resubmitted :
      PreparedLocalResult → IntakeResult → Option SubmitOutcome → World → Outcome
  resubmitted p res (some s) w = after_submit p s w
  resubmitted p res none w = submitted p res a.submit (record w { calls = submits ∷ w.calls })

  -- The branch of `run` with a cached result.
  abbrev pub resubmit : PreparedLocalResult → World → Outcome
  resubmit p w =
      let res = record (bare w) { prepared = p } in
      answer_or (converge_unknown_submit w) res (resubmitted p res)

  -- A source that rejects before it writes, beside what the submission said.
  abbrev pub after_reject : String → Option SubmitOutcome → World → Outcome
  after_reject text none w = abort_terminal_prepare_reject c a (result_for w.rec) w text
  after_reject text (some s) w =
      let res = record (result_for w.rec) { submit = s } in
      if requires_abort s.category
      then abort_known_unwritten_terminal c a res w s s.reason
      else abort_terminal_prepare_reject c a res w text

  abbrev pub submit_or_zero : Option SubmitOutcome → SubmitOutcome
  submit_or_zero none = no_submit
  submit_or_zero (some s) = s

  abbrev pub after_prepare : PrepareAnswer → World → Outcome
  after_prepare (made p) w =
      let res = record (bare w) { prepared = p; source_write_possible = true } in
      saved_or (cache_prepared c a w p) res (submitted p res a.submit)
  after_prepare (rejected text) w = after_reject text a.submit w
  after_prepare failed w = (
    (
      record (bare w) { submit = submit_or_zero a.submit; source_write_possible = true },
      some prepare_failed,
    ),
    record w { rec = record w.rec { require_prepared_lookup = true } },
  )

  -- `PrepareLocalStatement` and `SubmitStatement` are called.
  abbrev pub call_both : World → World
  call_both w = record w {
    calls = submits ∷ prepares ∷ w.calls;
    written = w.written || a.prepare_writes;
    doubled = w.doubled || (w.written && a.prepare_writes);
  }

  -- The branch of `run` without a cached result.
  unfoldable pub prepare_and_submit : World → Outcome
  prepare_and_submit w =
      if w.rec.prepare_known_unwritten
      then saved_or (clear_prepare_known_unwritten c a w) (bare w)
          (λ w'. after_prepare a.prepare (call_both w'))
      else after_prepare a.prepare (call_both w)

  abbrev pub found_or_prepare : Option PreparedLocalResult → World → Outcome
  found_or_prepare (some p) w = resubmit p w
  found_or_prepare none w = prepare_and_submit w

  -- The stages before an accepted submission, and any other.
  unfoldable pub run_unsubmitted : World → Outcome
  run_unsubmitted w =
      if w.rec.has_prepared
      then resubmit w.rec.prepared w
      else answer_or (lookup_prepared_before_prepare w) (bare w) found_or_prepare

  -- A pending abort, by what is known of the source.
  unfoldable pub run_abort : World → Outcome
  run_abort w =
      let res = result_for w.rec in
      if not w.rec.prepare_known_unwritten
      then abort c a res w w.rec.abort_reason
      else if requires_abort res.submit.category
      then abort_known_unwritten_terminal c a res w res.submit w.rec.abort_reason
      else abort_terminal_prepare_reject c a res w w.rec.abort_reason

  abbrev pub run_stage : Lifecycle → World → Outcome
  run_stage abort_pending w = run_abort w
  run_stage submit_accepted w = converge_unknown_claim c a w.rec.prepared w
  run_stage blank w = run_unsubmitted w
  run_stage preparing w = run_unsubmitted w
  run_stage unsafe_written w = run_unsubmitted w
  run_stage rc_bound w = run_unsubmitted w
  run_stage ack2 w = run_unsubmitted w
  run_stage cleaned w = run_unsubmitted w

  -- `run`
  unfoldable pub run : World → Outcome
  run w =
      if ltb (rank_lifecycle w.rec.stage) (rank_lifecycle submit_accepted)
        && c.has_lease_manager
        && not a.lease_ensured
      then ((bare w, some lease_failed), w)
      else run_stage w.rec.stage w
