-- ===== src/Intake/Claims.antt =====
-- The result claim: `finalizeClaim` and `registerAndFinish` of pkg/storageintegrity/intake.go and
-- `convergeUnknownClaim` of intake_retry.go.
use housegate.Base.{
  Bool, true, false, not, ◌||◌, Option, none, some, ◌∷◌, String, str_eq, if◌then◌else◌,
}
use housegate.Intake.Outcomes.{
  SubmitOutcome, ClaimOutcome, Ack2Inputs, permits_ack2, requires_abort, is_unknown, rc_bound,
  QueryConvergence, resend, forward, reject, classify_query_convergence, ack2_ready,
}
use housegate.Intake.Records.{PreparedLocalResult, IntakeResult, blank_result}
use housegate.Intake.World.{
  Config, Answers, World, registers, hook_failed, register_failed, query_failed, Outcome, saved_or,
  set_stage, set_claim_unknown, set_terminal,
}
use housegate.Intake.Aborts.{result_for, abort}

-- An accepted claim that is bound to no source, or not to the one that prepared.
abbrev pub other_source : PreparedLocalResult → ClaimOutcome → Bool
other_source p claim =
    str_eq p.source_node ""
    || str_eq claim.bound_source ""
    || not (str_eq claim.bound_source p.source_node)

abbrev pub gate_inputs : PreparedLocalResult → ClaimOutcome → SubmitOutcome → Ack2Inputs
gate_inputs p claim s = record {
  payload_durable = true;
  unsafe_write_done = true;
  submit = s;
  claim = claim;
  journal_lifecycle = rc_bound;
  prepared_source = p.source_node;
}

module _ (c : Config) (a : Answers) where
  -- What follows the gate: the first unmet condition, or ACK2.
  abbrev pub after_gate : Option String → IntakeResult → World → Outcome
  after_gate (some reason) res w = ((record res { reason = reason }, none), w)
  after_gate none res w =
      let done = record res { is_ack2 = true; terminal = true } in
      saved_or (set_terminal c a w done) done (λ w'. ((done, none), w'))

  -- The gate, on a result that is `RCBound`.
  abbrev pub consult_gate : PreparedLocalResult → ClaimOutcome → IntakeResult → World → Outcome
  consult_gate p claim res w = after_gate (ack2_ready (gate_inputs p claim res.submit)) res w

  -- `finalizeClaim`
  unfoldable pub finalize_claim : PreparedLocalResult → ClaimOutcome → World → Outcome
  finalize_claim p claim w =
      let res = record (result_for w.rec) { claim = claim } in
      let bound = record res { lifecycle = rc_bound } in
      if requires_abort claim.category
      then abort c a res w claim.reason
      else if not (permits_ack2 claim.category)
      then saved_or (set_claim_unknown c a w (is_unknown claim.category)) res
          (λ w'. ((res, none), w'))
      else if other_source p claim
      then abort c a res w "RC source_node mismatch"
      else saved_or (set_stage c a w rc_bound) bound (consult_gate p claim bound)

  abbrev pub finish_registered :
      PreparedLocalResult → IntakeResult → Option ClaimOutcome → World → Outcome
  finish_registered p res none w = ((res, some register_failed), w)
  finish_registered p res (some claim) w = finalize_claim p claim w

  -- `registerAndFinish`
  unfoldable pub register_and_finish : PreparedLocalResult → World → Outcome
  register_and_finish p w =
      if not a.before_claim
      then ((result_for w.rec, some hook_failed), w)
      else finish_registered p (result_for w.rec) a.register
          (record w { calls = registers ∷ w.calls })

  -- `convergeUnknownClaim`, and `registerAndFinish` where it is not done.
  abbrev pub converge_by : QueryConvergence → PreparedLocalResult → ClaimOutcome → World → Outcome
  converge_by resend p status w =
      saved_or (set_claim_unknown c a w false) (blank_result "") (register_and_finish p)
  converge_by forward p status w =
      saved_or (set_claim_unknown c a w false) (result_for w.rec) (finalize_claim p status)
  converge_by reject p status w =
      saved_or (set_claim_unknown c a w false) (result_for w.rec) (finalize_claim p status)

  abbrev pub converge_queried : PreparedLocalResult → Option ClaimOutcome → World → Outcome
  converge_queried p none w = ((result_for w.rec, some query_failed), w)
  converge_queried p (some status) w =
      converge_by (classify_query_convergence status.category) p status w

  unfoldable pub converge_unknown_claim : PreparedLocalResult → World → Outcome
  converge_unknown_claim p w =
      if not c.has_querier || not w.rec.claim_unknown
      then register_and_finish p w
      else converge_queried p a.query_claim w
