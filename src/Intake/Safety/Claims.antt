-- ===== src/Intake/Safety/Claims.antt =====
-- The submission and the claim of a prepared statement keep the intake's safety.
use housegate.Base.{false, not, ◌||◌, Option, none, some, if_ind, option_ind, String}
use housegate.Intake.Outcomes.{
  SubmitOutcome, ClaimOutcome, permits_ack2, requires_abort, QueryConvergence, resend, forward,
  reject, classify_query_convergence, ack2_ready, rc_bound, submit_accepted,
}
use housegate.Intake.Records.{IntakeResult, PreparedLocalResult}
use housegate.Intake.Consistency.{
  prepared_candidate_consistency_reject, prepared_consistency_reject,
}
use housegate.Intake.World.{Config, Answers, World}
use housegate.Intake.Aborts.{result_for}
use housegate.Intake.Claims.{
  after_gate, gate_inputs, converge_by, other_source, finalize_claim, finish_registered,
  register_and_finish, converge_queried, converge_unknown_claim,
}
use housegate.Intake.Run.{other_statement, accepted_submit, after_submit, submitted}
use housegate.Intake.Safety.{Safely}
use housegate.Intake.Safety.Saving.{IsDurable}
use housegate.Intake.Safety.Ending.{abort-IsSafe, set_terminal-IsSafe}
use housegate.Intake.Safety.Prepared.{
  IsPrepared, called-IsPrepared, at_stage-IsSafe, claim_unknown-IsSafe, submit_unknown-IsSafe,
  cache_submit-IsSafe,
}

module _ (c : Config) (a : Answers) (d : IsDurable c a) where
  after_gate-IsSafe :
      (o : Option String) (res : IntakeResult) (w : World)
      → IsPrepared w
      → Safely (after_gate c a o res w)
  after_gate-IsSafe (some reason) res w s = s.live.safe
  after_gate-IsSafe none res w s = set_terminal-IsSafe c a d w s.live.safe _

  pub finalize_claim-IsSafe :
      (p : PreparedLocalResult) (claim : ClaimOutcome) (w : World)
      → IsPrepared w
      → Safely (finalize_claim c a p claim w)
  unfolding finalize_claim
  finalize_claim-IsSafe p claim w s =
      if_ind Safely (requires_abort claim.category)
        (λ _. abort-IsSafe c a d _ w _ s.live s.prepared)
        λ _.
          if_ind Safely (not (permits_ack2 claim.category))
            (λ _. claim_unknown-IsSafe c a d w s _ _ _ (λ w' s'. s'.live.safe))
            λ _.
              if_ind Safely (other_source p claim) (λ _. abort-IsSafe c a d _ w _ s.live s.prepared)
                λ _. at_stage-IsSafe c a d w s rc_bound _ _ (λ w' s'.
                  after_gate-IsSafe (ack2_ready (gate_inputs p claim (result_for w.rec).submit)) _
                    w' s')

  finish_registered-IsSafe :
      (p : PreparedLocalResult) (res : IntakeResult) (o : Option ClaimOutcome) (w : World)
      → IsPrepared w
      → Safely (finish_registered c a p res o w)
  finish_registered-IsSafe p res none w s = s.live.safe
  finish_registered-IsSafe p res (some claim) w s = finalize_claim-IsSafe p claim w s

  pub register_and_finish-IsSafe :
      (p : PreparedLocalResult) (w : World) → IsPrepared w → Safely (register_and_finish c a p w)
  unfolding register_and_finish
  register_and_finish-IsSafe p w s =
      if_ind Safely (not a.before_claim) (λ _. s.live.safe)
        (λ _. finish_registered-IsSafe p _ a.register _ (called-IsPrepared w _ s))

  converge_by-IsSafe :
      (q : QueryConvergence) (p : PreparedLocalResult) (status : ClaimOutcome) (w : World)
      → IsPrepared w
      → Safely (converge_by c a q p status w)
  converge_by-IsSafe resend p status w s =
      claim_unknown-IsSafe c a d w s false _ _ (register_and_finish-IsSafe p)
  converge_by-IsSafe forward p status w s =
      claim_unknown-IsSafe c a d w s false _ _ (finalize_claim-IsSafe p status)
  converge_by-IsSafe reject p status w s =
      claim_unknown-IsSafe c a d w s false _ _ (finalize_claim-IsSafe p status)

  converge_queried-IsSafe :
      (p : PreparedLocalResult) (o : Option ClaimOutcome) (w : World)
      → IsPrepared w
      → Safely (converge_queried c a p o w)
  converge_queried-IsSafe p none w s = s.live.safe
  converge_queried-IsSafe p (some status) w s =
      converge_by-IsSafe (classify_query_convergence status.category) p status w s

  pub converge_unknown_claim-IsSafe :
      (p : PreparedLocalResult) (w : World) → IsPrepared w → Safely (converge_unknown_claim c a p w)
  unfolding converge_unknown_claim
  converge_unknown_claim-IsSafe p w s =
      if_ind Safely (not c.has_querier || not w.rec.claim_unknown)
        (λ _. register_and_finish-IsSafe p w s) (λ _. converge_queried-IsSafe p a.query_claim w s)

  accepted_submit-IsSafe :
      (p : PreparedLocalResult) (o : SubmitOutcome) (res : IntakeResult) (w : World)
      → IsPrepared w
      → Safely (accepted_submit c a p o res w)
  accepted_submit-IsSafe p o res w s =
      if_ind Safely (other_statement p w.rec.env.statement_id)
        (λ _. abort-IsSafe c a d _ w _ s.live s.prepared)
        λ _.
          option_ind Safely (prepared_consistency_reject c.expected_source w.rec.env p)
            (λ _. cache_submit-IsSafe c a d w s o _ _ (λ w' s'.
              at_stage-IsSafe c a d w' s' submit_accepted _ _ (register_and_finish-IsSafe p)))
            (λ reason _. abort-IsSafe c a d _ w reason s.live s.prepared)

  pub after_submit-IsSafe :
      (p : PreparedLocalResult) (o : SubmitOutcome) (w : World)
      → IsPrepared w
      → Safely (after_submit c a p o w)
  unfolding after_submit
  after_submit-IsSafe p o w s =
      option_ind Safely
        (prepared_candidate_consistency_reject w.rec.env p w.rec.adm.touched_partition_ids)
        (λ _.
          if_ind Safely (requires_abort o.category)
            (λ _. abort-IsSafe c a d _ w _ s.live s.prepared)
            λ _.
              if_ind Safely (not (permits_ack2 o.category))
                (λ _. submit_unknown-IsSafe c a d w s _ _ _ (λ w' s'. s'.live.safe))
                (λ _. accepted_submit-IsSafe p o _ w s))
        (λ _ _. s.live.safe)

  pub submitted-IsSafe :
      (p : PreparedLocalResult) (res : IntakeResult) (o : Option SubmitOutcome) (w : World)
      → IsPrepared w
      → Safely (submitted c a p res o w)
  submitted-IsSafe p res none w s = s.live.safe
  submitted-IsSafe p res (some o) w s = after_submit-IsSafe p o w s
