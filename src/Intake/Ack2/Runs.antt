-- ===== src/Intake/Ack2/Runs.antt =====
-- Every acknowledgement of an attempt is earned.
use housegate.Base.{
  ◌≡◌, refl, true, false, not, ◌&&◌, ◌||◌, Option, none, some, ◌∷◌, if_ind, option_ind, Result,
  String, ltb,
}
use housegate.Intake.Outcomes.{
  Lifecycle, blank, preparing, unsafe_written, submit_accepted, rc_bound, ack2, abort_pending,
  cleaned, SubmitOutcome, permits_ack2, requires_abort, rank_lifecycle,
}
use housegate.Intake.Records.{IntakeResult, PreparedLocalResult}
use housegate.Intake.Consistency.{
  prepared_candidate_consistency_reject, prepared_consistency_reject,
}
use housegate.Intake.World.{
  Config, PrepareAnswer, made, rejected, failed, Answers, World, IntakeError, Outcome, Saved,
  saved_or, set_stage, set_submit_unknown, cache_submit, cache_prepared,
  clear_prepare_known_unwritten, submits,
}
use housegate.Intake.Aborts.{result_for}
use housegate.Intake.Claims.{register_and_finish}
use housegate.Intake.Run.{
  bare, answer_or, value_of, looked_up, lookup_prepared_before_prepare, queried_submit,
  converge_unknown_submit, other_statement, accepted_submit, after_submit, submitted, resubmitted,
  resubmit, after_reject, after_prepare, call_both, prepare_and_submit, found_or_prepare,
  run_unsubmitted, run_abort, run_stage, run,
}
use housegate.Intake.Ack2.{AcksEarned}
use housegate.Intake.Ack2.Saves.{
  set_and_save-acks, save_and_set-acks, abort-acks, abort_known_unwritten_terminal-acks,
  abort_terminal_prepare_reject-acks, quiet,
}
use housegate.Intake.Ack2.Claims.{register_and_finish-acks, converge_unknown_claim-acks}

value_of-acks {ℓ} :
    {A : Type ℓ} (x : A) (s : Saved) (res : IntakeResult) (k : A → World → Outcome)
    → AcksEarned (saved_or s res (k x))
    → AcksEarned (answer_or (value_of x s) res k)
value_of-acks x (some e, w) res k h = h
value_of-acks x (none, w) res k h = h

module _ (c : Config) (a : Answers) (journaled : c.has_journal ≡ true) where
  accepted_stage-acks :
      (p : PreparedLocalResult) (res : IntakeResult) (w : World)
      → w.rec.prepared ≡ p
      → AcksEarned (saved_or (set_stage c a w submit_accepted) res (register_and_finish c a p))
  unfolding set_stage
  accepted_stage-acks p res w same =
      set_and_save-acks c a w _ res _ (λ file n. register_and_finish-acks c a journaled p _ same)

  accepted_submit-acks :
      (p : PreparedLocalResult) (o : SubmitOutcome) (res : IntakeResult) (w : World)
      → w.rec.prepared ≡ p
      → AcksEarned (accepted_submit c a p o res w)
  unfolding cache_submit
  accepted_submit-acks p o res w same =
      if_ind AcksEarned (other_statement p w.rec.env.statement_id) (λ _. abort-acks c a res w _)
        λ _.
          option_ind AcksEarned (prepared_consistency_reject c.expected_source w.rec.env p)
            (λ _.
              let r = record w.rec { submit = o; has_submit = true } in
              set_and_save-acks c a w r res _ (λ file n.
                accepted_stage-acks p res (record w { rec = r; journal = file; saved = n }) same))
            (λ reason _. abort-acks c a res w reason)

  after_submit-acks :
      (p : PreparedLocalResult) (o : SubmitOutcome) (w : World)
      → w.rec.prepared ≡ p
      → AcksEarned (after_submit c a p o w)
  unfolding after_submit set_submit_unknown
  after_submit-acks p o w same =
      let res = record (result_for w.rec) { submit = o } in
      option_ind AcksEarned
        (prepared_candidate_consistency_reject w.rec.env p w.rec.adm.touched_partition_ids)
        (λ _.
          if_ind AcksEarned (requires_abort o.category) (λ _. abort-acks c a res w o.reason)
            λ _.
              if_ind AcksEarned (not (permits_ack2 o.category))
                (λ _. set_and_save-acks c a w _ res _ (λ file n. quiet res none _ refl))
                (λ _. accepted_submit-acks p o res w same))
        (λ reason _. quiet _ _ w refl)

  submitted-acks :
      (p : PreparedLocalResult) (res : IntakeResult) (o : Option SubmitOutcome) (w : World)
      → w.rec.prepared ≡ p
      → AcksEarned (submitted c a p res o w)
  submitted-acks p res none w same = λ e. cc
  submitted-acks p res (some o) w same = after_submit-acks p o w same

  resubmitted-acks :
      (p : PreparedLocalResult) (res : IntakeResult) (o : Option SubmitOutcome) (w : World)
      → w.rec.prepared ≡ p
      → AcksEarned (resubmitted c a p res o w)
  resubmitted-acks p res (some o) w same = after_submit-acks p o w same
  resubmitted-acks p res none w same =
      submitted-acks p res a.submit (record w { calls = submits ∷ w.calls }) same

  queried_submit-acks :
      (p : PreparedLocalResult) (res : IntakeResult) (o : Option SubmitOutcome) (w : World)
      → w.rec.prepared ≡ p
      → AcksEarned (answer_or (queried_submit c a o w) res (resubmitted c a p res))
  unfolding set_submit_unknown
  queried_submit-acks p res none w same = λ e. cc
  queried_submit-acks p res (some status) w same =
      value_of-acks _ (set_submit_unknown c a w false) res (resubmitted c a p res)
        (set_and_save-acks c a w _ res _ (λ file n. resubmitted-acks p res _ _ same))

  resubmit-acks :
      (p : PreparedLocalResult) (w : World) → w.rec.prepared ≡ p → AcksEarned (resubmit c a p w)
  unfolding converge_unknown_submit
  resubmit-acks p w same =
      let res = record (bare w) { prepared = p } in
      if_ind (λ x. AcksEarned (answer_or x res (resubmitted c a p res)))
        (not c.has_querier || not w.rec.submit_unknown) (λ _. resubmitted-acks p res none w same)
        (λ _. queried_submit-acks p res a.query_submit w same)

  after_reject-acks :
      (text : String) (o : Option SubmitOutcome) (w : World)
      → AcksEarned (after_reject c a text o w)
  after_reject-acks text none w = abort_terminal_prepare_reject-acks c a _ w text
  after_reject-acks text (some s) w =
      let res = record (result_for w.rec) { submit = s } in
      if_ind AcksEarned (requires_abort s.category)
        (λ _. abort_known_unwritten_terminal-acks c a res w s s.reason)
        (λ _. abort_terminal_prepare_reject-acks c a res w text)

  after_prepare-acks : (o : PrepareAnswer) (w : World) → AcksEarned (after_prepare c a o w)
  unfolding cache_prepared
  after_prepare-acks (made p) w =
      let res = record (bare w) { prepared = p; source_write_possible = true } in
      set_and_save-acks c a w _ res _ (λ file n. submitted-acks p res a.submit _ refl)
  after_prepare-acks (rejected text) w = after_reject-acks text a.submit w
  after_prepare-acks failed w = λ e. cc

  prepare_and_submit-acks : (w : World) → AcksEarned (prepare_and_submit c a w)
  unfolding prepare_and_submit clear_prepare_known_unwritten
  prepare_and_submit-acks w =
      if_ind AcksEarned w.rec.prepare_known_unwritten
        (λ _.
          save_and_set-acks c a w (record w.rec { prepare_known_unwritten = false }) (bare w) _
            (λ file n. after_prepare-acks a.prepare _))
        (λ _. after_prepare-acks a.prepare (call_both c a w))

  abbrev Resumed : World → Result IntakeError (Option PreparedLocalResult) × World → Type 0
  Resumed w x = AcksEarned (answer_or x (bare w) (found_or_prepare c a))

  looked_up-acks :
      (o : Option (Option PreparedLocalResult)) (w : World) → Resumed w (looked_up c a o w)
  unfolding cache_prepared
  looked_up-acks none w = λ e. cc
  looked_up-acks (some none) w = prepare_and_submit-acks _
  looked_up-acks (some (some p)) w =
      value_of-acks (some p) (cache_prepared c a w p) (bare w) (found_or_prepare c a)
        (set_and_save-acks c a w _ (bare w) _ (λ file n. resubmit-acks p _ refl))

  run_unsubmitted-acks : (w : World) → AcksEarned (run_unsubmitted c a w)
  unfolding run_unsubmitted lookup_prepared_before_prepare
  run_unsubmitted-acks w =
      if_ind AcksEarned w.rec.has_prepared (λ _. resubmit-acks w.rec.prepared w refl)
        λ _.
          if_ind (Resumed w) (not w.rec.require_prepared_lookup) (λ _. prepare_and_submit-acks w)
            λ _. if_ind (Resumed w) (not c.looks_up) (λ _ e. cc) (λ _. looked_up-acks a.lookup w)

  run_abort-acks : (w : World) → AcksEarned (run_abort c a w)
  unfolding run_abort
  run_abort-acks w =
      let res = result_for w.rec in
      if_ind AcksEarned (not w.rec.prepare_known_unwritten)
        (λ _. abort-acks c a res w w.rec.abort_reason)
        λ _.
          if_ind AcksEarned (requires_abort res.submit.category)
            (λ _. abort_known_unwritten_terminal-acks c a res w res.submit w.rec.abort_reason)
            (λ _. abort_terminal_prepare_reject-acks c a res w w.rec.abort_reason)

  run_stage-acks : (l : Lifecycle) (w : World) → AcksEarned (run_stage c a l w)
  run_stage-acks abort_pending w = run_abort-acks w
  run_stage-acks submit_accepted w = converge_unknown_claim-acks c a journaled w.rec.prepared w refl
  run_stage-acks blank w = run_unsubmitted-acks w
  run_stage-acks preparing w = run_unsubmitted-acks w
  run_stage-acks unsafe_written w = run_unsubmitted-acks w
  run_stage-acks rc_bound w = run_unsubmitted-acks w
  run_stage-acks ack2 w = run_unsubmitted-acks w
  run_stage-acks cleaned w = run_unsubmitted-acks w

  -- With a journal, an attempt that returns ACK2 without an error had the submission and the claim
  -- accepted, the claim bound to the named source of the cached write, and left a terminal record with
  -- this result as the only content that a crash can leave of the journal's file.
  pub ack2_is_earned : (w : World) → AcksEarned (run c a w)
  unfolding run
  ack2_is_earned w =
      if_ind AcksEarned
        (ltb (rank_lifecycle w.rec.stage) (rank_lifecycle submit_accepted)
          && c.has_lease_manager
          && not a.lease_ensured)
        (λ _ e. cc) (λ _. run_stage-acks w.rec.stage w)
