-- ===== src/Intake/Ack2/Claims.antt =====
-- An acknowledgement comes from the gate (`Ack2Ready`), on a claim that is bound.
use housegate.Base.{
  ◌≡◌, ◌≢◌, refl, sym, ap, ◌∙◌, subst⁻¹, true, false, not, ◌||◌, Option, none, some, ◌∷◌, All,
  if_ind, String,
}
use housegate.Intake.Outcomes.{
  ClaimOutcome, ack2_ready, permits_ack2, requires_abort, rc_bound, QueryConvergence, resend,
  forward, reject, classify_query_convergence,
}
use housegate.Intake.Records.{IntakeRecord, IntakeJournalRecord, IntakeResult, PreparedLocalResult}
use housegate.Intake.Consistency.{normalize_terminal_journal_record, with_known_touched}
use housegate.Intake.World.{
  Config, Answers, World, Saved, saved_or, publish, terminal_snapshot, ended_snapshot,
  terminal_record, set_terminal, set_stage, set_claim_unknown, registers,
}
use housegate.Intake.Aborts.{result_for}
use housegate.Intake.Claims.{
  after_gate, gate_inputs, other_source, finalize_claim, finish_registered, register_and_finish,
  converge_by, converge_queried, converge_unknown_claim,
}
use housegate.Intake.Ack2.{SaysEnded, AcksEarned}
use housegate.Intake.Ack2.Gate.{IsOpen, ack2_ready-IsOpen}
use housegate.Intake.Ack2.Saves.{store_record-split, set_and_save-acks, abort-acks, quiet}

module _ (r : IntakeRecord) (res : IntakeResult) where
  abbrev Ended : IntakeJournalRecord → Type 0
  Ended j = (j.is_terminal ≡ true) × (j.terminal_result ≡ res)

  Ended-normalize :
      (j : IntakeJournalRecord) → Ended j → Ended (normalize_terminal_journal_record j)
  Ended-normalize j h =
      let touched : Ended (with_known_touched j) = if_ind Ended _ (λ _. h) (λ _. h) in
      if_ind Ended j.is_terminal (λ _. if_ind Ended _ (λ _. touched) (λ _. touched)) (λ _. h)

module _ (c : Config) (a : Answers) (journaled : c.has_journal ≡ true) where
  -- The terminal record is durable before the acknowledgement is returned.
  acknowledge-acks :
      (p : PreparedLocalResult) (claim : ClaimOutcome) (res : IntakeResult) (w : World)
      → w.rec.prepared ≡ p
      → res.claim ≡ claim
      → res.lifecycle ≡ rc_bound
      → IsOpen (gate_inputs p claim res.submit)
      → AcksEarned (after_gate c a none res w)
  unfolding set_terminal
  acknowledge-acks p claim res w same claims at_bound opens =
      let done = record res { is_ack2 = true; terminal = true } in
      let P : Saved → Type 0 = λ s.
        AcksEarned
          (saved_or (publish (terminal_record w.rec done) s) done (λ w'. ((done, none), w'))) in
      let snap = terminal_snapshot w.rec done in
      let ended : Ended w.rec done snap =
        Ended-normalize w.rec done (ended_snapshot w.rec done) (refl, refl) in
      if_ind P c.has_journal
        (λ _.
          store_record-split P a w snap
            (λ file h e ack. record {
              submitted = opens.submitted;
              claimed = subst⁻¹ (λ x. permits_ack2 x.category ≡ true) claims opens.claimed;
              bound =
                  ap (λ x. x.bound_source) claims
                  ∙ opens.same_source
                  ∙ ap (λ x. x.source_node) (sym same);
              named = subst⁻¹ (λ x. x.bound_source ≢ "") claims opens.named;
              at_bound = at_bound;
              ended = (refl, refl);
              journaled = subst⁻¹ (λ x. All (SaysEnded done) x) h (ended, tt);
            })
            (λ file e. cc))
        (λ off. cc)

  after_gate-acks :
      (o : Option String) (p : PreparedLocalResult) (claim : ClaimOutcome) (res : IntakeResult)
      (w : World)
      → ack2_ready (gate_inputs p claim res.submit) ≡ o
      → res.is_ack2 ≡ false
      → w.rec.prepared ≡ p
      → res.claim ≡ claim
      → res.lifecycle ≡ rc_bound
      → AcksEarned (after_gate c a o res w)
  after_gate-acks (some reason) p claim res w h q same claims at_bound = quiet _ none w q
  after_gate-acks none p claim res w h q same claims at_bound =
      acknowledge-acks p claim res w same claims at_bound
        (ack2_ready-IsOpen (gate_inputs p claim res.submit) h)

  pub finalize_claim-acks :
      (p : PreparedLocalResult) (claim : ClaimOutcome) (w : World)
      → w.rec.prepared ≡ p
      → AcksEarned (finalize_claim c a p claim w)
  unfolding finalize_claim set_stage set_claim_unknown
  finalize_claim-acks p claim w same =
      let res = record (result_for w.rec) { claim = claim } in
      let bound = record res { lifecycle = rc_bound } in
      if_ind AcksEarned (requires_abort claim.category) (λ _. abort-acks c a res w claim.reason)
        λ _.
          if_ind AcksEarned (not (permits_ack2 claim.category))
            (λ _. set_and_save-acks c a w _ res _ (λ file n. quiet res none _ refl))
            λ _.
              if_ind AcksEarned (other_source p claim)
                (λ _. abort-acks c a res w "RC source_node mismatch")
                λ _. set_and_save-acks c a w _ bound _ λ file n.
                  after_gate-acks (ack2_ready (gate_inputs p claim bound.submit)) p claim bound _
                    refl refl same refl refl

  finish_registered-acks :
      (p : PreparedLocalResult) (o : Option ClaimOutcome) (w : World)
      → w.rec.prepared ≡ p
      → AcksEarned (finish_registered c a p (result_for w.rec) o w)
  finish_registered-acks p none w same = quiet _ _ w refl
  finish_registered-acks p (some claim) w same = finalize_claim-acks p claim w same

  pub register_and_finish-acks :
      (p : PreparedLocalResult) (w : World)
      → w.rec.prepared ≡ p
      → AcksEarned (register_and_finish c a p w)
  unfolding register_and_finish
  register_and_finish-acks p w same =
      if_ind AcksEarned (not a.before_claim) (λ _. quiet _ _ w refl)
        (λ _. finish_registered-acks p a.register (record w { calls = registers ∷ w.calls }) same)

  converge_by-acks :
      (q : QueryConvergence) (p : PreparedLocalResult) (status : ClaimOutcome) (w : World)
      → w.rec.prepared ≡ p
      → AcksEarned (converge_by c a q p status w)
  unfolding set_claim_unknown
  converge_by-acks resend p status w same =
      set_and_save-acks c a w _ _ _ (λ file n. register_and_finish-acks p _ same)
  converge_by-acks forward p status w same =
      set_and_save-acks c a w _ _ _ (λ file n. finalize_claim-acks p status _ same)
  converge_by-acks reject p status w same =
      set_and_save-acks c a w _ _ _ (λ file n. finalize_claim-acks p status _ same)

  converge_queried-acks :
      (p : PreparedLocalResult) (o : Option ClaimOutcome) (w : World)
      → w.rec.prepared ≡ p
      → AcksEarned (converge_queried c a p o w)
  converge_queried-acks p none w same = quiet _ _ w refl
  converge_queried-acks p (some status) w same =
      converge_by-acks (classify_query_convergence status.category) p status w same

  pub converge_unknown_claim-acks :
      (p : PreparedLocalResult) (w : World)
      → w.rec.prepared ≡ p
      → AcksEarned (converge_unknown_claim c a p w)
  unfolding converge_unknown_claim
  converge_unknown_claim-acks p w same =
      if_ind AcksEarned (not c.has_querier || not w.rec.claim_unknown)
        (λ _. register_and_finish-acks p w same) (λ _. converge_queried-acks p a.query_claim w same)
