-- ===== src/Intake/Ack2/Saves.antt =====
-- Saves and cleanups of the intake, where only the outcome counts: none of them acknowledges.
use housegate.Base.{
  ℕ, suc, ◌≡◌, refl, true, false, not, Option, none, some, [], ◌∷◌, if_ind, Bool-cases, inl, inr,
  String, Option-cases,
}
use housegate.Durable.{Faults, File, candidates, write_durable, write_durable-candidates}
use housegate.Intake.Outcomes.{SubmitOutcome, abort_pending}
use housegate.Intake.Records.{IntakeRecord, IntakeJournalRecord, IntakeResult, journal_record_from}
use housegate.Intake.Consistency.{is_empty_list}
use housegate.Intake.World.{
  Config, Answers, World, IntakeError, Outcome, Saved, saved_or, save_intake_record, store_record,
  save_journal_snapshot, set_and_save, save_and_set, publish, terminal_snapshot, terminal_record,
  set_terminal, set_abort_pending, set_prepare_reject_abort_pending,
  set_known_unwritten_terminal_abort_pending, reset_after_prepare_reject, persist_failed,
}
use housegate.Intake.Aborts.{
  abort, abort_parts, clean, clean_or, finish_clean, finish_known, finish_reject, pending,
  abort_known_unwritten_terminal, abort_terminal_prepare_reject,
}
use housegate.Intake.Ack2.{AcksEarned}

-- A save that is reported as made is the only content of its file.
save_intake_record-stored :
    (f : Faults) (file : File IntakeJournalRecord) (j : IntakeJournalRecord)
    → (save_intake_record f file j).1 ≡ true
    → candidates (save_intake_record f file j).0 ≡ some j ∷ []
unfolding save_intake_record
save_intake_record-stored f file j h =
    elim (Option-cases (write_durable (record f { dir_closes = true }) file j).1) [
      | inl e ↦ write_durable-candidates (record f { dir_closes = true }) file j e
      | inr (x, e) ↦ cc (rw (e, save_intake_record) at h)
    ]

pub store_record-split {ℓ} :
    (P : Saved → Type ℓ) (a : Answers) (w : World) (j : IntakeJournalRecord)
    → ((file : File IntakeJournalRecord)
        → candidates file ≡ some j ∷ []
        → P (none, record w { journal = file; saved = suc w.saved }))
    → ((file : File IntakeJournalRecord)
        → P (some persist_failed, record w { journal = file; saved = suc w.saved }))
    → P (store_record a w j)
store_record-split P a w j stored failed =
    let r = save_intake_record (a.saves w.saved) w.journal j in
    elim (Bool-cases r.1) [
      | inl e ↦ rw e (stored r.0 (save_intake_record-stored (a.saves w.saved) w.journal j e))
      | inr e ↦ rw e (failed r.0)
    ]

-- Any save goes on with any file, or fails.
save_journal_snapshot-split {ℓ} :
    (P : Saved → Type ℓ) (c : Config) (a : Answers) (w : World) (snap : IntakeJournalRecord)
    → ((file : File IntakeJournalRecord) (n : ℕ) → P (none, record w { journal = file; saved = n }))
    → ((file : File IntakeJournalRecord)
        → P (some persist_failed, record w { journal = file; saved = suc w.saved }))
    → P (save_journal_snapshot c a w snap)
unfolding save_journal_snapshot
save_journal_snapshot-split P c a w snap goes_on fails =
    if_ind P c.has_journal
      (λ _. store_record-split P a w _ (λ file _. goes_on file (suc w.saved)) fails)
      (λ _. goes_on w.journal w.saved)

module _ (c : Config) (a : Answers) (w : World) (r : IntakeRecord) (res : IntakeResult)
    (k : World → Outcome) where
  pub set_and_save-acks :
      ((file : File IntakeJournalRecord) (n : ℕ)
        → AcksEarned (k (record w { rec = r; journal = file; saved = n })))
      → AcksEarned (saved_or (set_and_save c a w r) res k)
  set_and_save-acks next =
      save_journal_snapshot-split (λ s. AcksEarned (saved_or s res k)) c a (record w { rec = r })
        (journal_record_from r) next (λ file e. cc)

  pub save_and_set-acks :
      ((file : File IntakeJournalRecord) (n : ℕ)
        → AcksEarned (k (record w { rec = r; journal = file; saved = n })))
      → AcksEarned (saved_or (save_and_set c a w r) res k)
  save_and_set-acks next =
      save_journal_snapshot-split (λ s. AcksEarned (saved_or (publish r s) res k)) c a w
        (journal_record_from r) next (λ file e. cc)

-- An outcome that does not acknowledge.
pub quiet :
    (res : IntakeResult) (e : Option IntakeError) (w : World)
    → res.is_ack2 ≡ false
    → AcksEarned ((res, e), w)
quiet res e w q made ack = cc

module _ (c : Config) (a : Answers) where
  -- The end of a cleanup.
  set_terminal-quiet :
      (res : IntakeResult) (w : World)
      → res.is_ack2 ≡ false
      → AcksEarned (saved_or (set_terminal c a w res) res (λ w'. ((res, none), w')))
  unfolding set_terminal
  set_terminal-quiet res w q =
      let P : Saved → Type 0 = λ s.
        AcksEarned
          (saved_or (publish (terminal_record w.rec res) s) res (λ w'. ((res, none), w'))) in
      if_ind P c.has_journal
        (λ _.
          store_record-split P a w (terminal_snapshot w.rec res) (λ file _. quiet res none _ q)
            (λ file. quiet res _ _ q))
        (λ _. quiet res none _ q)

  clean_or-acks :
      (res : IntakeResult) (w : World) (k : World → Outcome)
      → AcksEarned (k (clean c a w))
      → AcksEarned (clean_or c a res w k)
  clean_or-acks res w k h = if_ind AcksEarned a.aborts (λ _. h) (λ _ e. cc)

  pub abort-acks :
      (res : IntakeResult) (w : World) (reason : String) → AcksEarned (abort c a res w reason)
  unfolding abort set_abort_pending
  abort-acks res w reason = set_and_save-acks c a w _ (pending res) _ λ file n.
      if_ind AcksEarned (not a.before_cleanup) (λ _ e. cc)
        λ _.
          clean_or-acks (pending res) _ (finish_clean c a (pending res))
            (if_ind AcksEarned (not a.after_cleanup) (λ _ e. cc) (λ _. set_terminal-quiet _ _ refl))

  pub abort_known_unwritten_terminal-acks :
      (res : IntakeResult) (w : World) (s : SubmitOutcome) (reason : String)
      → AcksEarned (abort_known_unwritten_terminal c a res w s reason)
  unfolding abort_known_unwritten_terminal set_known_unwritten_terminal_abort_pending
  abort_known_unwritten_terminal-acks res w s reason =
      let r = record w.rec {
        stage = abort_pending;
        abort_reason = reason;
        prepare_known_unwritten = true;
        submit = s;
        has_submit = true;
      } in
      save_and_set-acks c a w r (record (pending res) { submit = s }) _
        λ file n.
          if_ind AcksEarned (not (is_empty_list (abort_parts r))) (λ _ e. cc)
            λ _.
              clean_or-acks _ _ (finish_known c a (record (pending res) { submit = s }))
                (set_terminal-quiet _ _ refl)

  pub abort_terminal_prepare_reject-acks :
      (res : IntakeResult) (w : World) (reason : String)
      → AcksEarned (abort_terminal_prepare_reject c a res w reason)
  unfolding abort_terminal_prepare_reject set_prepare_reject_abort_pending
      reset_after_prepare_reject
  abort_terminal_prepare_reject-acks res w reason =
      let r = record w.rec {
        stage = abort_pending;
        abort_reason = reason;
        prepare_known_unwritten = true;
      } in
      save_and_set-acks c a w r (pending res) _ λ file n.
        if_ind AcksEarned (not (is_empty_list (abort_parts r))) (λ _ e. cc)
          λ _.
            clean_or-acks _ _ (finish_reject c a (pending res))
              (save_and_set-acks c a _ _ _ _ (λ file' n'. quiet _ none _ refl))
