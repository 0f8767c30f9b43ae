-- ===== src/Intake/Safety/Rejects.antt =====
-- The cleanups of a source that is known to be unwritten keep the intake's safety.
use housegate.Base.{◌≡◌, refl, true, false, not, ◌&&◌, ◌||◌, if_ind, arith, String}
use housegate.Intake.Outcomes.{SubmitOutcome, abort_pending}
use housegate.Intake.Records.{IntakeRecord, IntakeResult, is_unprepared_stage}
use housegate.Intake.Consistency.{is_empty_list}
use housegate.Intake.World.{
  Config, Answers, World, set_prepare_reject_abort_pending,
  set_known_unwritten_terminal_abort_pending, reset_after_prepare_reject, reset_record,
}
use housegate.Intake.Aborts.{
  abort_parts, finish_known, finish_reject, pending, abort_known_unwritten_terminal,
  abort_terminal_prepare_reject,
}
use housegate.Intake.Safety.{RecordOk, IsSafe, IsLive, is_abort_pending, Safely}
use housegate.Intake.Safety.Saving.{IsDurable, save_and_set-IsSafe}
use housegate.Intake.Safety.Ending.{set_terminal-IsSafe, clean_or-IsSafe}

module _ (c : Config) (a : Answers) (d : IsDurable c a) (w : World) (live : IsLive w)
    (unwritten : w.written ≡ false) (resolved : w.rec.require_prepared_lookup ≡ false) where
  unwritten-RecordOk :
      (r : IntakeRecord)
      → r.require_prepared_lookup ≡ false
      → (r.has_prepared
          || r.is_terminal
          || is_unprepared_stage r.stage
          || (is_abort_pending r.stage && r.prepare_known_unwritten))
        ≡ true
      → RecordOk w.written r
  unwritten-RecordOk r e staged = record {
    covered = λ h. cc;
    trusted = λ _. unwritten;
    fenced = λ h. cc;
    staged = staged;
  }

  pub abort_known_unwritten_terminal-IsSafe :
      (res : IntakeResult) (s : SubmitOutcome) (reason : String)
      → IsSafe (abort_known_unwritten_terminal c a res w s reason).1
  unfolding abort_known_unwritten_terminal set_known_unwritten_terminal_abort_pending
  abort_known_unwritten_terminal-IsSafe res s reason =
      let held = record (pending res) { submit = s } in
      let r = record w.rec {
        stage = abort_pending;
        abort_reason = reason;
        prepare_known_unwritten = true;
        submit = s;
        has_submit = true;
      } in
      let ok = unwritten-RecordOk r resolved (ground arith) in
      save_and_set-IsSafe c a d w r live.is_open live.safe.undoubled ok held _ live λ file live'.
        if_ind Safely (not (is_empty_list (abort_parts r))) (λ _. live'.safe)
          λ _.
            clean_or-IsSafe c a d held _ (finish_known c a held) live'
              (λ live''. set_terminal-IsSafe c a d _ live''.safe _)

  -- After the reset a retry prepares again.
  reset-RecordOk :
      (r : IntakeRecord) → RecordOk (w.written && (not a.aborts || a.abort_leaves)) (reset_record r)
  reset-RecordOk r = record {
    covered = λ h. ground (arith, unwritten);
    trusted = λ _. ground (arith, unwritten);
    fenced = λ h. cc;
    staged = refl;
  }

  pub abort_terminal_prepare_reject-IsSafe :
      (res : IntakeResult) (reason : String)
      → IsSafe (abort_terminal_prepare_reject c a res w reason).1
  unfolding abort_terminal_prepare_reject set_prepare_reject_abort_pending
      reset_after_prepare_reject
  abort_terminal_prepare_reject-IsSafe res reason =
      let held = pending res in
      let r = record w.rec {
        stage = abort_pending;
        abort_reason = reason;
        prepare_known_unwritten = true;
      } in
      let ok = unwritten-RecordOk r resolved (ground arith) in
      save_and_set-IsSafe c a d w r live.is_open live.safe.undoubled ok held _ live λ file live'.
        if_ind Safely (not (is_empty_list (abort_parts r))) (λ _. live'.safe)
          λ _. clean_or-IsSafe c a d held _ (finish_reject c a held) live' λ live''.
            save_and_set-IsSafe c a d _ (reset_record r) refl live.safe.undoubled (reset-RecordOk r)
              _ _ live'' (λ file' last. last.safe)
