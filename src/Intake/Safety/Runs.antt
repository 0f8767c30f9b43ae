-- ===== src/Intake/Safety/Runs.antt =====
-- A whole attempt keeps the intake's safety, where the source answers as its interface documents.
use housegate.Base.{
  Bool, ◌≡◌, refl, true, false, not, ◌&&◌, ◌||◌, Option, none, some, if_ind, ap, Bool-cases, inl,
  inr, All, subst, arith, String, Result,
}
use housegate.Durable.{candidates}
use housegate.Intake.Outcomes.{
  Lifecycle, blank, preparing, unsafe_written, ack2, abort_pending, cleaned, requires_abort,
  rc_bound, submit_accepted,
}
use housegate.Intake.Records.{PreparedLocalResult, is_unprepared_stage}
use housegate.Intake.World.{
  Config, Answers, World, rejected, cache_prepared, clear_prepare_known_unwritten, IntakeError,
}
use housegate.Intake.Aborts.{result_for}
use housegate.Intake.Run.{
  answer_or, bare, prepare_and_submit, looked_up, lookup_prepared_before_prepare, found_or_prepare,
  run_unsubmitted, run_abort, run_stage, run,
}
use housegate.Intake.Safety.{RecordOk, FileOk, IsSafe, IsLive, Safely, is_abort_pending}
use housegate.Intake.Safety.Saving.{IsDurable, set_and_save-IsSafe, save_and_set-IsSafe}
use housegate.Intake.Safety.Rejects.{
  abort_known_unwritten_terminal-IsSafe, abort_terminal_prepare_reject-IsSafe,
}
use housegate.Intake.Safety.Ending.{abort-IsSafe}
use housegate.Intake.Safety.Claims.{converge_unknown_claim-IsSafe}
use housegate.Intake.Safety.Attempts.{value_of-Safely, resubmit-IsSafe, after_prepare-IsSafe}

-- What the ports document: a lookup that finds nothing proves that there is no unsafe write, and a
-- terminal reject of a prepare happens before one.
pub record Documented (c : Config) (a : Answers) (written : Bool) : Type 0 where
  pub durable : IsDurable c a
  pub lookup_is_exact : a.lookup ≡ some none → written ≡ false
  pub reject_is_early : (text : String) → a.prepare ≡ rejected text → a.prepare_writes ≡ false

module _ (c : Config) (a : Answers) (d : IsDurable c a) where
  -- The record of a source that is not trusted any more, at a stage before the submission.
  cleared-RecordOk :
      (w : World)
      → IsSafe w
      → w.written ≡ false
      → w.rec.require_prepared_lookup ≡ false
      → is_abort_pending w.rec.stage ≡ false
      → RecordOk w.written (record w.rec { prepare_known_unwritten = false })
  cleared-RecordOk w s e l n = record {
    covered = λ h. cc;
    trusted = λ h. cc;
    fenced = λ h. refl;
    staged = ground (arith, s.memory.staged, n);
  }

  prepare_and_submit-IsSafe :
      (w : World)
      → IsLive w
      → w.written ≡ false
      → w.rec.has_prepared ≡ false
      → w.rec.require_prepared_lookup ≡ false
      → is_abort_pending w.rec.stage ≡ false
      → ((text : String) → a.prepare ≡ rejected text → a.prepare_writes ≡ false)
      → Safely (prepare_and_submit c a w)
  unfolding prepare_and_submit clear_prepare_known_unwritten
  prepare_and_submit-IsSafe w live e p l n early =
      if_ind Safely w.rec.prepare_known_unwritten
        (λ _.
          save_and_set-IsSafe c a d w _ live.is_open live.safe.undoubled
            (cleared-RecordOk w live.safe e l n) _ _ live
            (λ file live'.
              after_prepare-IsSafe c a d _
                (record { live = live'; unwritten = e; uncached = p; resolved = l; closed = refl })
                a.prepare early))
        (λ closed.
          after_prepare-IsSafe c a d w
            (record { live = live; unwritten = e; uncached = p; resolved = l; closed = closed })
            a.prepare early)

  module _ (w : World) (live : IsLive w) (uncached : w.rec.has_prepared ≡ false)
      (n : is_abort_pending w.rec.stage ≡ false)
      (early : (text : String) → a.prepare ≡ rejected text → a.prepare_writes ≡ false) where
    abbrev Resumed : Result IntakeError (Option PreparedLocalResult) × World → Type 0
    Resumed x = Safely (answer_or x (bare w) (found_or_prepare c a))

    -- Without a cached result, a pending lookup or an end there is no write.
    unlooked-unwritten : w.rec.require_prepared_lookup ≡ false → w.written ≡ false
    unlooked-unwritten l = elim (Bool-cases w.written) [
      | inl e ↦ ground (arith, live.safe.memory.covered e, l, uncached, live.is_open)
      | inr e ↦ e
    ]

    looked_up-IsSafe :
        (o : Option (Option PreparedLocalResult))
        → w.rec.require_prepared_lookup ≡ true
        → (o ≡ some none → w.written ≡ false)
        → Resumed (looked_up c a o w)
    unfolding cache_prepared
    looked_up-IsSafe none l exact = live.safe
    looked_up-IsSafe (some none) l exact =
        let e = exact refl in
        prepare_and_submit-IsSafe _
          (record {
            safe = record {
              undoubled = live.safe.undoubled;
              memory = record {
                covered = λ h. cc;
                trusted = live.safe.memory.trusted;
                fenced = λ h. cc;
                staged = live.safe.memory.staged;
              };
              files = live.safe.files;
            };
            is_open = live.is_open;
          })
          e uncached refl n early
    looked_up-IsSafe (some (some p)) l exact =
        let closed = live.safe.memory.fenced l in
        value_of-Safely (some p) (cache_prepared c a w p) (bare w) (found_or_prepare c a) (
          set_and_save-IsSafe c a d w _ live.is_open live.safe.undoubled
            (record { covered = λ _. refl; trusted = λ e. cc; fenced = λ e. refl; staged = refl }) _
            _ (subst (λ b. All (FileOk w.written b) (candidates w.journal)) closed live.safe.files)
            (λ file live'. resubmit-IsSafe c a d p _ (record { live = live'; prepared = refl })))

    found-IsSafe :
        (a.lookup ≡ some none → w.written ≡ false) → Resumed (lookup_prepared_before_prepare c a w)
    unfolding lookup_prepared_before_prepare
    found-IsSafe exact =
        if_ind Resumed (not w.rec.require_prepared_lookup)
          (λ l.
            let l' : w.rec.require_prepared_lookup ≡ false = ground (arith, l) in
            prepare_and_submit-IsSafe w live (unlooked-unwritten l') uncached l' n early)
          λ l.
            if_ind Resumed (not c.looks_up) (λ _. live.safe)
              (λ _. looked_up-IsSafe a.lookup (ground (arith, l)) exact)

module _ (c : Config) (a : Answers) (w : World) (live : IsLive w)
    (doc : Documented c a w.written) where
  run_unsubmitted-IsSafe : is_abort_pending w.rec.stage ≡ false → Safely (run_unsubmitted c a w)
  unfolding run_unsubmitted
  run_unsubmitted-IsSafe n =
      if_ind Safely w.rec.has_prepared
        (λ e.
          resubmit-IsSafe c a doc.durable w.rec.prepared w (record { live = live; prepared = e }))
        (λ e. found-IsSafe c a doc.durable w live e n doc.reject_is_early doc.lookup_is_exact)

  staged-at :
      (l : Lifecycle)
      → w.rec.stage ≡ l
      → (w.rec.has_prepared
          || w.rec.is_terminal
          || is_unprepared_stage l
          || (is_abort_pending l && w.rec.prepare_known_unwritten))
        ≡ true
  staged-at l e =
      subst
        (λ x.
          (w.rec.has_prepared
            || w.rec.is_terminal
            || is_unprepared_stage x
            || (is_abort_pending x && w.rec.prepare_known_unwritten))
          ≡ true)
        e live.safe.memory.staged

  pending_prepared :
      w.rec.stage ≡ abort_pending
      → w.rec.prepare_known_unwritten ≡ false
      → w.rec.has_prepared ≡ true
  pending_prepared e u = ground (arith, staged-at abort_pending e, u, live.is_open)

  accepted_prepared : w.rec.stage ≡ submit_accepted → w.rec.has_prepared ≡ true
  accepted_prepared e = ground (arith, staged-at submit_accepted e, live.is_open)

  known-resolved : w.rec.prepare_known_unwritten ≡ true → w.rec.require_prepared_lookup ≡ false
  known-resolved known = elim (Bool-cases w.rec.require_prepared_lookup) [
    | inl e ↦ let no = live.safe.memory.fenced e in cc
    | inr e ↦ e
  ]

  -- A pending abort has a cached result, or is of a source that is known to be unwritten.
  run_abort-IsSafe : w.rec.stage ≡ abort_pending → Safely (run_abort c a w)
  unfolding run_abort
  run_abort-IsSafe e =
      let h = live.safe.memory in
      if_ind Safely (not w.rec.prepare_known_unwritten)
        (λ u. abort-IsSafe c a doc.durable _ w _ live (pending_prepared e (ground (arith, u))))
        λ u.
          (let known : w.rec.prepare_known_unwritten ≡ true = ground (arith, u) in
            let resolved : w.rec.require_prepared_lookup ≡ false = known-resolved known in
            if_ind Safely (requires_abort (result_for w.rec).submit.category)
              (λ _.
                abort_known_unwritten_terminal-IsSafe c a doc.durable w live (h.trusted known)
                  resolved _ _ _)
              (λ _.
                abort_terminal_prepare_reject-IsSafe c a doc.durable w live (h.trusted known)
                  resolved _ _))

  run_stage-IsSafe : (l : Lifecycle) → w.rec.stage ≡ l → Safely (run_stage c a l w)
  run_stage-IsSafe abort_pending e = run_abort-IsSafe e
  run_stage-IsSafe submit_accepted e =
      converge_unknown_claim-IsSafe c a doc.durable w.rec.prepared w
        (record { live = live; prepared = accepted_prepared e })
  run_stage-IsSafe blank e = run_unsubmitted-IsSafe (ap is_abort_pending e)
  run_stage-IsSafe preparing e = run_unsubmitted-IsSafe (ap is_abort_pending e)
  run_stage-IsSafe unsafe_written e = run_unsubmitted-IsSafe (ap is_abort_pending e)
  run_stage-IsSafe rc_bound e = run_unsubmitted-IsSafe (ap is_abort_pending e)
  run_stage-IsSafe ack2 e = run_unsubmitted-IsSafe (ap is_abort_pending e)
  run_stage-IsSafe cleaned e = run_unsubmitted-IsSafe (ap is_abort_pending e)

  pub run-IsSafe : Safely (run c a w)
  unfolding run
  run-IsSafe = if_ind Safely _ (λ _. live.safe) (λ _. run_stage-IsSafe w.rec.stage refl)
