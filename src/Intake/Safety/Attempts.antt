-- ===== src/Intake/Safety/Attempts.antt =====
-- The submission of a cached result, and the prepare of a statement without one, keep the intake's
-- safety.
use housegate.Base.{
  ◌≡◌, refl, Bool, false, not, ◌||◌, Option, none, some, if_ind, Bool-cases, inl, inr, All,
  All-mono, subst, subst⁻¹, arith, String, if◌then◌else◌,
}
use housegate.Durable.{candidates}
use housegate.Intake.Outcomes.{Lifecycle, SubmitOutcome, requires_abort}
use housegate.Intake.Records.{
  IntakeJournalRecord, IntakeResult, PreparedLocalResult, is_unprepared_stage,
}
use housegate.Intake.World.{
  Config, Answers, World, Saved, Outcome, saved_or, set_submit_unknown, PrepareAnswer, made,
  rejected, failed, cache_prepared,
}
use housegate.Intake.Run.{
  queried_submit, converge_unknown_submit, answer_or, value_of, resubmit, resubmitted, bare,
  after_prepare, after_reject, call_both,
}
use housegate.Intake.Safety.{FactsOk, FileOk, IsLive, Safely}
use housegate.Intake.Safety.Saving.{IsDurable, set_and_save-IsSafe}
use housegate.Intake.Safety.Rejects.{
  abort_known_unwritten_terminal-IsSafe, abort_terminal_prepare_reject-IsSafe,
}
use housegate.Intake.Safety.Prepared.{IsPrepared, called-IsPrepared, submit_unknown-IsSafe}
use housegate.Intake.Safety.Claims.{after_submit-IsSafe, submitted-IsSafe}

-- A restart would look the source up before it prepares, whatever a call did to it.
FactsOk-write :
    (written prepared terminal unwritten : Bool) (stage : Lifecycle)
    → FactsOk false prepared
        (if prepared || terminal || unwritten then false else is_unprepared_stage stage)
        terminal
        unwritten
        stage
    → unwritten ≡ false
    → FactsOk written prepared
        (if prepared || terminal || unwritten then false else is_unprepared_stage stage)
        terminal
        unwritten
        stage
FactsOk-write written prepared terminal unwritten stage h e = record {
  covered = λ _. ground (arith, e, h.staged);
  trusted = λ f. cc;
  fenced = h.fenced;
  staged = h.staged;
}

FileOk-write :
    (written : Bool) (o : Option IntakeJournalRecord)
    → FileOk false false o
    → FileOk written false o
FileOk-write written none h = h
FileOk-write written (some j) h = (
  FactsOk-write written j.has_prepared j.is_terminal j.prepare_known_unwritten j.stage h.0
      (elim (Bool-cases j.prepare_known_unwritten) [ inl e ↦ let no = h.1 e in cc | inr e ↦ e ]),
  h.1,
)

pub value_of-Safely {ℓ} :
    {A : Type ℓ} (x : A) (s : Saved) (res : IntakeResult) (k : A → World → Outcome)
    → Safely (saved_or s res (k x))
    → Safely (answer_or (value_of x s) res k)
value_of-Safely x (some e, w) res k h = h
value_of-Safely x (none, w) res k h = h

module _ (c : Config) (a : Answers) (d : IsDurable c a) where
  resubmitted-IsSafe :
      (p : PreparedLocalResult) (res : IntakeResult) (o : Option SubmitOutcome) (w : World)
      → IsPrepared w
      → Safely (resubmitted c a p res o w)
  resubmitted-IsSafe p res (some o) w s = after_submit-IsSafe c a d p o w s
  resubmitted-IsSafe p res none w s =
      submitted-IsSafe c a d p res a.submit _ (called-IsPrepared w _ s)

  queried_submit-IsSafe :
      (p : PreparedLocalResult) (res : IntakeResult) (o : Option SubmitOutcome) (w : World)
      → IsPrepared w
      → Safely (answer_or (queried_submit c a o w) res (resubmitted c a p res))
  queried_submit-IsSafe p res none w s = s.live.safe
  queried_submit-IsSafe p res (some status) w s =
      value_of-Safely _ (set_submit_unknown c a w false) res (resubmitted c a p res)
        (submit_unknown-IsSafe c a d w s false res _ (resubmitted-IsSafe p res _))

  pub resubmit-IsSafe :
      (p : PreparedLocalResult) (w : World) → IsPrepared w → Safely (resubmit c a p w)
  unfolding converge_unknown_submit
  resubmit-IsSafe p w s =
      let res = record (bare w) { prepared = p } in
      if_ind (λ x. Safely (answer_or x res (resubmitted c a p res)))
        (not c.has_querier || not w.rec.submit_unknown) (λ _. resubmitted-IsSafe p res none w s)
        (λ _. queried_submit-IsSafe p res a.query_submit w s)

-- A live statement without a write, about to be prepared.
pub record IsUnwritten (w : World) : Type 0 where
  pub live : IsLive w
  pub unwritten : w.written ≡ false
  pub uncached : w.rec.has_prepared ≡ false
  pub resolved : w.rec.require_prepared_lookup ≡ false
  pub closed : w.rec.prepare_known_unwritten ≡ false

module _ (c : Config) (a : Answers) (d : IsDurable c a) where
  after_reject-IsSafe :
      (text : String) (o : Option SubmitOutcome) (w : World)
      → IsLive w
      → w.written ≡ false
      → w.rec.require_prepared_lookup ≡ false
      → Safely (after_reject c a text o w)
  after_reject-IsSafe text none w live e l =
      abort_terminal_prepare_reject-IsSafe c a d w live e l _ text
  after_reject-IsSafe text (some s) w live e l =
      if_ind Safely (requires_abort s.category)
        (λ _. abort_known_unwritten_terminal-IsSafe c a d w live e l _ s s.reason)
        (λ _. abort_terminal_prepare_reject-IsSafe c a d w live e l _ text)

  module _ (w : World) (u : IsUnwritten w) where
    called-undoubled : (call_both c a w).doubled ≡ false
    called-undoubled = ground (arith, u.unwritten, u.live.safe.undoubled)

    called-files : All (FileOk (call_both c a w).written false) (candidates w.journal)
    called-files =
        All-mono
          (λ o h. FileOk-write _ o (
            subst (λ b. FileOk b false o) u.unwritten
              (subst (λ b. FileOk w.written b o) u.closed h)))
          (candidates w.journal) u.live.safe.files

    made-IsSafe : (p : PreparedLocalResult) → Safely (after_prepare c a (made p) (call_both c a w))
    unfolding cache_prepared
    made-IsSafe p =
        set_and_save-IsSafe c a d (call_both c a w) _ u.live.is_open called-undoubled
          (record { covered = λ _. refl; trusted = λ e. cc; fenced = λ e. refl; staged = refl }) _ _
          called-files
          (λ file live.
            submitted-IsSafe c a d p _ a.submit _ (record { live = live; prepared = refl }))

    failed-IsSafe : Safely (after_prepare c a failed (call_both c a w))
    failed-IsSafe = record {
      undoubled = called-undoubled;
      memory = record {
        covered = λ _. ground arith;
        trusted = λ e. let no = u.closed in cc;
        fenced = λ _. u.closed;
        staged = u.live.safe.memory.staged;
      };
      files =
          subst⁻¹ (λ b. All (FileOk (call_both c a w).written b) (candidates w.journal)) u.closed
            called-files;
    }

    rejected-IsSafe :
        (text : String)
        → a.prepare_writes ≡ false
        → Safely (after_prepare c a (rejected text) (call_both c a w))
    rejected-IsSafe text early =
        let still : (call_both c a w).written ≡ false = ground (arith, u.unwritten, early) in
        let h = u.live.safe.memory in
        after_reject-IsSafe text a.submit (call_both c a w)
          (record {
            safe = record {
              undoubled = called-undoubled;
              memory = record {
                covered = λ e. cc;
                trusted = λ _. still;
                fenced = h.fenced;
                staged = h.staged;
              };
              files =
                  subst⁻¹ (λ b. All (FileOk (call_both c a w).written b) (candidates w.journal))
                    u.closed called-files;
            };
            is_open = u.live.is_open;
          })
          still u.resolved

    pub after_prepare-IsSafe :
        (o : PrepareAnswer)
        → ((text : String) → o ≡ rejected text → a.prepare_writes ≡ false)
        → Safely (after_prepare c a o (call_both c a w))
    after_prepare-IsSafe (made p) early = made-IsSafe p
    after_prepare-IsSafe failed early = failed-IsSafe
    after_prepare-IsSafe (rejected text) early = rejected-IsSafe text (early text refl)
