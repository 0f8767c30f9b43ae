-- ===== src/Intake/Safety/Ending.antt =====
-- The terminal record of the intake, and the attempts that end in a cleanup, keep its safety.
use housegate.Base.{
  ◌≡◌, refl, sym, ◌∙◌, subst⁻¹, Bool, true, false, not, ◌&&◌, ◌||◌, Option, none, some, [], ◌∷◌,
  All, All-mono, if_ind, arith, String,
}
use housegate.Durable.{File, candidates}
use housegate.Intake.Outcomes.{Lifecycle, abort_pending}
use housegate.Intake.Records.{IntakeRecord, IntakeJournalRecord, IntakeResult}
use housegate.Intake.Consistency.{
  normalize_terminal_journal_record, with_known_touched, with_upgraded_version,
}
use housegate.Intake.World.{
  Config, Answers, World, Saved, Outcome, saved_or, publish, terminal_snapshot, ended_snapshot,
  terminal_record, set_terminal, set_abort_pending,
}
use housegate.Intake.Aborts.{clean, clean_or, finish_clean, pending, abort}
use housegate.Intake.Safety.{FactsOk, RecordOk, restored, FileOk, IsSafe, IsLive}
use housegate.Intake.Safety.Saving.{
  FactsOk-restored, IsDurable, store_record-ind, set_and_save-IsSafe,
}

ended-RecordOk :
    (written : Bool) (j : IntakeJournalRecord)
    → j.is_terminal ≡ true
    → (j.prepare_known_unwritten ≡ true → written ≡ false)
    → RecordOk written (restored j)
ended-RecordOk written j e h =
    FactsOk-restored written j.has_prepared false j.is_terminal j.prepare_known_unwritten j.stage
      (record {
        covered = λ _. ground (arith, e);
        trusted = h;
        fenced = λ f. cc;
        staged = ground (arith, e);
      })

module _ (r : IntakeRecord) where
  abbrev Ended : IntakeJournalRecord → Type 0
  Ended j = (j.is_terminal ≡ true) × (j.prepare_known_unwritten ≡ r.prepare_known_unwritten)

  Ended-touched : (j : IntakeJournalRecord) → Ended j → Ended (with_known_touched j)
  Ended-touched j h = if_ind Ended _ (λ _. h) (λ _. h)

  Ended-version : (j : IntakeJournalRecord) → Ended j → Ended (with_upgraded_version j)
  Ended-version j h = if_ind Ended _ (λ _. h) (λ _. h)

  Ended-normalize :
      (j : IntakeJournalRecord) → Ended j → Ended (normalize_terminal_journal_record j)
  Ended-normalize j h =
      if_ind Ended j.is_terminal (λ _. Ended-version (with_known_touched j) (Ended-touched j h))
        (λ _. h)

module _ (c : Config) (a : Answers) (d : IsDurable c a) (w : World) (safe : IsSafe w) where
  terminal-memory : (res : IntakeResult) → RecordOk w.written (terminal_record w.rec res)
  terminal-memory res = record {
    covered = λ _. ground arith;
    trusted = safe.memory.trusted;
    fenced = safe.memory.fenced;
    staged = ground arith;
  }

  terminal-files :
      (res : IntakeResult) (file : File IntakeJournalRecord)
      → candidates file ≡ some (terminal_snapshot w.rec res) ∷ []
      → All (FileOk w.written w.rec.prepare_known_unwritten) (candidates file)
  terminal-files res file h =
      let snap = terminal_snapshot w.rec res in
      let (ended, known) : Ended w.rec snap =
        Ended-normalize w.rec (ended_snapshot w.rec res) (refl, refl) in
      subst⁻¹ (λ x. All (FileOk w.written w.rec.prepare_known_unwritten) x) h
        (
          (
            ended-RecordOk w.written snap ended (λ e. safe.memory.trusted (sym known ∙ e)),
            λ e. sym known ∙ e,
          ),
          tt,
        )

  -- `setTerminal`, and the return behind it.
  pub set_terminal-IsSafe :
      (res : IntakeResult)
      → IsSafe (saved_or (set_terminal c a w res) res (λ w'. ((res, none), w'))).1
  unfolding set_terminal
  set_terminal-IsSafe res =
      if_ind
        (λ (s : Saved).
          IsSafe (saved_or (publish (terminal_record w.rec res) s) res (λ w'. ((res, none), w'))).1)
        c.has_journal
        (λ _.
          store_record-ind
            (λ s.
              IsSafe
                (saved_or (publish (terminal_record w.rec res) s) res (λ w'. ((res, none), w'))).1)
            a w (terminal_snapshot w.rec res) (d.disk w.saved)
            (λ file h. record {
              undoubled = safe.undoubled;
              memory = terminal-memory res;
              files = terminal-files res file h;
            })
            (record { undoubled = safe.undoubled; memory = safe.memory; files = safe.files }))
        (λ e. let on = d.journaled in cc)

-- The facts of a source that no longer has the write, or may not.
FactsOk-less :
    (written less : Bool) {prepared lookup terminal unwritten : Bool} {stage : Lifecycle}
    → FactsOk written prepared lookup terminal unwritten stage
    → FactsOk (written && less) prepared lookup terminal unwritten stage
FactsOk-less written less h = record {
  covered = λ e. h.covered (ground (arith, e));
  trusted = λ e. ground (arith, h.trusted e);
  fenced = h.fenced;
  staged = h.staged;
}

FileOk-less :
    (written less unwritten : Bool) (o : Option IntakeJournalRecord)
    → FileOk written unwritten o
    → FileOk (written && less) unwritten o
FileOk-less written less unwritten none h = h
FileOk-less written less unwritten (some j) h = (FactsOk-less written less h.0, h.1)

module _ (c : Config) (a : Answers) (d : IsDurable c a) where
  pub clean-IsLive : (w : World) → IsLive w → IsLive (clean c a w)
  clean-IsLive w live =
      let less = not a.aborts || a.abort_leaves in
      record {
        safe = record {
          undoubled = live.safe.undoubled;
          memory = FactsOk-less w.written less live.safe.memory;
          files =
              All-mono (FileOk-less w.written less w.rec.prepare_known_unwritten)
                (candidates w.journal) live.safe.files;
        };
        is_open = live.is_open;
      }

  -- The source's cleanup, and what follows it where it succeeds.
  pub clean_or-IsSafe :
      (res : IntakeResult) (w : World) (k : World → Outcome)
      → IsLive w
      → (IsLive (clean c a w) → IsSafe (k (clean c a w)).1)
      → IsSafe (clean_or c a res w k).1
  clean_or-IsSafe res w k live next =
      let cleaned = clean-IsLive w live in
      if_ind (λ (o : Outcome). IsSafe o.1) a.aborts (λ _. next cleaned) (λ _. cleaned.safe)

  pub abort-IsSafe :
      (res : IntakeResult) (w : World) (reason : String)
      → IsLive w
      → w.rec.has_prepared ≡ true
      → IsSafe (abort c a res w reason).1
  unfolding abort set_abort_pending
  abort-IsSafe res w reason live prepared =
      let h = live.safe.memory in
      let r = record w.rec { stage = abort_pending; abort_reason = reason } in
      let ok : RecordOk w.written r = record {
        covered = h.covered;
        trusted = h.trusted;
        fenced = h.fenced;
        staged = ground (arith, prepared);
      } in
      set_and_save-IsSafe c a d w r live.is_open live.safe.undoubled ok (pending res) _
        live.safe.files
        λ file live'.
          if_ind (λ (o : Outcome). IsSafe o.1) (not a.before_cleanup) (λ _. live'.safe)
            λ _. clean_or-IsSafe (pending res) _ (finish_clean c a (pending res)) live' λ live''.
              if_ind (λ (o : Outcome). IsSafe o.1) (not a.after_cleanup) (λ _. live''.safe)
                λ _. set_terminal-IsSafe c a d _ live''.safe _
