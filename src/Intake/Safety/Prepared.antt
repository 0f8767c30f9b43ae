-- ===== src/Intake/Safety/Prepared.antt =====
-- A statement whose write is cached stays safe under the setters that say nothing of the source.
use housegate.Base.{suc, ◌≡◌, refl, subst⁻¹, All, Bool, true, false, List, arith}
use housegate.Durable.{File, candidates}
use housegate.Intake.Outcomes.{Lifecycle, SubmitOutcome}
use housegate.Intake.Records.{IntakeRecord, IntakeJournalRecord, IntakeResult}
use housegate.Intake.World.{
  Config, Answers, World, Outcome, saved_or, set_and_save, set_stage, set_claim_unknown,
  set_submit_unknown, cache_submit, Call,
}
use housegate.Intake.Safety.{RecordOk, FileOk, IsLive, Safely}
use housegate.Intake.Safety.Saving.{IsDurable, set_and_save-IsSafe}

-- A live statement whose write is cached.
pub record IsPrepared (w : World) : Type 0 where
  pub live : IsLive w
  pub prepared : w.rec.has_prepared ≡ true

pub called-IsPrepared :
    (w : World) (calls : List Call) → IsPrepared w → IsPrepared (record w { calls = calls })
called-IsPrepared w calls s = record {
  live = record {
    safe = record {
      undoubled = s.live.safe.undoubled;
      memory = s.live.safe.memory;
      files = s.live.safe.files;
    };
    is_open = s.live.is_open;
  };
  prepared = s.prepared;
}

module _ (c : Config) (a : Answers) (d : IsDurable c a) where
  -- A setter of a field that says nothing of the source.
  pub set-IsSafe :
      (w : World) (r : IntakeRecord) (res : IntakeResult) (k : World → Outcome)
      → IsPrepared w
      → r.is_terminal ≡ false
      → RecordOk w.written r
      → r.has_prepared ≡ true
      → r.prepare_known_unwritten ≡ w.rec.prepare_known_unwritten
      → ((file : File IntakeJournalRecord)
          → let w' = record w { rec = r; journal = file; saved = suc w.saved } in
            IsPrepared w' → Safely (k w'))
      → Safely (saved_or (set_and_save c a w r) res k)
  set-IsSafe w r res k s is_open facts prepared same next =
      set_and_save-IsSafe c a d w r is_open s.live.safe.undoubled facts res k
        (subst⁻¹ (λ b. All (FileOk w.written b) (candidates w.journal)) same s.live.safe.files)
        (λ file live. next file (record { live = live; prepared = prepared }))

  module _ (w : World) (s : IsPrepared w) where
    -- The record at any stage.
    staged-RecordOk : (l : Lifecycle) → RecordOk w.written (record w.rec { stage = l })
    staged-RecordOk l =
        let h = s.live.safe.memory in
        record {
          covered = h.covered;
          trusted = h.trusted;
          fenced = h.fenced;
          staged = ground (arith, s.prepared);
        }

    pub at_stage-IsSafe :
        (l : Lifecycle) (res : IntakeResult) (k : World → Outcome)
        → ((w' : World) → IsPrepared w' → Safely (k w'))
        → Safely (saved_or (set_stage c a w l) res k)
    unfolding set_stage
    at_stage-IsSafe l res k next =
        set-IsSafe w _ res k s s.live.is_open (staged-RecordOk _) s.prepared refl
          (λ file s'. next _ s')

    pub claim_unknown-IsSafe :
        (v : Bool) (res : IntakeResult) (k : World → Outcome)
        → ((w' : World) → IsPrepared w' → Safely (k w'))
        → Safely (saved_or (set_claim_unknown c a w v) res k)
    unfolding set_claim_unknown
    claim_unknown-IsSafe v res k next =
        set-IsSafe w _ res k s s.live.is_open (staged-RecordOk w.rec.stage) s.prepared refl
          (λ file s'. next _ s')

    pub submit_unknown-IsSafe :
        (v : Bool) (res : IntakeResult) (k : World → Outcome)
        → ((w' : World) → IsPrepared w' → Safely (k w'))
        → Safely (saved_or (set_submit_unknown c a w v) res k)
    unfolding set_submit_unknown
    submit_unknown-IsSafe v res k next =
        set-IsSafe w _ res k s s.live.is_open (staged-RecordOk w.rec.stage) s.prepared refl
          (λ file s'. next _ s')

    pub cache_submit-IsSafe :
        (o : SubmitOutcome) (res : IntakeResult) (k : World → Outcome)
        → ((w' : World) → IsPrepared w' → Safely (k w'))
        → Safely (saved_or (cache_submit c a w o) res k)
    unfolding cache_submit
    cache_submit-IsSafe o res k next =
        set-IsSafe w _ res k s s.live.is_open (staged-RecordOk w.rec.stage) s.prepared refl
          (λ file s'. next _ s')
