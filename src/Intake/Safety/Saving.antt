-- ===== src/Intake/Safety/Saving.antt =====
-- The setters of the intake's record keep its safety, whether or not the journal takes what they save.
use housegate.Base.{
  ℕ, suc, ◌≡◌, subst⁻¹, Bool, true, false, ◌||◌, none, some, [], ◌∷◌, All, ◌⊎◌, inl, inr, if_ind,
  arith, if◌then◌else◌,
}
use housegate.Durable.{Faults, File, candidates, write_durable}
use housegate.Intake.Outcomes.{Lifecycle}
use housegate.Intake.Records.{
  IntakeRecord, IntakeJournalRecord, IntakeResult, journal_record_from, is_unprepared_stage,
}
use housegate.Intake.World.{
  Config, Answers, World, save_intake_record, store_record, Saved, Outcome, saved_or,
  snapshot_to_save, save_journal_snapshot, set_and_save, save_and_set, publish, persist_failed,
}
use housegate.Intake.Safety.{FactsOk, RecordOk, restored, FileOk, IsSafe, IsLive}

-- A disk whose directory syncs: a save that fails leaves the file as it was.
pub record SyncsDirectory (f : Faults) : Type 0 where
  pub opens : f.dir_opens ≡ true
  pub syncs : f.dir_syncs ≡ true

pub save_intake_record-cases :
    (f : Faults) (file : File IntakeJournalRecord) (j : IntakeJournalRecord)
    → SyncsDirectory f
    → let (file', ok) = save_intake_record f file j in
      ((ok ≡ true) × (candidates file' ≡ some j ∷ [])) ⊎ ((ok ≡ false) × (file' ≡ file))
unfolding save_intake_record write_durable
save_intake_record-cases f file j s = ground (arith, s.opens, s.syncs)

-- The facts that a restart reads back from what was saved of a record.
pub FactsOk-restored :
    (written prepared lookup terminal unwritten : Bool) (stage : Lifecycle)
    → FactsOk written prepared lookup terminal unwritten stage
    → FactsOk written prepared
        (if prepared || terminal || unwritten then false else is_unprepared_stage stage)
        terminal
        unwritten
        stage
FactsOk-restored written prepared lookup terminal unwritten stage h = record {
  covered = λ e. ground (arith, e, h.covered, h.trusted, h.staged);
  trusted = h.trusted;
  fenced = λ e. ground (arith, e);
  staged = h.staged;
}

abbrev Reread : Bool → Bool → IntakeJournalRecord → Type 0
Reread written unwritten j =
    RecordOk written (restored j) × (j.prepare_known_unwritten ≡ true → unwritten ≡ true)

-- What is written for a record that has not ended reads back as safe as the record.
snapshot-Reread :
    (written : Bool) (old r : IntakeRecord)
    → old.is_terminal ≡ false
    → RecordOk written r
    → Reread written r.prepare_known_unwritten (snapshot_to_save old (journal_record_from r))
snapshot-Reread written old r is_open ok =
    let good = FactsOk-restored written _ _ _ _ _ ok in
    let P : IntakeJournalRecord → Type 0 = Reread written r.prepare_known_unwritten in
    let chosen =
      if old.is_terminal then journal_record_from old else record (journal_record_from r) {
        admission = record r.adm { touched_partition_ids = old.adm.touched_partition_ids };
        observed_candidate_parts = old.observed_candidate_parts;
      } in
    let read : P chosen = if_ind P old.is_terminal (λ ended. cc) (λ _. (good, λ e. e)) in
    if_ind P chosen.is_terminal (λ _. (read.0, read.1)) (λ _. read)

-- A record that is stored: its file holds nothing else, or is as it was.
pub store_record-ind {ℓ} :
    (P : Saved → Type ℓ) (a : Answers) (w : World) (j : IntakeJournalRecord)
    → SyncsDirectory (a.saves w.saved)
    → ((file : File IntakeJournalRecord)
        → candidates file ≡ some j ∷ []
        → P (none, record w { journal = file; saved = suc w.saved }))
    → P (some persist_failed, record w { saved = suc w.saved })
    → P (store_record a w j)
store_record-ind P a w j disk stored same =
    let r = save_intake_record (a.saves w.saved) w.journal j in
    elim (save_intake_record-cases (a.saves w.saved) w.journal j disk) [
      | inl (e, h) ↦ rw e (stored r.0 h)
      | inr (e, h) ↦ rw e (
          subst⁻¹
            (λ file. P (some persist_failed, record w { journal = file; saved = suc w.saved })) h
            same)
    ]

-- The disk and the configuration that the theorem is about.
pub record IsDurable (c : Config) (a : Answers) : Type 0 where
  pub journaled : c.has_journal ≡ true
  pub disk : (n : ℕ) → SyncsDirectory (a.saves n)

pub save_journal_snapshot-ind {ℓ} :
    (P : Saved → Type ℓ) (c : Config) (a : Answers) (w : World) (snap : IntakeJournalRecord)
    → IsDurable c a
    → ((file : File IntakeJournalRecord)
        → candidates file ≡ some (snapshot_to_save w.rec snap) ∷ []
        → P (none, record w { journal = file; saved = suc w.saved }))
    → P (some persist_failed, record w { saved = suc w.saved })
    → P (save_journal_snapshot c a w snap)
unfolding save_journal_snapshot
save_journal_snapshot-ind P c a w snap d stored same =
    if_ind P c.has_journal
      (λ _. store_record-ind P a w (snapshot_to_save w.rec snap) (d.disk w.saved) stored same)
      (λ e. let on = d.journaled in cc)

module _ (c : Config) (a : Answers) (d : IsDurable c a) (w : World) (r : IntakeRecord)
    (is_open : r.is_terminal ≡ false) (undoubled : w.doubled ≡ false)
    (ok : RecordOk w.written r) where
  pub stored-All :
      (old : IntakeRecord) (file : File IntakeJournalRecord)
      → old.is_terminal ≡ false
      → candidates file ≡ some (snapshot_to_save old (journal_record_from r)) ∷ []
      → All (FileOk w.written r.prepare_known_unwritten) (candidates file)
  stored-All old file e h =
      subst⁻¹ (λ x. All (FileOk w.written r.prepare_known_unwritten) x) h
        (snapshot-Reread w.written old r e ok, tt)

  -- The record is changed first.
  pub set_and_save-IsSafe :
      (res : IntakeResult) (k : World → Outcome)
      → All (FileOk w.written r.prepare_known_unwritten) (candidates w.journal)
      → ((file : File IntakeJournalRecord)
          → IsLive (record w { rec = r; journal = file; saved = suc w.saved })
          → IsSafe (k (record w { rec = r; journal = file; saved = suc w.saved })).1)
      → IsSafe (saved_or (set_and_save c a w r) res k).1
  set_and_save-IsSafe res k files next =
      save_journal_snapshot-ind (λ s. IsSafe (saved_or s res k).1) c a (record w { rec = r })
        (journal_record_from r) d
        (λ file h. next file (record {
          safe = record { undoubled = undoubled; memory = ok; files = stored-All r file is_open h };
          is_open = is_open;
        }))
        (record { undoubled = undoubled; memory = ok; files = files })

  -- The record is changed when the journal took it.
  pub save_and_set-IsSafe :
      (res : IntakeResult) (k : World → Outcome)
      → IsLive w
      → ((file : File IntakeJournalRecord)
          → IsLive (record w { rec = r; journal = file; saved = suc w.saved })
          → IsSafe (k (record w { rec = r; journal = file; saved = suc w.saved })).1)
      → IsSafe (saved_or (save_and_set c a w r) res k).1
  save_and_set-IsSafe res k live next =
      save_journal_snapshot-ind (λ s. IsSafe (saved_or (publish r s) res k).1) c a w
        (journal_record_from r) d
        (λ file h. next file (record {
          safe = record {
            undoubled = undoubled;
            memory = ok;
            files = stored-All w.rec file live.is_open h;
          };
          is_open = is_open;
        }))
        (record { undoubled = undoubled; memory = live.safe.memory; files = live.safe.files })
