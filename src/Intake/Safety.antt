-- ===== src/Intake/Safety.antt =====
-- That the intake never makes the source write a statement twice: what its record and its journal
-- must say of the source between two calls, and that every call of an attempt keeps it.
pub mod Saving
pub mod Ending
pub mod Rejects
pub mod Prepared
pub mod Claims
pub mod Attempts
pub mod Runs
pub mod History
use housegate.Base.{
  ◌≡◌, refl, Bool, true, false, not, ◌&&◌, ◌||◌, Option, none, some, List, [], ◌∷◌, All,
}
use housegate.Durable.{candidates}
use housegate.Intake.Outcomes.{Lifecycle, abort_pending}
use housegate.Intake.Records.{
  IntakeRecord, IntakeJournalRecord, intake_record_from, is_unprepared_stage,
  needs_prepared_lookup_after_restart,
}
use housegate.Intake.World.{World, Outcome}

abbrev pub is_abort_pending : Lifecycle → Bool
is_abort_pending abort_pending = true
is_abort_pending _ = false

-- What the five facts of a record say of a source with or without an unsafe write.
pub record FactsOk (written prepared lookup terminal unwritten : Bool) (stage : Lifecycle)
    : Type 0 where
  -- a write is cached, or a lookup comes before the next one
  pub covered : written ≡ true → (prepared || lookup || terminal) ≡ true
  pub trusted : unwritten ≡ true → written ≡ false
  pub fenced : lookup ≡ true → unwritten ≡ false
  pub staged :
      (prepared || terminal || is_unprepared_stage stage || (is_abort_pending stage && unwritten))
      ≡ true

abbrev pub RecordOk : Bool → IntakeRecord → Type 0
RecordOk written r =
    FactsOk written r.has_prepared r.require_prepared_lookup r.is_terminal r.prepare_known_unwritten
      r.stage

-- What a restart makes of a journal record.
abbrev pub restored : IntakeJournalRecord → IntakeRecord
restored j =
    let r = intake_record_from j in
    record r { require_prepared_lookup = needs_prepared_lookup_after_restart r }

-- A content of the journal's file: it is there, and it trusts the source no more than memory does.
abbrev pub FileOk : Bool → Bool → Option IntakeJournalRecord → Type 0
FileOk written unwritten none = ⊥
FileOk written unwritten (some j) =
    RecordOk written (restored j) × (j.prepare_known_unwritten ≡ true → unwritten ≡ true)

pub record IsSafe (w : World) : Type 0 where
  pub undoubled : w.doubled ≡ false
  pub memory : RecordOk w.written w.rec
  pub files : All (FileOk w.written w.rec.prepare_known_unwritten) (candidates w.journal)

-- Safe, and not ended.
pub record IsLive (w : World) : Type 0 where
  pub safe : IsSafe w
  pub is_open : w.rec.is_terminal ≡ false

-- The outcome of an attempt leaves the world safe.
abbrev pub Safely : Outcome → Type 0
Safely o = IsSafe o.1
