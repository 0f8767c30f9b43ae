-- ===== src/Intake/Ack2.antt =====
-- What stands behind an ACK2 of the intake.
pub mod Saves
pub mod Gate
pub mod Claims
pub mod Runs
use housegate.Base.{◌≡◌, ◌≢◌, Bool, true, false, Option, none, some, All, String}
use housegate.Durable.{candidates}
use housegate.Intake.Outcomes.{permits_ack2, Lifecycle, rc_bound}
use housegate.Intake.Records.{IntakeResult, IntakeJournalRecord}
use housegate.Intake.World.{World, IntakeError, Outcome}

-- A content of the journal that repeats the result for ever.
abbrev pub SaysEnded : IntakeResult → Option IntakeJournalRecord → Type 0
SaysEnded res none = ⊥
SaysEnded res (some j) = (j.is_terminal ≡ true) × (j.terminal_result ≡ res)

-- Both remote sides accepted, the claim is bound to the source that prepared, and whatever a crash
-- leaves of the journal says so.
pub record Earned (res : IntakeResult) (w : World) : Type 0 where
  pub submitted : permits_ack2 res.submit.category ≡ true
  pub claimed : permits_ack2 res.claim.category ≡ true
  pub bound : res.claim.bound_source ≡ w.rec.prepared.source_node
  pub named : res.claim.bound_source ≢ ""
  pub at_bound : res.lifecycle ≡ rc_bound
  pub ended : (w.rec.is_terminal ≡ true) × (w.rec.terminal_res ≡ res)
  pub journaled : All (SaysEnded res) (candidates w.journal)

-- An outcome that is an ACK2 without an error has earned it.
abbrev pub AcksEarned : Outcome → Type 0
AcksEarned ((res, e), w) = e ≡ none → res.is_ack2 ≡ true → Earned res w
