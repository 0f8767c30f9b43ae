-- ===== src/Intake.antt =====
-- Storage-integrity intake: one statement from its admission to ACK2 or a cleaned abort
-- (`Orchestrator` of pkg/storageintegrity/intake.go with intake_abort.go, intake_retry.go and the
-- record of journal.go).
pub mod Outcomes
pub mod Records
pub mod Consistency
pub mod World
pub mod Aborts
pub mod Claims
pub mod Run
pub mod Orchestrate
pub mod Frontier
pub mod Safety
pub mod Ack2
mod Examples
