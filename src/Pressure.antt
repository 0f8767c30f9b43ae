-- ===== src/Pressure.antt =====
-- Parts pressure (pkg/storageintegrity/parts_pressure.go, parts_pressure_scope.go): how many more active
-- parts each partition may take, and who owns which exact part.
pub mod Scope
pub mod Maps
pub mod Guard
pub mod Admission
pub mod Debt
pub mod Claims
pub mod Observed
pub mod Lifecycle
pub mod Inventory
pub mod Refresh
pub mod Calls
pub mod Cleanup
pub mod LiveKeys
pub mod LiveReads
pub mod Restore
pub mod Batch
pub mod Skeleton
pub mod Undisturbed
pub mod Ledger
pub mod Limits
pub mod Balance
pub mod Closing
pub mod Reserving
pub mod Cleaning
pub mod Restoring
pub mod History
pub mod Latch
pub mod Fence
pub mod Intact
pub mod Owners
pub mod Binding
pub mod Observing
pub mod Partitions
pub mod Charges
pub mod Owed
mod Examples
pub mod Untouched
pub mod Releasing
pub mod Ownership
