-- ===== src/Chain.antt =====
-- `PluginChain` of pkg/plugin/chain.go: which plugins run on a session, the loops of its hooks, and a
-- query that is suspended and resumed.
pub mod Filter
pub mod Query
pub mod Stages
pub mod Pivot
pub mod Exceptions
mod Examples
