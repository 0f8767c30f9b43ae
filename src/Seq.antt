-- ===== src/Seq.antt =====
-- The client_seq stores of pkg/plugins/sistatement: the free list that they share, the legacy counter
-- (seq.go) and the client lanes (lanepool.go).
pub mod FreeList
pub mod Counter
pub mod Lane
pub mod Pool
pub mod Selector
