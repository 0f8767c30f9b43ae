-- ===== src/Lib.antt =====
-- HouseGate: a proxy for the ClickHouse native protocol (github.com/housegate/housegate, Go).
--
-- A client's connection is a session. Its hello and its queries pass through a chain of plugins,
-- which may authenticate, rewrite, route or forward it. An agent signs INSERTs as statements whose
-- ids carry a client_seq that must never be used twice; the storage-integrity intake takes such
-- statements.
--
-- The parts modelled here, each with its file:
--
-- Durable: `writeDurable` and `syncDir` of pkg/plugins/sistatement/seq_dir.go over a file with the
--   contents that a crash may bring back. Which system calls fail is the parameter `Faults`.
-- Seq: the stores of client_seq. Seq/FreeList has the free list that they share; Seq/Counter the
--   counter of pkg/plugins/sistatement/seq.go and Seq/Lane the store of one client lane of
--   pkg/plugins/sistatement/lanepool.go. The children of both have the invariant (Sound), that each
--   method keeps it (Taking, Giving), and whole histories of calls, restarts and crashes (History);
--   Seq/Counter/Reopen opens a counter from any contents of its files. Seq/Pool is `LanePool`, which
--   finds or mints a lane in a directory, Seq/Selector `laneSelector` of
--   pkg/plugins/sistatement/lanes.go, which gives each statement its lane: one turn of the loop of
--   `pick` is one step, and a wait is a turn that changes nothing. Their children are about the
--   choice of a lane (Choice, Taking), the counts (Counts, Counting, Capped) and the rotation
--   (Rotation, History, Lasting).
-- Session: `SessionState` of pkg/chsession/state.go with its setters and tests.
-- Chain: `PluginChain` of pkg/plugin/chain.go. Chain/Filter has the filters and the loops,
--   Chain/Stages the hooks of each stage, Chain/Query the query stage with its continuation; Pivot,
--   Exceptions, Query/Suspend and Query/Ownership the theorems.
-- Intake: one statement under `Orchestrator` of pkg/storageintegrity/intake.go. Outcomes has the
--   answers of the remote parts and the gate of ack2_gate.go, Records the record in memory and in the
--   journal (journal.go), Consistency the checks of a prepared result, World the setters with their
--   saves, Aborts, Claims and Run one attempt (with intake_abort.go and intake_retry.go), Orchestrate
--   the call around it, Frontier the gate that a source is written through. Safety and Ack2 hold the
--   theorems. What the ports, the hooks and the disk answer is the parameter `Answers`, one answer
--   for each call of an attempt; what a prepare or an abort does to the source is part of it.
-- Statement: the identity of a statement, pkg/storageintegrity/statementid.go: the parser and the
--   flat form, with what they use of strings and strconv. Decimal and Canonical are about the
--   numbers, Colons about the segments, RoundTrip, Accepts, Legacy and Subject hold the theorems.
-- Pressure: `PartsPressureGuard` of pkg/storageintegrity/parts_pressure.go, which limits the active
--   parts of each partition and knows who owns which exact part. Scope has parts_pressure_scope.go
--   and the physical table name, Maps the maps by key, Guard the state, Admission the checks and the
--   new reservation, Debt the accounting of committed slots, Claims and Observed the exact parts,
--   Lifecycle the ends of a reservation, Inventory and Refresh the reads of system.parts, Calls
--   `Reserve`, Cleanup the proof of a cleanup, LiveKeys `RefreshLiveKeys`, Restore and Batch
--   `RestoreBatch`. What ClickHouse answers, the clock and the observation hook are the parameter
--   `Reading`. A reservation is known by its id where the code has its pointer; both are the same
--   until an id wraps around. The
--   order of maps is the order of the model's lists; a refresh is one step, also where the code lets
--   go of the guard's lock to call the hook. Skeleton, Ledger,
--   Balance, Closing, Reserving, Cleaning, Restoring and History are about the ledger of reserved
--   parts, Undisturbed, Intact and Untouched about what a call leaves as it is, Owners, Binding,
--   Observing, Releasing and Ownership about the owners, Latch and Fence about a restore that failed,
--   Limits, Charges, Owed, LiveReads and Partitions about the rest.
--
-- A method of the Go code is a function that returns its result beside the state it left, also
-- after an error; the mutexes make each method one step, but for `RefreshLiveKeys`, whose reads are
-- a step each, so an interleaving of callers is a sequence of steps. A uint64 is a natural number
-- with its wrap-around written out. What a plugin does is a parameter: its hook is any function of
-- the state. No loop of the code needs fuel: each goes over a list, and the eight attempts of
-- `mint` are counted down. `served` of Intake/Frontier, which is not code, counts the releases: one
-- more than there are entries in the queue.
--
-- Not modelled: the wire protocol and the relay, SQL parsing and rewriting, authentication, the
-- envelope that the intake derives from an admission, the recovery of a whole journal, the texts of
-- queries, replay, configuration and metrics.
pub mod Base
pub mod Durable
pub mod Seq
pub mod Session
pub mod Chain
pub mod Intake
pub mod Statement
pub mod Pressure
