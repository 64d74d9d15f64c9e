-- ===== src/Ingest.antt =====
-- massa-indexer/src/ingest.rs: what the node streams is applied to the store. The counters of
-- `Metrics` and the log lines are left out, and `now_ms` is an argument.
pub mod Messages
pub mod Decode
pub mod Pool
pub mod Blocks
pub mod Exec
pub mod Transfers
pub mod Worker
pub mod Frame
pub mod Handlers
pub mod Rows
pub mod Placed
pub mod Moves
pub mod Refines
pub mod Verdict
pub mod VerdictExec
pub mod Live
pub mod Attribution
pub mod Lanes
pub mod Total
pub mod Reach
pub mod Settles
mod Tests
