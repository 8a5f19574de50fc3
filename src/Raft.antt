-- ===== src/Raft.antt =====
-- internal/raft: one consensus peer. A handler that holds the mutex throughout is one function of
-- the state; a goroutine that gives it up for an RPC is one function before the call and one after.
pub mod State
pub mod Vote
pub mod Append
pub mod Compact
pub mod Replicate
pub mod Round
pub mod Apply
pub mod Step
pub mod Log
pub mod Majority
pub mod Commit
pub mod Cluster
