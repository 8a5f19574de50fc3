-- ===== src/Core.antt =====
-- internal/core: the types that the other components share.
pub mod Kv
pub mod Shard
pub mod Command
pub mod Raft
