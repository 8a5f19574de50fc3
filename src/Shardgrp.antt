-- ===== src/Shardgrp.antt =====
-- internal/shardgrp: a replica group that serves the shards it owns.
pub mod Server
pub mod Clerk
pub mod Handlers
