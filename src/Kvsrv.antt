-- ===== src/Kvsrv.antt =====
-- internal/kvsrv: the versioned key/value server and its client.
pub mod Server
pub mod Clerk
pub mod Lock
