-- ===== src/Transport.antt =====
-- internal/transport: the network in memory and the network of pooled connections.
pub mod Local
pub mod Pool
pub mod Env
