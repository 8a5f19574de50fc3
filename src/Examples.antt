-- ===== src/Examples.antt =====
-- Runs at concrete inputs: tests of the definitions, and each conditional result at an input that
-- meets its conditions.
mod Kv
mod Group
mod Peer
mod Cluster
mod Lock
mod Submit
mod Controller
mod Compaction
mod Route
mod Restart
mod Startup
mod Network
