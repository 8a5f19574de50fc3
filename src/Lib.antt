-- ===== src/Lib.antt =====
-- Verification of a replicated, sharded key/value store (DistributedKeyValueStore/, in Go).
--
-- The program. A cluster has one metadata server (internal/kvsrv), several shard groups
-- (internal/shardgrp), each replicated by Raft (internal/raft) through a replicated state machine
-- (internal/rsm), and a controller (internal/shardctrler) that moves shards between groups. Clients
-- reach a group through clerks (internal/shardkv, internal/shardgrp), over a network
-- (internal/transport); Raft keeps its state in a persister (internal/persist).
--
-- The files. Base and its children hold what all share; Dict is Go's map; Gob is what is used of
-- encoding/gob. Then, named for the packages below DistributedKeyValueStore/internal/:
--   Core      core/kv.go, shard.go, raft.go, rsm.go: the types of requests, replies and log entries
--   Kvsrv     kvsrv/server.go (Server), client.go (Clerk) and lock.go (Lock); proofs in
--             Server/Cas, Server/Snapshots, Clerk/Effects, Clerk/Contract, Clerk/Resend,
--             Clerk/Moments, Lock/Invariant and Lock/Exclusion
--   Shardgrp  shardgrp/server.go (Server, Handlers) and client.go (Clerk); proofs in
--             Server/Lifecycle, Fencing, Refinement, Migration, Reinstall and Snapshots, and in
--             Clerk/Answers and Returns. Migration also has the calls that the controller makes for
--             one shard
--   Shardctrler  shardctrler/controller.go; proofs in Calls, Effects, Moves, Change and Init.
--             RoundRobin is the assignment that it shares with the command; proofs in Balance
--   Raft      raft/raft.go and persist.go (State, Compact), election.go (Vote), replication.go
--             (Append, Replicate, Apply); Step has all events of a peer as one function, Cluster the
--             elections of several peers. Proofs in Step, Cluster, Log, Majority, Commit, Round,
--             Apply/InOrder and Compact/Keeps
--   Shardkv   shardkv/client.go; proofs in Routing
--   Rsm       rsm/rsm.go; proofs in History, Replies, Missed and Restart
--   Transport transport/local.go (Local) and grpc.go (Pool, Env); proofs in Local/Partitions and
--             Pool/Outcomes, whose outcomes are those of the clerk of kvsrv
--   Shardctrlrd  cmd/shardctrlrd/main.go, its start over the controller in Start; proofs in
--             Flags, Changes and Start/Done
--   Persist   persist/memory.go (Memory) and disk.go (Disk); proofs in Contracts and Disk/Crash
--   Examples  runs at concrete inputs
--
-- State and operations. A mutex-guarded object is a record, and a method that holds the mutex is a
-- function from the record and the request to the new record and the reply. A goroutine that gives
-- the mutex up around an RPC is two functions, one before the call and one for its answer, so every
-- interleaving is a sequence of calls of such functions (Raft.Step.Reach). A Go panic on an index
-- out of range is the result `none`. A reply starts as the zero value of its type.
--
-- Numbers. Versions are uint64 and wrap at 2^64. Terms, log indices, shard and configuration
-- numbers are Go ints that are not negative; each moves by one per election, entry or
-- configuration, so their wrap at 2^63 is not modelled. The source's -1 is `none`. A Go string is
-- its list of bytes.
--
-- Loops. Loops over a list, a map or a counted range are structural recursions on it, so no fuel is
-- chosen. The retry loop of a clerk runs along a schedule of network outcomes, and its result is
-- `none` while the schedule has not let it end. A Put of the clerk of kvsrv may also be executed
-- after its call has failed.
--
-- Not modelled: time (a clock reading is an argument), spawning and sleeping (any event may come at
-- any time), the bytes of gob and JSON (Raft's saved state is the tuple that is encoded; elsewhere
-- encoding and decoding are the parameter Gob), the server side of the transport, the metrics and
-- the other commands, which only parse flags and start goroutines. Which group a list of server
-- addresses reaches is the parameter `locate`. Group numbers are signed where the flag of the
-- command is parsed, and taken as not negative behind it.
pub mod Base
pub mod Dict
pub mod Gob
pub mod Core
pub mod Kvsrv
pub mod Shardgrp
pub mod Raft
pub mod Rsm
pub mod Persist
pub mod Shardctrler
pub mod Shardkv
pub mod Transport
pub mod Shardctrlrd
pub mod Examples
