-- ===== src/Core/Raft.antt =====
-- internal/core/raft.go. Terms and indices, Go `int`s that are never negative and never near 2^63,
-- are natural numbers; -1 for "none" is `none`.
use project_distributed_key.Base.{ℕ, List, Option, Bool}
use project_distributed_key.Base.Keys.{GoString}
use project_distributed_key.Core.Command.{Command}

pub data RaftRole : Type 0 where
  follower candidate leader : RaftRole

pub record LogEntry : Type 0 where
  pub term : ℕ
  pub index : ℕ
  pub command : Command

pub data ApplyMsg : Type 0 where
  command_msg : Command → ℕ → ApplyMsg  -- Command, CommandIndex
  snapshot_msg : GoString → ℕ → ℕ → ApplyMsg  -- Snapshot, SnapshotTerm, SnapshotIndex

pub record RequestVoteArgs : Type 0 where
  pub term : ℕ
  pub candidate_id : ℕ
  pub last_log_index : ℕ
  pub last_log_term : ℕ

pub record RequestVoteReply : Type 0 where
  pub term : ℕ
  pub vote_granted : Bool

pub record AppendEntriesArgs : Type 0 where
  pub term : ℕ
  pub leader_id : ℕ
  pub prev_log_index : ℕ
  pub prev_log_term : ℕ
  pub entries : List LogEntry
  pub leader_commit : ℕ

-- XTerm and XIndex are -1 where the follower's log is too short.
pub record AppendEntriesReply : Type 0 where
  pub term : ℕ
  pub success : Bool
  pub x_term : Option ℕ
  pub x_index : Option ℕ
  pub x_len : ℕ

pub record InstallSnapshotArgs : Type 0 where
  pub term : ℕ
  pub leader_id : ℕ
  pub last_included_index : ℕ
  pub last_included_term : ℕ
  pub snapshot : GoString

pub record InstallSnapshotReply : Type 0 where
  pub term : ℕ
