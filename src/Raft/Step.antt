-- ===== src/Raft/Step.antt =====
-- internal/raft: everything that can happen to a peer, as one event at a time. A crash loses what
-- is not in the persister and starts the peer again with Make.
pub mod Persistence
pub mod Votes
pub mod Leads
use project_distributed_key.Base.{ℕ, ◌≡◌, Option, none, some}
use project_distributed_key.Base.Keys.{GoString}
use project_distributed_key.Base.Options.{◌>>=◌}
use project_distributed_key.Core.Command.{Command}
use project_distributed_key.Core.Raft.{
  RequestVoteArgs, RequestVoteReply, AppendEntriesArgs, AppendEntriesReply, InstallSnapshotArgs,
  InstallSnapshotReply,
}
use project_distributed_key.Raft.State.{Raft, Clock, make}
use project_distributed_key.Raft.Vote.{Election, start_election, on_vote_reply, request_vote}
use project_distributed_key.Raft.Append.{append_entries}
use project_distributed_key.Raft.Compact.{take_snapshot, install_snapshot, on_snapshot_reply}
use project_distributed_key.Raft.Replicate.{start, on_append_reply}
use project_distributed_key.Raft.Apply.{apply}

pub data Event : Type 0 where
  timeout apply_wakeup crash : Event
  vote_request : RequestVoteArgs → Event
  vote_reply : Election → RequestVoteReply → Event
  append_request : AppendEntriesArgs → Event
  append_reply : ℕ → ℕ → AppendEntriesArgs → AppendEntriesReply → Event
  snapshot_request : InstallSnapshotArgs → Event
  snapshot_reply : ℕ → ℕ → InstallSnapshotArgs → InstallSnapshotReply → Event
  propose : Command → Event
  compact : ℕ → GoString → Event

-- The state after the event; `none` is a panic.
unfoldable pub handle : Clock → Raft → Event → Option Raft
handle c rf timeout = (start_election c rf >>= λ r. some r.0)
handle c rf apply_wakeup = (apply rf >>= λ r. some r.0)
handle c rf crash = some (make rf.peers rf.me rf.persister c)
handle c rf (vote_request args) = (request_vote c rf args >>= λ r. some r.0)
handle c rf (vote_reply e reply) = some (on_vote_reply c rf e reply).0
handle c rf (append_request args) = (append_entries c rf args >>= λ r. some r.0)
handle c rf (append_reply peer term args reply) = on_append_reply c rf peer term args reply
handle c rf (snapshot_request args) = (install_snapshot c rf args >>= λ r. some r.0)
handle c rf (snapshot_reply peer term args reply) = on_snapshot_reply c rf peer term args reply
handle c rf (propose command) = some (start rf command).0
handle c rf (compact index snapshot) = take_snapshot rf index snapshot

-- A history of a peer: each event with the clock at its time.
pub data Reach (a : Raft) : Raft → Type 0 where
  here : Reach a a
  next :
      {b : Raft} (c : Clock) (e : Event) (b' : Raft)
      → Reach a b
      → handle c b e ≡ some b'
      → Reach a b'
