-- ===== src/Examples/Peer.antt =====
-- internal/raft at concrete inputs.
use project_distributed_key.Base.{
  ℕ, ◌≤◌, ◌≡◌, refl, true, none, some, [], ◌∷◌, arith, ◌++◌, if◌then◌else◌, ltb, min, get_elem?,
}
use project_distributed_key.Base.Keys.{str}
use project_distributed_key.Core.Command.{vacant}
use project_distributed_key.Core.Raft.{
  leader, LogEntry, RequestVoteArgs, RequestVoteReply, AppendEntriesArgs, AppendEntriesReply,
}
use project_distributed_key.Raft.State.{
  Raft, Clock, Persister, make, get_last_log_index, get_log_term, get_last_log_term,
}
use project_distributed_key.Raft.Vote.{request_vote}
use project_distributed_key.Raft.Append.{append_entries}
use project_distributed_key.Raft.Replicate.{append_args, on_append_reply, advance_commit}
use project_distributed_key.Raft.Step.{handle, here, next, crash}
use project_distributed_key.Raft.Step.Persistence.{IsDurable, Advances}
use project_distributed_key.Raft.Step.Votes.{Reach-Advances, one_vote_per_term}
use project_distributed_key.Raft.Log.{IsLog}
use project_distributed_key.Raft.Log.Appending.{Holds}
use project_distributed_key.Raft.Round.{append_round}
use project_distributed_key.Raft.Compact.{record_match}
use project_distributed_key.Raft.Log.Repeats.{append_entries_repeated}
use project_distributed_key.Raft.Log.Requests.{append_entries_accepts}
use project_distributed_key.Raft.Majority.{IsLeaderOf}
use project_distributed_key.Raft.Commit.{Committed, advance_commit-Committed}

abbrev clock : Clock
clock = record { now = 5; random = 7 }

abbrev empty_disk : Persister
empty_disk = record { raft_state = none; snapshot = [] }

unfoldable peer : Raft
unfolding make
peer = make (str "n0" ∷ str "n1" ∷ str "n2" ∷ []) 0 empty_disk clock

peer-IsDurable : IsDurable peer
unfolding peer
peer-IsDurable = refl

peer-IsLog : IsLog peer
unfolding peer
peer-IsLog = record { nonempty = omega arith; contiguous = (refl, tt) }

abbrev ballot : RequestVoteArgs
ballot = record { term = 4; candidate_id = 2; last_log_index = 0; last_log_term = 0 }

abbrev yes_vote : RequestVoteReply
yes_vote = record { term = 0; vote_granted = true }

unfoldable voted : Raft
unfolding peer
voted = record peer {
  last_reset = 5;
  election_timeout = 307;
  current_term = 4;
  voted_for = some 2;
  persister = record {
    raft_state = some (record {
      current_term = 4;
      voted_for = some 2;
      log = peer.log;
      last_included_index = 0;
      last_included_term = 0;
    });
    snapshot = [];
  };
}

Reach-Advances_example : Advances peer (make peer.peers peer.me peer.persister clock)
unfolding handle
Reach-Advances_example =
    Reach-Advances peer-IsDurable
      (next clock crash (make peer.peers peer.me peer.persister clock) here refl)

one_vote_per_term_example : ballot.candidate_id ≡ ballot.candidate_id
unfolding voted request_vote get_last_log_term
one_vote_per_term_example =
    one_vote_per_term clock clock peer voted voted voted ballot ballot yes_vote
      (record { term = 4; vote_granted = true }) peer-IsDurable refl refl here refl refl refl

abbrev proposal : LogEntry
proposal = record { term = 4; index = 1; command = vacant }

abbrev append : AppendEntriesArgs
append = record {
  term = 4;
  leader_id = 2;
  prev_log_index = 0;
  prev_log_term = 0;
  entries = proposal ∷ [];
  leader_commit = 1;
}

append_entries_accepts_example :
    (rf' : Raft) × (reply : AppendEntriesReply) × (append_entries clock peer append
      ≡ some (rf', reply))
    × (reply.success ≡ true)
    × (reply.term ≡ peer.current_term)
    × IsLog rf'
    × Holds rf' 1 (proposal ∷ [])
    × ((j : ℕ) → j ≤ 0 → get_log_term rf' j ≡ get_log_term peer j)
    × (rf'.commit_index
        ≡ (if ltb peer.commit_index 1 then min 1 (get_last_log_index rf') else peer.commit_index))
unfolding peer get_log_term
append_entries_accepts_example =
    append_entries_accepts clock peer append peer-IsLog (omega arith) (omega arith) (omega arith)
      refl (refl, tt)

abbrev leading : Raft
leading = record voted {
  role = leader;
  log = voted.log ++ proposal ∷ [];
  match_index = 0 ∷ 1 ∷ 0 ∷ [];
}

leading-IsLog : IsLog leading
unfolding voted
leading-IsLog = record { nonempty = omega arith; contiguous = (refl, (refl, tt)) }

leading-IsLeaderOf : IsLeaderOf leading
unfolding voted peer
leading-IsLeaderOf = record { own = omega arith; slots = refl }

advance_commit-Committed_example :
    (rf' : Raft) × (advance_commit leading ≡ some rf')
    × Committed leading (get_last_log_index leading) rf'
unfolding voted
advance_commit-Committed_example =
    advance_commit-Committed leading leading-IsLog leading-IsLeaderOf (omega arith) (omega arith)

-- The request of the first entry, for a log that has two.
abbrev ahead : Raft
ahead = record leading {
  log = leading.log ++ record { term = 4; index = 2; command = vacant } ∷ [];
}

append_entries_repeated_example :
    (rf' : Raft) × (reply : AppendEntriesReply) × (append_entries clock ahead append
      ≡ some (rf', reply))
    × (reply.success ≡ true)
    × (rf'.log ≡ ahead.log)
    × (rf'.last_included_index ≡ ahead.last_included_index)
unfolding voted get_log_term
append_entries_repeated_example =
    append_entries_repeated clock ahead append (omega arith) (omega arith) (omega arith) refl
      (refl, tt)

abbrev sending : Raft
sending = record leading { next_index = 1 ∷ 1 ∷ 1 ∷ [] }

sending-IsLog : IsLog sending
unfolding voted
sending-IsLog = record { nonempty = omega arith; contiguous = (refl, (refl, tt)) }

sending-IsLeaderOf : IsLeaderOf sending
unfolding voted peer
sending-IsLeaderOf = record { own = omega arith; slots = refl }

append_round_example :
    (args : AppendEntriesArgs) × (f' : Raft) × (reply : AppendEntriesReply) × (rf' : Raft)
    × (append_args sending 2 sending.current_term ≡ some (some args))
    × (append_entries clock peer args ≡ some (f', reply))
    × (on_append_reply clock sending 2 sending.current_term args reply ≡ some rf')
    × (get_log_term f' 1 ≡ get_log_term sending 1)
    × (get_elem? rf'.match_index 2 ≡ some 1)
    × (get_elem? rf'.next_index 2 ≡ some 2)
    × Committed (record_match sending 2 0 1) 1 rf'
unfolding voted peer get_log_term
append_round_example =
    append_round clock clock sending peer 2 1 0 1 sending-IsLog sending-IsLeaderOf peer-IsLog
      (omega arith) (omega arith) refl (omega arith) refl refl (omega arith) (omega arith)
      (omega arith) (omega arith) refl (omega arith) (omega arith)
