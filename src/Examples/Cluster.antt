-- ===== src/Examples/Cluster.antt =====
-- internal/raft/election.go: an election in a cluster of three.
use project_distributed_key.Base.{ℕ, ◌≡◌, refl, true, Option, none, some, List, [], ◌∷◌, arith}
use project_distributed_key.Base.Keys.{GoString, str}
use project_distributed_key.Core.Raft.{RequestVoteArgs, RequestVoteReply}
use project_distributed_key.Raft.State.{Raft, Clock, make, get_last_log_term}
use project_distributed_key.Raft.Vote.{
  Election, start_election, on_vote_reply, request_vote, transition_to_leader,
}
use project_distributed_key.Raft.Cluster.{
  Cluster, Reach, here, next, elect, grant, tally, start_cluster, after_elect, after_grant,
  after_tally, election_of,
}
use project_distributed_key.Raft.Cluster.Safety.{one_leader_per_term}

abbrev clock : Clock
clock = record { now = 900; random = 7 }

abbrev addresses : List GoString
addresses = str "n0" ∷ str "n1" ∷ str "n2" ∷ []

abbrev value {ℓ} : {A : Type ℓ} → A → Option A → A
value a none = a
value a (some b) = b

abbrev first_ballot : RequestVoteArgs
first_ballot = record { term = 1; candidate_id = 0; last_log_index = 0; last_log_term = 0 }

unfoldable started : Cluster
started = start_cluster addresses clock

unfoldable election : Raft × Election × RequestVoteArgs
election =
    value (started.peers 0, record { term = 0; votes = 0 }, first_ballot)
      (start_election clock (started.peers 0))

unfoldable asked : Cluster
asked = after_elect started 0 election.0 election.1

unfoldable vote : Raft × RequestVoteReply
vote =
    value (asked.peers 2, record { term = 0; vote_granted = true })
      (request_vote clock (asked.peers 2) election.2)

unfoldable granted : Cluster
granted = after_grant asked 2 vote.0 election.2

unfoldable won : Cluster
won =
    after_tally granted 0 1 2
      (on_vote_reply clock (granted.peers 0) (election_of granted 0 1) vote.1) vote.1.vote_granted

won-Reach : Reach started won
unfolding won granted vote asked election started start_cluster start_election request_vote make
    get_last_log_term
won-Reach =
    next won
      (next granted
        (next asked here (elect clock 0 election.0 election.1 election.2 (omega arith) refl))
        (grant clock 2 election.2 vote.0 vote.1 refl refl))
      (tally clock 0 1 2 vote.1 (omega arith) refl (λ h. refl))

one_leader_per_term_example : ◌≡◌ {A = ℕ} 0 0
unfolding won granted vote asked election started start_cluster start_election request_vote make
    get_last_log_term on_vote_reply transition_to_leader
one_leader_per_term_example = one_leader_per_term addresses clock won 0 0 won-Reach refl refl refl
