-- ===== src/Raft/Cluster.antt =====
-- internal/raft/election.go across a cluster: elections as interleaved steps of all peers. The
-- network may delay, repeat, lose and forge messages, except that a granted vote comes from a peer
-- that cast it, and is answered to a goroutine once.
pub mod Counting
pub mod Invariant
pub mod Safety
use project_distributed_key.Base.{
  ℕ, zero, suc, ◌<◌, ◌≡◌, Bool, true, false, Option, none, some, if◌then◌else◌, update,
}
use project_distributed_key.Base.Keys.{GoString}
use project_distributed_key.Core.Raft.{RequestVoteArgs, RequestVoteReply}
use project_distributed_key.Base.{List, [], length}
use project_distributed_key.Raft.State.{Raft, Clock, make}
use project_distributed_key.Raft.Vote.{Election, start_election, on_vote_reply, request_vote}
use project_distributed_key.Raft.Step.{Event, handle}
use project_distributed_key.Raft.Step.Leads.{IsOther}

pub record Cluster : Type 0 where
  pub size : ℕ
  pub peers : ℕ → Raft
  pub tallies : ℕ → ℕ → ℕ  -- the variable `votes` of a candidate's election of a term
  pub counted : ℕ → ℕ → ℕ → Bool  -- candidate, term, voter: the vote has been handled
  pub cast : ℕ → ℕ → Option ℕ  -- voter, term: the candidate that was granted the vote

abbrev pub update_at {ℓ} : {A : Type ℓ} → (ℕ → ℕ → A) → ℕ → ℕ → A → ℕ → ℕ → A
update_at f i j v = update f i (update (f i) j v)

abbrev pub mark_counted : (ℕ → ℕ → ℕ → Bool) → ℕ → ℕ → ℕ → ℕ → ℕ → ℕ → Bool
mark_counted f i t j = update_at f i t (update (f i t) j true)

abbrev pub replace : Cluster → ℕ → Raft → Cluster
replace a i rf = record a { peers = update a.peers i rf }

abbrev pub after_elect : Cluster → ℕ → Raft → Election → Cluster
after_elect a i rf e = record (replace a i rf) {
  tallies = update_at a.tallies i e.term e.votes;
  counted = mark_counted a.counted i e.term i;
  cast = update_at a.cast i e.term (some i);
}

abbrev pub after_grant : Cluster → ℕ → Raft → RequestVoteArgs → Cluster
after_grant a j rf args = record (replace a j rf) {
  cast = update_at a.cast j args.term (some args.candidate_id);
}

abbrev pub after_tally : Cluster → ℕ → ℕ → ℕ → Raft × Election → Bool → Cluster
after_tally a i t j r vote_granted = record (replace a i r.0) {
  tallies = update_at a.tallies i t r.1.votes;
  counted = if vote_granted then mark_counted a.counted i t j else a.counted;
}

abbrev pub election_of : Cluster → ℕ → ℕ → Election
election_of a i t = record { term = t; votes = a.tallies i t }

pub data Step (a : Cluster) : Cluster → Type 0 where
  elect :
      (c : Clock) (i : ℕ) (rf : Raft) (e : Election) (args : RequestVoteArgs)
      → i < a.size
      → start_election c (a.peers i) ≡ some (rf, e, args)
      → Step a (after_elect a i rf e)
  grant :
      (c : Clock) (j : ℕ) (args : RequestVoteArgs) (rf : Raft) (reply : RequestVoteReply)
      → request_vote c (a.peers j) args ≡ some (rf, reply)
      → reply.vote_granted ≡ true
      → Step a (after_grant a j rf args)
  refuse :
      (c : Clock) (j : ℕ) (args : RequestVoteArgs) (rf : Raft) (reply : RequestVoteReply)
      → request_vote c (a.peers j) args ≡ some (rf, reply)
      → reply.vote_granted ≡ false
      → Step a (replace a j rf)
  tally :
      (c : Clock) (i t j : ℕ) (reply : RequestVoteReply)
      → j < a.size
      → a.counted i t j ≡ false
      → (reply.vote_granted ≡ true → a.cast j t ≡ some i)
      → Step a (
          after_tally a i t j
            (on_vote_reply c (a.peers i) (election_of a i t) reply)
            reply.vote_granted)
  other :
      (c : Clock) (i : ℕ) (e : Event) (rf : Raft)
      → IsOther e
      → handle c (a.peers i) e ≡ some rf
      → Step a (replace a i rf)

pub data Reach (a : Cluster) : Cluster → Type 0 where
  here : Reach a a
  next : {b : Cluster} (b' : Cluster) → Reach a b → Step b b' → Reach a b'

-- Every peer starts from an empty persister.
unfoldable pub start_cluster : List GoString → Clock → Cluster
start_cluster addresses c = record {
  size = length addresses;
  peers = λ i. make addresses i (record { raft_state = none; snapshot = [] }) c;
  tallies = λ i t. 0;
  counted = λ i t j. false;
  cast = λ j t. none;
}
