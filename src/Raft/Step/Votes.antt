-- ===== src/Raft/Step/Votes.antt =====
-- internal/raft/election.go: a peer votes for one candidate in a term, whatever happens between.
use project_distributed_key.Base.{ℕ, ◌≤◌, ◌≡◌, refl, true, some, arith}
use project_distributed_key.Core.Raft.{RequestVoteArgs, RequestVoteReply}
use project_distributed_key.Raft.State.{Raft, Clock}
use project_distributed_key.Raft.Vote.{request_vote}
use project_distributed_key.Raft.Step.{Reach, here, next}
use project_distributed_key.Raft.Step.Persistence.{
  IsDurable, Advances, Advances-trans, request_vote-Advances,
}
use project_distributed_key.Raft.Step.Persistence.Others.{handle-Advances}

-- Along any history, crashes included, the term never falls, a vote given in a term stays while
-- the term does, and the persister always holds the current term, vote and log.
pub Reach-Advances : {a b : Raft} → IsDurable a → Reach a b → Advances a b
Reach-Advances d here = record {
  terms = omega arith;
  votes = λ v e h. h;
  durable = d;
  same_peers = refl;
  same_me = refl;
}
Reach-Advances d (next {b = b} c e b' r h) =
    let before = Reach-Advances d r in
    Advances-trans before (handle-Advances c b e b' before.durable h)

-- What a granted vote says of the peer before and after.
pub granted :
    (c : Clock) (rf rf' : Raft) (args : RequestVoteArgs) (reply : RequestVoteReply)
    → request_vote c rf args ≡ some (rf', reply)
    → reply.vote_granted ≡ true
    → (rf.current_term ≤ args.term)
      × (rf'.current_term ≡ args.term)
      × (rf'.voted_for ≡ some args.candidate_id)
unfolding request_vote
granted c rf rf' args reply e g = ground arith

pub granted_again :
    (c : Clock) (rf rf' : Raft) (args : RequestVoteArgs) (reply : RequestVoteReply) (v : ℕ)
    → request_vote c rf args ≡ some (rf', reply)
    → reply.vote_granted ≡ true
    → args.term ≤ rf.current_term
    → rf.voted_for ≡ some v
    → v ≡ args.candidate_id
unfolding request_vote
granted_again c rf rf' args reply v e g old voted = ground arith

-- A peer whose state is saved grants its vote to one candidate at most in a term: two requests of
-- the same term that it grants, with any events between them, crashes included, name one candidate.
pub one_vote_per_term :
    (c c' : Clock) (a b after later : Raft) (first second : RequestVoteArgs)
    (reply reply' : RequestVoteReply)
    → IsDurable a
    → request_vote c a first ≡ some (after, reply)
    → reply.vote_granted ≡ true
    → Reach after b
    → request_vote c' b second ≡ some (later, reply')
    → reply'.vote_granted ≡ true
    → first.term ≡ second.term
    → first.candidate_id ≡ second.candidate_id
one_vote_per_term c c' a b after later first second reply reply' d e g r e' g' same =
    let (_, term, vote) = granted c a after first reply e g in
    let (low, _, _) = granted c' b later second reply' e' g' in
    let way = Reach-Advances (request_vote-Advances c a first (after, reply) d e).durable r in
    granted_again c' b later second reply' first.candidate_id e' g' (omega (arith, way.terms))
      (way.votes first.candidate_id (omega (arith, way.terms)) vote)
