-- ===== src/Raft/Cluster/Invariant/Events.antt =====
-- internal/raft/election.go: each event keeps what holds of a voter and of a candidate.
use project_distributed_key.Base.{
  ℕ, ◌+◌, ◌≡◌, sym, ◌∙◌, ap, Bool, true, false, Option, some, length, update, nat_beq, arith, inl,
  inr, Bool-cases,
}
use project_distributed_key.Core.Raft.{RequestVoteArgs, RequestVoteReply}
use project_distributed_key.Raft.State.{Raft, Clock, is_leader}
use project_distributed_key.Raft.Vote.{Election, start_election, request_vote}
use project_distributed_key.Raft.Step.Persistence.{
  Advances, start_election-Advances, request_vote-Advances,
}
use project_distributed_key.Raft.Step.Votes.{granted, granted_again}
use project_distributed_key.Raft.Step.Leads.{Leads}
use project_distributed_key.Raft.Cluster.Invariant.{Voter, Candidate}

-- A peer that only goes forward keeps its promises.
pub Advances-Voter :
    {n i : ℕ} {cast : ℕ → Option ℕ} {rf rf' : Raft}
    → Voter n i cast rf
    → Advances rf rf'
    → Voter n i cast rf'
Advances-Voter {cast = cast} {rf = rf} {rf' = rf'} v a = record {
  durable = a.durable;
  me = a.same_me ∙ v.me;
  members = ap length a.same_peers ∙ v.members;
  past = λ t w h. omega (arith, v.past t w h, a.terms);
  now = λ w h.
      let back = v.past _ w h in
      let ahead = a.terms in
      let same : rf.current_term ≡ rf'.current_term = omega arith in
      a.votes w same (v.now w (ap cast same ∙ h));
}

pub Leads-Candidate :
    {n : ℕ} {counted : ℕ → ℕ → Bool} {tallies : ℕ → ℕ} {rf rf' : Raft}
    → Candidate n counted tallies rf
    → Leads rf rf'
    → Candidate n counted tallies rf'
Leads-Candidate c l = record {
  tallied = c.tallied;
  majority = λ h. rw (sym (l.term h)) (c.majority (l.led h));
}

pub elect-Voter :
    {n i : ℕ} {cast : ℕ → Option ℕ} {rf rf' : Raft} (c : Clock) (e : Election)
    (args : RequestVoteArgs)
    → Voter n i cast rf
    → start_election c rf ≡ some (rf', e, args)
    → Voter n i (update cast e.term (some i)) rf'
unfolding start_election
elect-Voter {i = i} {cast = cast} {rf = rf} {rf' = rf'} c e args v h =
    let a = start_election-Advances c rf (rf', e, args) h in
    let term : rf'.current_term ≡ e.term = ground arith in
    let vote : rf'.voted_for ≡ some i = ground (arith, v.me) in
    let later : rf'.current_term ≡ rf.current_term + 1 = ground arith in
    record {
      durable = a.durable;
      me = a.same_me ∙ v.me;
      members = ap length a.same_peers ∙ v.members;
      past = λ t w k. elim (Bool-cases (nat_beq e.term t)) [
        | inl here ↦ ground arith
        | inr there ↦ let k' = v.past t w (ground arith) in ground arith
      ];
      now = λ w k. ground arith;
    }

pub grant-Voter :
    {n j : ℕ} {cast : ℕ → Option ℕ} {rf rf' : Raft} (c : Clock) (args : RequestVoteArgs)
    (reply : RequestVoteReply)
    → Voter n j cast rf
    → request_vote c rf args ≡ some (rf', reply)
    → reply.vote_granted ≡ true
    → Voter n j (update cast args.term (some args.candidate_id)) rf'
grant-Voter {cast = cast} {rf = rf} {rf' = rf'} c args reply v h g =
    let a = request_vote-Advances c rf args (rf', reply) v.durable h in
    let (low, term, vote) = granted c rf rf' args reply h g in
    record {
      durable = a.durable;
      me = a.same_me ∙ v.me;
      members = ap length a.same_peers ∙ v.members;
      past = λ t w k. elim (Bool-cases (nat_beq args.term t)) [
        | inl here ↦ ground arith
        | inr there ↦ let k' = v.past t w (ground arith) in ground arith
      ];
      now = λ w k. ground arith;
    }

-- A vote that is granted is the first of its term, or the same again.
pub grant-same :
    {n j : ℕ} {cast : ℕ → Option ℕ} {rf rf' : Raft} (c : Clock) (args : RequestVoteArgs)
    (reply : RequestVoteReply) (w : ℕ)
    → Voter n j cast rf
    → request_vote c rf args ≡ some (rf', reply)
    → reply.vote_granted ≡ true
    → cast args.term ≡ some w
    → w ≡ args.candidate_id
grant-same {cast = cast} {rf = rf} {rf' = rf'} c args reply w v h g old =
    let (low, _, _) = granted c rf rf' args reply h g in
    let back = v.past args.term w old in
    let same : args.term ≡ rf.current_term = omega arith in
    let voted = v.now w (sym (ap cast same) ∙ old) in
    granted_again c rf rf' args reply w h g back voted

pub request_vote-Leads :
    (c : Clock) (rf rf' : Raft) (args : RequestVoteArgs) (reply : RequestVoteReply)
    → request_vote c rf args ≡ some (rf', reply)
    → Leads rf rf'
unfolding request_vote
request_vote-Leads c rf rf' args reply h = record {
  led = λ l. ground arith;
  term = λ l. ground arith;
}

pub start_election-begins :
    (c : Clock) (rf rf' : Raft) (e : Election) (args : RequestVoteArgs)
    → start_election c rf ≡ some (rf', e, args)
    → (e.votes ≡ 1) × (e.term ≡ rf.current_term + 1) × (is_leader rf'.role ≡ false)
unfolding start_election
start_election-begins c rf rf' e args h = ground arith
