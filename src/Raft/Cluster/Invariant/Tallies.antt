-- ===== src/Raft/Cluster/Invariant/Tallies.antt =====
-- internal/raft/election.go: counting a vote keeps what holds of a candidate.
use project_distributed_key.Base.{
  ℕ, ◌+◌, ◌/◌, ◌≤◌, ◌<◌, ◌≡◌, subst, Bool, true, false, length, update, nat_beq, arith, ◌⊎◌, inl,
  inr, Bool-cases, nat_beq_iff,
}
use project_distributed_key.Core.Raft.{RequestVoteReply}
use project_distributed_key.Raft.State.{Raft, Clock, is_leader}
use project_distributed_key.Raft.Vote.{Election, on_vote_reply, transition_to_leader}
use project_distributed_key.Raft.Cluster.Counting.{count_below, count_more, count_mono}
use project_distributed_key.Raft.Cluster.Invariant.{Candidate}

-- How a peer leads after it has handled a reply: it did, or this vote makes a majority.
pub on_vote_reply-leads :
    (c : Clock) (rf : Raft) (e : Election) (reply : RequestVoteReply)
    → is_leader (on_vote_reply c rf e reply).0.role ≡ true
    → ((is_leader rf.role ≡ true) × ((on_vote_reply c rf e reply).0.current_term ≡ rf.current_term))
      ⊎ (((on_vote_reply c rf e reply).0.current_term ≡ e.term)
          × (reply.vote_granted ≡ true)
          × (length rf.peers / 2 < e.votes + 1))
unfolding on_vote_reply transition_to_leader
on_vote_reply-leads c rf e reply h = ground arith

pub on_vote_reply-refused :
    (c : Clock) (rf : Raft) (e : Election) (reply : RequestVoteReply)
    → reply.vote_granted ≡ false
    → (on_vote_reply c rf e reply).1 ≡ e
unfolding on_vote_reply
on_vote_reply-refused c rf e reply h = ground arith

pub on_vote_reply-votes :
    (c : Clock) (rf : Raft) (e : Election) (reply : RequestVoteReply)
    → (on_vote_reply c rf e reply).1.votes ≤ e.votes + 1
unfolding on_vote_reply
on_vote_reply-votes c rf e reply = ground arith

-- The marks of one term more.
pub mark-keeps :
    (f : ℕ → ℕ → Bool) (t j : ℕ) (u k : ℕ)
    → f u k ≡ true
    → update f t (update (f t) j true) u k ≡ true
mark-keeps f t j u k h = elim (Bool-cases (nat_beq t u)) [
  | inl here ↦
      let same : t ≡ u = (nat_beq_iff t u).0 here in
      let h' : f t k ≡ true = rw same h in ground arith
  | inr there ↦ ground arith
]

pub mark-is : (f : ℕ → ℕ → Bool) (t j : ℕ) → update f t (update (f t) j true) t j ≡ true
mark-is f t j = ground arith

-- Marking `j` in the term `t` makes room for one vote more in that term.
pub mark-Candidate :
    {n : ℕ} {counted : ℕ → ℕ → Bool} {tallies : ℕ → ℕ} {rf rf' : Raft} (t j votes : ℕ)
    → Candidate n counted tallies rf
    → j < n
    → counted t j ≡ false
    → votes ≤ tallies t + 1
    → (is_leader rf'.role ≡ true
        → ((is_leader rf.role ≡ true) × (rf'.current_term ≡ rf.current_term))
          ⊎ ((rf'.current_term ≡ t) × (n / 2 < tallies t + 1)))
    → Candidate n (update counted t (update (counted t) j true)) (update tallies t votes) rf'
mark-Candidate {n = n} {counted = f} {tallies = tallies} {rf = rf} {rf' = rf'} t j votes c l new few
      led =
    let f' = update f t (update (f t) j true) in
    let more : count_below n (f t) < count_below n (f' t) =
      count_more n (f t) (f' t) j l (mark-keeps f t j t) new (mark-is f t j) in
    let grows : (u : ℕ) → count_below n (f u) ≤ count_below n (f' u) =
      λ u. count_mono n (f u) (f' u) (mark-keeps f t j u) in
    let now = c.tallied t in
    record {
      tallied = λ u. elim (Bool-cases (nat_beq t u)) [
        | inl here ↦
            let same : t ≡ u = (nat_beq_iff t u).0 here in
            subst (λ k. update tallies t votes k ≤ count_below n (f' k)) same
              (let set : update tallies t votes t ≡ votes = ground arith in omega arith)
        | inr there ↦
            let old = c.tallied u in
            let grown = grows u in
            let kept : update tallies t votes u ≡ tallies u = ground arith in omega arith
      ];
      majority = λ h. elim (led h) [
        | inl (before, same) ↦
            let old = c.majority before in
            let grown = grows rf.current_term in rw same (omega arith)
        | inr (same, enough) ↦ rw same (omega arith)
      ];
    }

-- A reply that is no vote.
pub keep-Candidate :
    {n : ℕ} {counted : ℕ → ℕ → Bool} {tallies : ℕ → ℕ} {rf rf' : Raft} (t votes : ℕ)
    → Candidate n counted tallies rf
    → votes ≡ tallies t
    → (is_leader rf'.role ≡ true
        → (is_leader rf.role ≡ true) × (rf'.current_term ≡ rf.current_term))
    → Candidate n counted (update tallies t votes) rf'
keep-Candidate {n = n} {counted = f} {tallies = tallies} t votes c same led = record {
  tallied = λ u. elim (Bool-cases (nat_beq t u)) [
    | inl here ↦
        let same' : t ≡ u = (nat_beq_iff t u).0 here in
        subst (λ k. update tallies t votes k ≤ count_below n (f k)) same'
          (let set : update tallies t votes t ≡ votes = ground arith in
            let now = c.tallied t in omega arith)
    | inr there ↦
        let old = c.tallied u in
        let kept : update tallies t votes u ≡ tallies u = ground arith in omega arith
  ];
  majority = λ h. let (before, same') = led h in rw same' (c.majority before);
}
