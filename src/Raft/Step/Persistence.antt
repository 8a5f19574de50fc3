-- ===== src/Raft/Step/Persistence.antt =====
-- internal/raft: terms and votes only move forward, and the persister keeps up. Here the handlers
-- of requests and of elections; the child module has the others.
pub mod Others
use project_distributed_key.Base.{
  ℕ, zero, suc, ◌+◌, ◌-◌, ◌≤◌, ◌≡◌, refl, Bool, true, false, Option, none, some, List, [], ◌∷◌,
  arith, ◌∙◌, inl, inr, Option-cases, Bool-cases, ltb, get_elem?, length,
}
use project_distributed_key.Base.Options.{◌>>=◌}
use project_distributed_key.Core.Raft.{
  LogEntry, RequestVoteArgs, RequestVoteReply, AppendEntriesArgs, AppendEntriesReply,
  InstallSnapshotArgs, InstallSnapshotReply, ApplyMsg,
}
use project_distributed_key.Raft.State.{
  Raft, RaftPersistState, Clock, make, serialize_state, is_leader, dummy, get_last_log_index,
}
use project_distributed_key.Raft.Vote.{
  Election, start_election, on_vote_reply, request_vote, transition_to_leader,
}
use project_distributed_key.Raft.Append.{
  append_entries, append_loop, append_one, accept_leader, check_and_append, follow_commit,
}
use project_distributed_key.Raft.Compact.{
  take_snapshot, install_snapshot, on_snapshot_reply, record_match,
}
use project_distributed_key.Raft.Replicate.{
  start, on_append_reply, commit_loop, advance_commit, backtrack,
}
use project_distributed_key.Raft.Apply.{apply, drain}
use project_distributed_key.Core.Command.{Command}
use project_distributed_key.Base.Keys.{GoString}
use project_distributed_key.Raft.Step.{
  Event, timeout, apply_wakeup, crash, vote_request, vote_reply, append_request, append_reply,
  snapshot_request, snapshot_reply, propose, compact, handle, Reach, here, next,
}

-- What Make starts from for the bytes of the persister.
abbrev pub load : Option RaftPersistState → RaftPersistState
load none = record {
  current_term = 0;
  voted_for = none;
  log = dummy 0 0 ∷ [];
  last_included_index = 0;
  last_included_term = 0;
}
load (some d) = d

-- The persister holds the peer's persistent state.
abbrev pub IsDurable : Raft → Type 0
IsDurable rf = load rf.persister.raft_state ≡ serialize_state rf

pub record Advances (a b : Raft) : Type 0 where
  pub terms : a.current_term ≤ b.current_term
  pub votes :
      (v : ℕ) → a.current_term ≡ b.current_term → a.voted_for ≡ some v → b.voted_for ≡ some v
  pub durable : IsDurable b
  pub same_peers : b.peers ≡ a.peers
  pub same_me : b.me ≡ a.me

pub Advances-trans : {a b c : Raft} → Advances a b → Advances b c → Advances a c
Advances-trans p q = record {
  terms = omega (arith, p.terms, q.terms);
  votes = λ v e h.
      q.votes v (omega (arith, p.terms, q.terms)) (p.votes v (omega (arith, p.terms, q.terms)) h);
  durable = q.durable;
  same_peers = (q.same_peers ∙ p.same_peers);
  same_me = (q.same_me ∙ p.same_me);
}

pub start_election-Advances :
    (c : Clock) (rf : Raft) (r : Raft × Election × RequestVoteArgs)
    → start_election c rf ≡ some r
    → Advances rf r.0
unfolding start_election
start_election-Advances c rf r e = record {
  terms = ground arith;
  votes = λ v same h. ground arith;
  durable = ground arith;
  same_peers = ground arith;
  same_me = ground arith;
}

pub on_vote_reply-Advances :
    (c : Clock) (rf : Raft) (e : Election) (reply : RequestVoteReply)
    → IsDurable rf
    → Advances rf (on_vote_reply c rf e reply).0
unfolding on_vote_reply transition_to_leader
on_vote_reply-Advances c rf e reply d = record {
  terms = ground arith;
  votes = λ v same h. ground arith;
  durable = ground arith;
  same_peers = ground arith;
  same_me = ground arith;
}

pub request_vote-Advances :
    (c : Clock) (rf : Raft) (args : RequestVoteArgs) (r : Raft × RequestVoteReply)
    → IsDurable rf
    → request_vote c rf args ≡ some r
    → Advances rf r.0
unfolding request_vote
request_vote-Advances c rf args r d e = record {
  terms = ground arith;
  votes = λ v same h. ground arith;
  durable = ground arith;
  same_peers = ground arith;
  same_me = ground arith;
}

pub accept_leader-Advances :
    (c : Clock) (rf : Raft) (term : ℕ) → IsDurable rf → Advances rf (accept_leader c rf term)
unfolding accept_leader
accept_leader-Advances c rf term d = record {
  terms = ground arith;
  votes = λ v same h. ground arith;
  durable = ground arith;
  same_peers = ground arith;
  same_me = ground arith;
}

-- What leaves the term and the vote alone, and the persister up to date.
pub record SameVote (a b : Raft) : Type 0 where
  pub term : b.current_term ≡ a.current_term
  pub vote : b.voted_for ≡ a.voted_for
  pub durable : IsDurable b
  pub same_peers : b.peers ≡ a.peers
  pub same_me : b.me ≡ a.me
  pub leads : is_leader b.role ≡ true → is_leader a.role ≡ true

pub SameVote-Advances : {a b : Raft} → SameVote a b → Advances a b
SameVote-Advances s = record {
  terms = omega (arith, s.term);
  votes = λ v e h. s.vote ∙ h;
  durable = s.durable;
  same_peers = s.same_peers;
  same_me = s.same_me;
}

append_one-SameVote :
    (rf : Raft) (last idx : ℕ) (entry : LogEntry) (r : Raft × ℕ)
    → IsDurable rf
    → append_one rf last idx entry ≡ some r
    → SameVote rf r.0
unfolding append_one
append_one-SameVote rf last idx entry r d e = record {
  term = ground arith;
  vote = ground arith;
  durable = ground arith;
  same_peers = ground arith;
  same_me = ground arith;
  leads = λ h. ground arith;
}

append_loop-SameVote :
    (rf : Raft) (last idx : ℕ) (entries : List LogEntry) (r : Raft × ℕ)
    → IsDurable rf
    → append_loop rf last idx entries ≡ some r
    → SameVote rf r.0
unfolding append_loop
append_loop-SameVote rf last idx [] r d e = record {
  term = ground arith;
  vote = ground arith;
  durable = ground arith;
  same_peers = ground arith;
  same_me = ground arith;
  leads = λ h. ground arith;
}
append_loop-SameVote rf last idx (entry ∷ entries) r d e =
    elim (Option-cases (append_one rf last idx entry)) [
      | inl panicked ↦ absurd (ground arith)
      | inr ((rf', last'), one) ↦
          let step = append_one-SameVote rf last idx entry (rf', last') d one in
          let rest =
            append_loop-SameVote rf' last' (idx + 1) entries r step.durable (ground arith) in
          record {
            term = rest.term ∙ step.term;
            vote = rest.vote ∙ step.vote;
            durable = rest.durable;
            same_peers = rest.same_peers ∙ step.same_peers;
            same_me = rest.same_me ∙ step.same_me;
            leads = λ h. step.leads (rest.leads h);
          }
    ]

pub check_and_append-SameVote :
    (rf : Raft) (term : ℕ) (args : AppendEntriesArgs) (r : Raft × AppendEntriesReply)
    → IsDurable rf
    → check_and_append rf term args ≡ some r
    → SameVote rf r.0
unfolding check_and_append follow_commit
check_and_append-SameVote rf term args r d e =
    let last = get_last_log_index rf in
    elim (Option-cases (append_loop rf last (args.prev_log_index + 1) args.entries)) [
      | inl panicked ↦ record {
        term = ground arith;
        vote = ground arith;
        durable = ground arith;
        same_peers = ground arith;
        same_me = ground arith;
        leads = λ h. ground arith;
      }
      | inr (x, ran) ↦
          let s = append_loop-SameVote rf last (args.prev_log_index + 1) args.entries x d ran in
          record {
            term = ground (arith, s.term);
            vote = ground (arith, s.vote);
            durable = ground (arith, s.durable);
            same_peers = ground (arith, s.same_peers);
            same_me = ground (arith, s.same_me);
            leads = λ h. ground (arith, s.leads);
          }
    ]

pub append_entries-Advances :
    (c : Clock) (rf : Raft) (args : AppendEntriesArgs) (r : Raft × AppendEntriesReply)
    → IsDurable rf
    → append_entries c rf args ≡ some r
    → Advances rf r.0
unfolding append_entries
append_entries-Advances c rf args r d e = elim (Bool-cases (ltb args.term rf.current_term)) [
  | inl old ↦ record {
    terms = ground arith;
    votes = λ v same h. ground arith;
    durable = ground arith;
    same_peers = ground arith;
    same_me = ground arith;
  }
  | inr current ↦
      let down = accept_leader-Advances c rf args.term d in
      Advances-trans down (
        SameVote-Advances (
          check_and_append-SameVote (accept_leader c rf args.term) rf.current_term args r
            down.durable (ground arith)))
]

pub install_snapshot-Advances :
    (c : Clock) (rf : Raft) (args : InstallSnapshotArgs) (r : Raft × InstallSnapshotReply)
    → IsDurable rf
    → install_snapshot c rf args ≡ some r
    → Advances rf r.0
unfolding install_snapshot
install_snapshot-Advances c rf args r d e =
    let down = accept_leader-Advances c rf args.term d in
    elim (Bool-cases (ltb args.term rf.current_term)) [
      | inl old ↦ record {
        terms = ground arith;
        votes = λ v same h. ground arith;
        durable = ground arith;
        same_peers = ground arith;
        same_me = ground arith;
      }
      | inr current ↦
          let kept = down.durable in
          Advances-trans down (
            SameVote-Advances (record {
              term = ground arith;
              vote = ground arith;
              durable = ground (arith, kept);
              same_peers = ground (arith, kept);
              same_me = ground (arith, kept);
              leads = λ h. ground (arith, kept);
            }))
    ]
