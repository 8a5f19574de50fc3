-- ===== src/Raft/Vote.antt =====
-- internal/raft/election.go. `none` is Go's panic on an index out of range. An election's `votes` is
-- the variable that its reply handlers share.
use project_distributed_key.Base.{
  ℕ, ◌+◌, ◌/◌, Bool, true, false, not, ◌&&◌, ◌||◌, Option, none, some, if◌then◌else◌, nat_beq, ltb,
  leb, length, replicate,
}
use project_distributed_key.Base.Options.{◌>>=◌}
use project_distributed_key.Core.Raft.{candidate, leader, RequestVoteArgs, RequestVoteReply}
use project_distributed_key.Raft.State.{
  Raft, Clock, is_leader, is_candidate, get_last_log_index, get_last_log_term,
  reset_election_timeout, persist, become_follower,
}

pub record Election : Type 0 where
  pub term : ℕ
  pub votes : ℕ

-- The test of `ticker`.
unfoldable pub election_due : Clock → Raft → Bool
election_due c rf = not (is_leader rf.role) && ltb (rf.last_reset + rf.election_timeout) c.now

-- startElection up to the calls: the new state, the votes counted so far, and the request.
unfoldable pub start_election : Clock → Raft → Option (Raft × Election × RequestVoteArgs)
start_election c rf =
    let rf' = reset_election_timeout c (
      persist (record rf {
        current_term = rf.current_term + 1;
        role = candidate;
        voted_for = some rf.me;
      })) in
    (get_last_log_term rf' >>= λ last_log_term. some (
      rf',
      record { term = rf'.current_term; votes = 1 },
      record {
        term = rf'.current_term;
        candidate_id = rf'.me;
        last_log_index = get_last_log_index rf';
        last_log_term = last_log_term;
      },
    ))

unfoldable pub transition_to_leader : Raft → Raft
transition_to_leader rf = record rf {
  role = leader;
  next_index = replicate (length rf.peers) (get_last_log_index rf + 1);
  match_index = replicate (length rf.peers) 0;
}

-- The end of the goroutine that asked for a vote, once the call is answered.
unfoldable pub on_vote_reply : Clock → Raft → Election → RequestVoteReply → Raft × Election
on_vote_reply c rf e reply =
    let counted : Election = record e { votes = e.votes + 1 } in
    if not (is_candidate rf.role) || not (nat_beq rf.current_term e.term)
    then (rf, e)
    else if ltb rf.current_term reply.term
    then (reset_election_timeout c (persist (become_follower rf reply.term)), e)
    else if reply.vote_granted
    then (if ltb (length rf.peers / 2) (e.votes + 1) then transition_to_leader rf else rf, counted)
    else (rf, e)

abbrev may_vote : Option ℕ → ℕ → Bool
may_vote none candidate_id = true
may_vote (some v) candidate_id = nat_beq v candidate_id

-- The candidate's log is at least as up to date as this peer's.
abbrev pub log_up_to_date : Raft → ℕ → RequestVoteArgs → Bool
log_up_to_date rf last_log_term args =
    ltb last_log_term args.last_log_term
    || (nat_beq args.last_log_term last_log_term && leb (get_last_log_index rf) args.last_log_index)

abbrev catch_up : Raft → ℕ → Raft
catch_up rf term = if ltb rf.current_term term then persist (become_follower rf term) else rf

-- The reply's term is the one from before the request.
unfoldable pub request_vote : Clock → Raft → RequestVoteArgs → Option (Raft × RequestVoteReply)
request_vote c rf args =
    let rf' = catch_up rf args.term in
    if ltb args.term rf.current_term
    then some (rf, record { term = rf.current_term; vote_granted = false })
    else (get_last_log_term rf' >>= λ last_log_term.
        if may_vote rf'.voted_for args.candidate_id && log_up_to_date rf' last_log_term args
        then some (
          reset_election_timeout c (persist (record rf' { voted_for = some args.candidate_id })),
          record { term = rf.current_term; vote_granted = true },
        )
        else some (rf', record { term = rf.current_term; vote_granted = false }))
