-- ===== src/Raft/Append.antt =====
-- internal/raft/replication.go, the follower's side: AppendEntries. `none` is Go's panic on an
-- index out of range.
use project_distributed_key.Base.{
  ℕ, zero, suc, ◌+◌, ◌-◌, true, false, not, Option, none, some, List, [], ◌∷◌, ◌++◌, if◌then◌else◌,
  nat_beq, ltb, leb, take,
}
use project_distributed_key.Base.Options.{◌>>=◌}
use project_distributed_key.Core.Raft.{follower, LogEntry, AppendEntriesArgs, AppendEntriesReply}
use project_distributed_key.Raft.State.{
  Raft, Clock, is_candidate, get_last_log_index, get_log_term, reset_election_timeout, persist,
  become_follower,
}

-- for i := first; i >= lastIncludedIndex; i-- { … }, with k = i - lastIncludedIndex rounds to the
-- lowest index: the start of the run of entries with the term `x_term`.
unfoldable pub run_start : Raft → ℕ → ℕ → ℕ → Option ℕ
run_start rf x_term zero first =
    (get_log_term rf rf.last_included_index >>= λ t.
    some (if nat_beq t x_term then rf.last_included_index else first))
run_start rf x_term (suc k) first =
    (get_log_term rf (rf.last_included_index + suc k) >>= λ t. elim (nat_beq t x_term) [
      | true ↦ run_start rf x_term k (rf.last_included_index + suc k)
      | false ↦ some first
    ])

-- rf.log = append(rf.log, entry); rf.persist()
abbrev pub push_entry : Raft → LogEntry → Raft
push_entry rf entry = persist (record rf { log = rf.log ++ entry ∷ [] })

-- rf.log = rf.log[:idx-lastIncludedIndex], and then the same
abbrev pub replace_tail : Raft → ℕ → LogEntry → Raft
replace_tail rf idx entry =
    persist (record rf { log = take (idx - rf.last_included_index) rf.log ++ entry ∷ [] })

-- One round of the loop over the entries, with its variable lastLogIdx.
unfoldable pub append_one : Raft → ℕ → ℕ → LogEntry → Option (Raft × ℕ)
append_one rf last idx entry =
    if leb idx last
    then (get_log_term rf idx >>= λ t.
        if not (nat_beq t entry.term)
        then some (replace_tail rf idx entry, get_last_log_index (replace_tail rf idx entry))
        else some (rf, last))
    else some (push_entry rf entry, get_last_log_index (push_entry rf entry))

unfoldable pub append_loop : Raft → ℕ → ℕ → List LogEntry → Option (Raft × ℕ)
append_loop rf last idx [] = some (rf, last)
append_loop rf last idx (entry ∷ entries) = elim (append_one rf last idx entry) [
  | none ↦ none
  | some (rf', last') ↦ append_loop rf' last' (idx + 1) entries
]

-- The part before the log is read: the step down, and the election timer.
unfoldable pub accept_leader : Clock → Raft → ℕ → Raft
accept_leader c rf term = reset_election_timeout c (
    if ltb rf.current_term term
    then persist (become_follower rf term)
    else if is_candidate rf.role
    then record rf { role = follower }
    else rf)

-- if leaderCommit > commitIndex { commitIndex = min(leaderCommit, lastLogIdx) }
unfoldable pub follow_commit : Raft → ℕ → ℕ → Raft
follow_commit rf leader_commit last =
    if ltb rf.commit_index leader_commit
    then record rf { commit_index = if ltb last leader_commit then last else leader_commit }
    else rf

abbrev reject : Raft → ℕ → Option ℕ → Option ℕ → ℕ → Raft × AppendEntriesReply
reject rf term x_term x_index x_len =
    (rf, record { term = term; success = false; x_term = x_term; x_index = x_index; x_len = x_len })

abbrev accept : Raft → ℕ → Raft × AppendEntriesReply
accept rf term =
    (rf, record { term = term; success = true; x_term = some 0; x_index = some 0; x_len = 0 })

-- The part that reads the log; `term` is the reply's term, the one from before the request.
unfoldable pub check_and_append : Raft → ℕ → AppendEntriesArgs → Option (Raft × AppendEntriesReply)
check_and_append rf term args =
    let prev = args.prev_log_index in
    let last = get_last_log_index rf in
    if ltb last prev
    then some (reject rf term none none (last + 1))
    else if ltb prev rf.last_included_index
    then some (reject rf term none none (rf.last_included_index + 1))
    else (get_log_term rf prev >>= λ t.
        if not (nat_beq t args.prev_log_term)
        then (run_start rf t (prev - rf.last_included_index) prev >>= λ first.
            some (reject rf term (some t) (some first) (last + 1)))
        else (append_loop rf last (prev + 1) args.entries >>= λ done.
            some (accept (follow_commit done.0 args.leader_commit done.1) term)))

unfoldable pub append_entries :
    Clock → Raft → AppendEntriesArgs → Option (Raft × AppendEntriesReply)
append_entries c rf args =
    if ltb args.term rf.current_term
    then some (reject rf rf.current_term (some 0) (some 0) 0)
    else check_and_append (accept_leader c rf args.term) rf.current_term args
