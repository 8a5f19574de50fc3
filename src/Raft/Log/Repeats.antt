-- ===== src/Raft/Log/Repeats.antt =====
-- internal/raft/replication.go: an AppendEntries that arrives late or again.
use project_distributed_key.Base.{ℕ, ◌+◌, ◌≤◌, ◌≡◌, refl, true, some, List, [], ◌∷◌, arith, length}
use project_distributed_key.Core.Raft.{LogEntry, AppendEntriesArgs, AppendEntriesReply}
use project_distributed_key.Raft.State.{Raft, Clock, get_last_log_index, get_log_term}
use project_distributed_key.Raft.Append.{
  append_entries, append_one, append_loop, check_and_append, accept_leader, follow_commit,
}
use project_distributed_key.Raft.Log.Appending.{Holds}
use project_distributed_key.Raft.Log.Requests.{accept_leader-SameLog, Holds-cong}

append_one_held :
    (rf : Raft) (last idx : ℕ) (entry : LogEntry)
    → idx ≤ last
    → get_log_term rf idx ≡ some entry.term
    → append_one rf last idx entry ≡ some (rf, last)
unfolding append_one
append_one_held rf last idx entry within held = ground arith

-- Entries that are there are passed over.
append_loop_held :
    (rf : Raft) (last idx : ℕ) (entries : List LogEntry)
    → idx + length entries ≤ last + 1
    → Holds rf idx entries
    → append_loop rf last idx entries ≡ some (rf, last)
unfolding append_loop
append_loop_held rf last idx [] within held = refl
append_loop_held rf last idx (entry ∷ entries) within (here, held) =
    rw (append_one_held rf last idx entry (omega arith) here, append_loop)
      (append_loop_held rf last (idx + 1) entries (omega arith) held)

accept_leader-log : (c : Clock) (rf : Raft) (term : ℕ) → (accept_leader c rf term).log ≡ rf.log
unfolding accept_leader
accept_leader-log c rf term = ground arith

-- A request whose entries the log has already, which came late or twice: it is accepted, and the log
-- stays as it is, also behind the request's last entry.
pub append_entries_repeated :
    (c : Clock) (rf : Raft) (args : AppendEntriesArgs)
    → rf.current_term ≤ args.term
    → rf.last_included_index ≤ args.prev_log_index
    → args.prev_log_index + length args.entries ≤ get_last_log_index rf
    → get_log_term rf args.prev_log_index ≡ some args.prev_log_term
    → Holds rf (args.prev_log_index + 1) args.entries
    → (rf' : Raft) × (reply : AppendEntriesReply) × (append_entries c rf args ≡ some (rf', reply))
      × (reply.success ≡ true)
      × (rf'.log ≡ rf.log)
      × (rf'.last_included_index ≡ rf.last_included_index)
unfolding append_entries check_and_append follow_commit
append_entries_repeated c rf args term low within agree held =
    let rf' = accept_leader c rf args.term in
    let f = accept_leader-SameLog c rf args.term in
    let prev = args.prev_log_index in
    let last = get_last_log_index rf' in
    let ran =
      append_loop_held rf' last (prev + 1) args.entries (omega (arith, f.last))
        (Holds-cong rf rf' (prev + 1) args.entries f.reads held) in
    (
      follow_commit rf' args.leader_commit last,
      record {
        term = rf.current_term;
        success = true;
        x_term = some 0;
        x_index = some 0;
        x_len = 0;
      },
      ground (arith, ran, f.base, f.last, f.reads prev),
      refl,
      ground (arith, accept_leader-log c rf args.term),
      ground (arith, f.base),
    )
