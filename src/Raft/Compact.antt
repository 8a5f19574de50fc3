-- ===== src/Raft/Compact.antt =====
-- internal/raft: log compaction. `Snapshot` of raft.go, and the two sides of InstallSnapshot of
-- persist.go. `none` is Go's panic on an index out of range.
pub mod Keeps
use project_distributed_key.Base.{
  ℕ, ◌+◌, ◌-◌, true, not, ◌||◌, Option, none, some, List, [], ◌∷◌, if◌then◌else◌, nat_beq, ltb, leb,
  drop, get_elem?, set,
}
use project_distributed_key.Base.Keys.{GoString}
use project_distributed_key.Base.Options.{◌>>=◌}
use project_distributed_key.Core.Raft.{LogEntry, InstallSnapshotArgs, InstallSnapshotReply}
use project_distributed_key.Raft.State.{
  Raft, Clock, is_leader, get_last_log_index, get_log_term, reset_election_timeout, persist, save,
  become_follower, dummy,
}
use project_distributed_key.Raft.Append.{accept_leader}

-- rf.log[0] = entry
abbrev pub set_first : List LogEntry → LogEntry → Option (List LogEntry)
set_first [] entry = none
set_first (e ∷ rest) entry = some (entry ∷ rest)

-- rf.log = rf.log[index-lastIncludedIndex:]; rf.log[0] = the dummy entry of the snapshot
abbrev pub cut_log : Raft → ℕ → ℕ → Option (List LogEntry)
cut_log rf index term = set_first (drop (index - rf.last_included_index) rf.log) (dummy term index)

-- Snapshot: compact the log up to the index.
unfoldable pub take_snapshot : Raft → ℕ → GoString → Option Raft
take_snapshot rf index snapshot =
    if leb index rf.last_included_index
    then some rf
    else (get_log_term rf index >>= λ term. cut_log rf index term >>= λ log. some (
        save (record rf { log = log; last_included_index = index; last_included_term = term })
          snapshot))

-- The log that InstallSnapshot keeps: what follows the snapshot, if the log agrees with it.
unfoldable pub kept_log : Raft → InstallSnapshotArgs → Option (List LogEntry)
kept_log rf args =
    let index = args.last_included_index in
    let term = args.last_included_term in
    if leb index (get_last_log_index rf)
    then (get_log_term rf index >>= λ t.
        if nat_beq t term then cut_log rf index term else some (dummy term index ∷ []))
    else some (dummy term index ∷ [])

abbrev raise_to : ℕ → ℕ → ℕ
raise_to n floor = if ltb n floor then floor else n

abbrev pub adopt : Raft → InstallSnapshotArgs → List LogEntry → Raft
adopt rf args log =
    record (save
      (record rf {
        log = log;
        last_included_index = args.last_included_index;
        last_included_term = args.last_included_term;
        commit_index = raise_to rf.commit_index args.last_included_index;
        last_applied = raise_to rf.last_applied args.last_included_index;
      })
      args.snapshot) {
        pending_snapshot = args.snapshot;
        pending_snapshot_index = args.last_included_index;
        pending_snapshot_term = args.last_included_term;
        pending_snapshot_valid = true;
      }

unfoldable pub install_snapshot :
    Clock → Raft → InstallSnapshotArgs → Option (Raft × InstallSnapshotReply)
install_snapshot c rf args =
    let reply : InstallSnapshotReply = record { term = rf.current_term } in
    let rf' = accept_leader c rf args.term in
    if ltb args.term rf.current_term
    then some (rf, reply)
    else if leb args.last_included_index rf'.last_included_index
    then some (rf', reply)
    else (kept_log rf' args >>= λ log. some (adopt rf' args log, reply))

-- sendSnapshotToPeer up to the call; `none` if the peer is no longer the leader of the term.
unfoldable pub snapshot_args : Raft → ℕ → Option InstallSnapshotArgs
snapshot_args rf term =
    if not (is_leader rf.role) || not (nat_beq rf.current_term term)
    then none
    else some (record {
      term = rf.current_term;
      leader_id = rf.me;
      last_included_index = rf.last_included_index;
      last_included_term = rf.last_included_term;
      snapshot = rf.persister.snapshot;
    })

-- A follower is known to hold the log up to `match`.
abbrev pub record_match : Raft → ℕ → ℕ → ℕ → Raft
record_match rf peer found match =
    let m = if ltb found match then match else found in
    record rf {
      match_index = set rf.match_index peer m;
      next_index = set rf.next_index peer (m + 1);
    }

-- sendSnapshotToPeer from the answer on.
unfoldable pub on_snapshot_reply :
    Clock → Raft → ℕ → ℕ → InstallSnapshotArgs → InstallSnapshotReply → Option Raft
on_snapshot_reply c rf peer term args reply =
    if not (is_leader rf.role) || not (nat_beq rf.current_term term)
    then some rf
    else if ltb rf.current_term reply.term
    then some (reset_election_timeout c (persist (become_follower rf reply.term)))
    else (get_elem? rf.match_index peer >>= λ found. get_elem? rf.next_index peer >>= λ old.
        some (record_match rf peer found args.last_included_index))
