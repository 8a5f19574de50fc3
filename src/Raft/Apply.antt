-- ===== src/Raft/Apply.antt =====
-- internal/raft/replication.go: the applier. A wake-up is a call of `apply`, which returns what is
-- sent on applyCh.
pub mod InOrder
use project_distributed_key.Base.{
  ℕ, zero, suc, ◌+◌, ◌-◌, true, false, Option, some, List, [], ◌∷◌, if◌then◌else◌, leb,
}
use project_distributed_key.Base.Options.{◌>>=◌}
use project_distributed_key.Core.Raft.{ApplyMsg, command_msg, snapshot_msg}
use project_distributed_key.Raft.State.{Raft, get_log_entry}

-- for lastApplied < commitIndex { … }, with k = commitIndex - lastApplied rounds left.
unfoldable pub drain : ℕ → Raft → Option (Raft × List ApplyMsg)
drain zero rf = some (rf, [])
drain (suc k) rf =
    let idx = rf.last_applied + 1 in
    let rf' = record rf { last_applied = idx } in
    elim (leb idx rf.last_included_index) [
      | true ↦ drain k rf'
      | false ↦
          (get_log_entry rf' idx >>= λ entry.
          drain k rf' >>= λ rest. some (rest.0, command_msg entry.command idx ∷ rest.1))
    ]

unfoldable pub apply : Raft → Option (Raft × List ApplyMsg)
apply rf =
    if rf.pending_snapshot_valid
    then some (
      record rf { pending_snapshot_valid = false; pending_snapshot = [] },
      snapshot_msg rf.pending_snapshot rf.pending_snapshot_term rf.pending_snapshot_index ∷ [],
    )
    else drain (rf.commit_index - rf.last_applied) rf
