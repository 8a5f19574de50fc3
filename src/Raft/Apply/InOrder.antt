-- ===== src/Raft/Apply/InOrder.antt =====
-- internal/raft/replication.go: what the applier delivers.
use project_distributed_key.Base.{
  ℕ, zero, suc, ◌+◌, ◌-◌, ◌≤◌, ◌≡◌, refl, false, Option, some, List, [], ◌∷◌, arith,
}
use project_distributed_key.Core.Raft.{ApplyMsg, command_msg, snapshot_msg, LogEntry}
use project_distributed_key.Raft.State.{Raft, get_log_entry, get_last_log_index}
use project_distributed_key.Raft.Apply.{drain, apply}
use project_distributed_key.Raft.Log.{IsLog, get_log_entry_in_range}

-- The messages are the commands of the log's entries after `first`, one for each, up to `last`.
abbrev pub InOrder : (ℕ → Option LogEntry) → ℕ → ℕ → List ApplyMsg → Type 0
InOrder entry_at first last [] = first ≡ last
InOrder entry_at first last (command_msg command idx ∷ rest) =
    ((e : LogEntry) × (idx ≡ first + 1) × (entry_at idx ≡ some e) × (command ≡ e.command))
    × InOrder entry_at (first + 1) last rest
InOrder entry_at first last (snapshot_msg image term idx ∷ rest) = ⊥

drain-InOrder :
    (k last : ℕ) (rf : Raft)
    → IsLog rf
    → rf.last_included_index ≤ rf.last_applied
    → last ≡ rf.last_applied + k
    → last ≤ get_last_log_index rf
    → (msgs : List ApplyMsg) × (drain k rf ≡ some (record rf { last_applied = last }, msgs))
      × InOrder (get_log_entry rf) rf.last_applied last msgs
unfolding drain get_log_entry
drain-InOrder zero last rf w low end high = ([], ground arith, omega arith)
drain-InOrder (suc k) last rf w low end high =
    let rf' : Raft = record rf { last_applied = rf.last_applied + 1 } in
    let w' : IsLog rf' = record { nonempty = w.nonempty; contiguous = w.contiguous } in
    let (e, got) =
      get_log_entry_in_range rf' (rf.last_applied + 1) w' (omega arith) (omega arith) in
    let (msgs, ran, ordered) = drain-InOrder k last rf' w' (omega arith) (omega arith) high in
    (
      command_msg e.command (rf.last_applied + 1) ∷ msgs,
      ground (arith, got, ran),
      ((e, refl, got, refl), ordered),
    )

-- A wake-up with no snapshot pending does not panic, delivers the commands of all entries that are
-- committed and not yet applied, in the order of the log and without a gap, and counts them as
-- applied; for a peer that has not applied less than its snapshot covers, nor committed past its
-- log.
pub apply-InOrder :
    (rf : Raft)
    → IsLog rf
    → rf.pending_snapshot_valid ≡ false
    → rf.last_included_index ≤ rf.last_applied
    → rf.last_applied ≤ rf.commit_index
    → rf.commit_index ≤ get_last_log_index rf
    → (msgs : List ApplyMsg) × (apply rf
        ≡ some (record rf { last_applied = rf.commit_index }, msgs))
      × InOrder (get_log_entry rf) rf.last_applied rf.commit_index msgs
unfolding apply
apply-InOrder rf w no_snapshot low below high =
    let (msgs, ran, ordered) =
      drain-InOrder (rf.commit_index - rf.last_applied) rf.commit_index rf w low (omega arith)
        high in
    (msgs, ground (arith, ran), ordered)
