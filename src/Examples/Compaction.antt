-- ===== src/Examples/Compaction.antt =====
-- internal/raft: a peer with two committed entries, applied and compacted.
use project_distributed_key.Base.{ℕ, ◌≤◌, ◌<◌, ◌≡◌, refl, true, none, some, List, [], ◌∷◌, arith}
use project_distributed_key.Base.Keys.{str}
use project_distributed_key.Core.Command.{vacant}
use project_distributed_key.Core.Raft.{
  LogEntry, ApplyMsg, InstallSnapshotArgs, InstallSnapshotReply,
}
use project_distributed_key.Raft.State.{
  Raft, Clock, make, dummy, get_log_entry, get_log_term, get_last_log_index,
}
use project_distributed_key.Raft.Apply.{apply}
use project_distributed_key.Raft.Apply.InOrder.{InOrder, apply-InOrder}
use project_distributed_key.Raft.Compact.{take_snapshot, install_snapshot}
use project_distributed_key.Raft.Compact.Keeps.{take_snapshot_keeps, install_snapshot_total}
use project_distributed_key.Raft.Log.{IsLog}

abbrev clock : Clock
clock = record { now = 5; random = 7 }

abbrev entry : ℕ → LogEntry
entry i = record { term = 3; index = i; command = vacant }

unfoldable peer : Raft
unfolding make
peer =
    record (make (str "n0" ∷ str "n1" ∷ []) 0 (record { raft_state = none; snapshot = [] }) clock) {
      current_term = 3;
      log = dummy 0 0 ∷ entry 1 ∷ entry 2 ∷ [];
      commit_index = 2;
    }

peer-IsLog : IsLog peer
unfolding peer
peer-IsLog = record { nonempty = omega arith; contiguous = (refl, (refl, (refl, tt))) }

apply-InOrder_example :
    (msgs : List ApplyMsg) × (apply peer
      ≡ some (record peer { last_applied = peer.commit_index }, msgs))
    × InOrder (get_log_entry peer) peer.last_applied peer.commit_index msgs
unfolding peer
apply-InOrder_example = apply-InOrder peer peer-IsLog refl (omega arith) (omega arith) (omega arith)

take_snapshot_keeps_example :
    (rf' : Raft) × (take_snapshot peer 1 (str "s") ≡ some rf')
    × IsLog rf'
    × (get_last_log_index rf' ≡ get_last_log_index peer)
    × ((i : ℕ) → rf'.last_included_index < i → get_log_entry rf' i ≡ get_log_entry peer i)
    × (get_log_term rf' rf'.last_included_index ≡ get_log_term peer rf'.last_included_index)
unfolding peer
take_snapshot_keeps_example = take_snapshot_keeps peer 1 (str "s") peer-IsLog (omega arith)

abbrev offered : InstallSnapshotArgs
offered = record {
  term = 3;
  leader_id = 1;
  last_included_index = 2;
  last_included_term = 3;
  snapshot = str "s";
}

install_snapshot_total_example :
    (r : Raft × InstallSnapshotReply) × (install_snapshot clock peer offered ≡ some r)
    × IsLog r.0
    × (peer.last_included_index ≤ r.0.last_included_index)
    × (peer.last_included_index ≤ peer.last_applied → r.0.last_included_index ≤ r.0.last_applied)
    × (peer.current_term ≤ offered.term
        → peer.last_included_index < offered.last_included_index
        → (r.0.last_included_index ≡ offered.last_included_index)
          × (r.0.pending_snapshot ≡ offered.snapshot)
          × (r.0.pending_snapshot_valid ≡ true))
install_snapshot_total_example = install_snapshot_total clock peer offered peer-IsLog
