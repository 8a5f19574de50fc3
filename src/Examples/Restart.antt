-- ===== src/Examples/Restart.antt =====
-- internal/rsm, internal/raft and internal/persist: a process that starts again, at concrete inputs.
use project_distributed_key.Base.{◌≡◌, refl, none, some, List, [], ◌∷◌, arith}
use project_distributed_key.Base.Keys.{GoString, string_key, str}
use project_distributed_key.Dict
use project_distributed_key.Core.Kv.{Store}
use project_distributed_key.Core.Command.{op, put_op}
use project_distributed_key.Core.Raft.{LogEntry, ApplyMsg}
use project_distributed_key.Kvsrv.Server as Kv
use project_distributed_key.Raft.State.{
  Raft, Clock, Persister, RaftPersistState, make, dummy, get_log_entry,
}
use project_distributed_key.Raft.Apply.{apply}
use project_distributed_key.Rsm
use project_distributed_key.Rsm.{StateMachine, Rsm}
use project_distributed_key.Rsm.Restart.{deliver, replay, restart_without_snapshot}
use project_distributed_key.Persist.{contents}
use project_distributed_key.Persist.Disk.{
  Files, save_part, read_raft_state, read_snapshot, snapshot_steps, write_atomic,
}
use project_distributed_key.Persist.Disk.Crash.{save_part-reads}

abbrev machine : StateMachine Store
machine = record { do_op = Kv.do_op; snapshot = λ s. []; restore = λ b. none }

abbrev write : GoString → LogEntry
write value = record {
  term = 3;
  index = 6;
  command =
      op (record {
        id = 9;
        payload = put_op (record { key = str "a"; value = value; version = 0 });
      });
}

-- A log of one entry behind a snapshot of five.
abbrev saved : RaftPersistState
saved = record {
  current_term = 3;
  voted_for = none;
  log = dummy 3 5 ∷ write (str "x") ∷ [];
  last_included_index = 5;
  last_included_term = 3;
}

abbrev persister : Persister
persister = record { raft_state = some saved; snapshot = str "the first five" }

abbrev clock : Clock
clock = record { now = 5; random = 7 }

unfoldable again : Raft
again = record (make (str "n0" ∷ []) 0 persister clock) { commit_index = 6 }

restart_without_snapshot_example :
    (rf' : Raft) × (msgs : List ApplyMsg) × (r : Rsm Store) × (apply again ≡ some (rf', msgs))
    × (deliver machine (Rsm.new Kv.new) msgs ≡ some r)
    × (r.sm ≡ replay machine (get_log_entry again) 1 5 Kv.new)
unfolding again
restart_without_snapshot_example =
    restart_without_snapshot machine Kv.new (str "n0" ∷ []) 0 persister clock saved 6 refl
      (omega arith) (refl, (refl, tt)) (omega arith) (omega arith)

unfoldable files : Files
files =
    Dict.put (Dict.put Dict.make (str "raftstate.bin") (str "s0")) (str "snapshot.bin") (str "old")

-- The state is written, and the process dies while it writes the snapshot.
save_part-reads_example :
    (read_raft_state (save_part 4 2 files (some (str "s1")) (some (str "new"))) ≡ some (str "s1"))
    × (contents (read_snapshot (save_part 4 2 files (some (str "s1")) (some (str "new"))))
        ≡ contents (read_snapshot files))
unfolding snapshot_steps read_snapshot write_atomic
save_part-reads_example = save_part-reads 4 2 files (some (str "s1")) (some (str "new"))
