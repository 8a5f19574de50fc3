-- ===== src/Persist/Contracts.antt =====
-- internal/persist: both persisters keep what Raft relies on, when no call of the file system fails.
use project_distributed_key.Base.{ℕ, ◌+◌, ◌≡◌, refl, ◌∙◌, ap, Option, some, length, arith}
use project_distributed_key.Base.Keys.{GoString}
use project_distributed_key.Persist.{Contract, contents}
use project_distributed_key.Persist.Memory.{memory, memory-Contract}
use project_distributed_key.Persist.Disk.{
  Files, write_atomic, state_path, snapshot_steps, save_part, save, read_raft_state, read_snapshot,
  persist_bytes, disk,
}
use project_distributed_key.Persist.Disk.Crash.{take_all, length-write_atomic, save_part-reads}

module _ (fs : Files) (st sn : Option GoString) where
  whole_state : ℕ
  whole_state = length (contents st) + 2

  whole_snapshot : ℕ
  whole_snapshot = length (snapshot_steps (contents sn))

  save-save_part : save fs st sn ≡ save_part whole_state whole_snapshot fs st sn
  unfolding save save_part whole_state whole_snapshot
  save-save_part =
      rw
        (
          take_all (length (contents st) + 2) (write_atomic state_path (contents st))
              (omega (arith, length-write_atomic state_path (contents st))),
          take_all (length (snapshot_steps (contents sn))) (snapshot_steps (contents sn))
              (omega arith),
        )
        refl

  saved :
      (read_raft_state (save fs st sn) ≡ some (contents st))
      × (contents (read_snapshot (save fs st sn)) ≡ contents sn)
  unfolding whole_state whole_snapshot
  saved =
      let (state, snapshot) = save_part-reads whole_state whole_snapshot fs st sn in
      (
        ap read_raft_state save-save_part ∙ ground (arith, state),
        ap (λ d. contents (read_snapshot d)) save-save_part ∙ ground (arith, snapshot),
      )

-- Both persisters, when no call of the file system fails: what was saved last is what is read, the
-- snapshot too when it is given or when it is the present one saved again, and the size that is
-- reported is that of the saved state.
pub persisters-Contract : Contract memory × Contract disk
unfolding read_raft_state persist_bytes
persisters-Contract = (
  memory-Contract,
  record {
    state = λ fs st sn. ap contents (saved fs st sn).0;
    snapshot = λ fs st sn. (saved fs st (some sn)).1;
    same_snapshot = λ fs st. (saved fs st (read_snapshot fs)).1;
    size = λ fs. refl;
  },
)
