-- ===== src/Persist.antt =====
-- internal/core/interfaces.go and internal/persist: what Raft may rely on from a persister, and the
-- two implementations. A []byte is an optional byte list: `none` is nil.
pub mod Memory
pub mod Disk
pub mod Contracts
use project_distributed_key.Base.{ℕ, ◌≡◌, Option, none, some, [], length}
use project_distributed_key.Base.Keys.{GoString}

-- The bytes of a slice; nil and the empty slice have none.
abbrev pub contents : Option GoString → GoString
contents none = []
contents (some b) = b

-- core.Persister, for a store P.
pub record Persister (P : Type 0) : Type 0 where
  pub save : P → Option GoString → Option GoString → P
  pub read_raft_state : P → Option GoString
  pub read_snapshot : P → Option GoString
  pub persist_bytes : P → ℕ

-- What Raft relies on: the state that was saved last is read, and so is the snapshot, both one that
-- is given and one that was read and is saved again; the size is the state's.
pub record Contract {P : Type 0} (i : Persister P) : Type 0 where
  pub state :
      (p : P) (st sn : Option GoString)
      → contents (i.read_raft_state (i.save p st sn)) ≡ contents st
  pub snapshot :
      (p : P) (st : Option GoString) (sn : GoString)
      → contents (i.read_snapshot (i.save p st (some sn))) ≡ sn
  pub same_snapshot :
      (p : P) (st : Option GoString)
      → contents (i.read_snapshot (i.save p st (i.read_snapshot p))) ≡ contents (i.read_snapshot p)
  pub size : (p : P) → i.persist_bytes p ≡ length (contents (i.read_raft_state p))
