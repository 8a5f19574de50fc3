-- ===== src/Persist/Memory.antt =====
-- internal/persist/memory.go.
use project_distributed_key.Base.{◌≡◌, refl, Option, none, some, length, arith}
use project_distributed_key.Base.Keys.{GoString}
use project_distributed_key.Persist.{Persister, Contract, contents}

pub record MemoryPersister : Type 0 where
  pub raftstate : Option GoString
  pub snapshot : Option GoString

unfoldable pub new_memory_persister : MemoryPersister
new_memory_persister = record { raftstate = none; snapshot = none }

-- make and copy of a slice: never nil. A nil snapshot leaves the old one.
unfoldable pub save : MemoryPersister → Option GoString → Option GoString → MemoryPersister
save p raftstate none = record p { raftstate = some (contents raftstate) }
save p raftstate (some snapshot) = record {
  raftstate = some (contents raftstate);
  snapshot = some snapshot;
}

abbrev pub memory : Persister MemoryPersister
memory = record {
  save = save;
  read_raft_state = λ p. p.raftstate;
  read_snapshot = λ p. p.snapshot;
  persist_bytes = λ p. length (contents p.raftstate);
}

save_same_snapshot :
    (p : MemoryPersister) (st sn : Option GoString)
    → p.snapshot ≡ sn
    → contents (save p st sn).snapshot ≡ contents p.snapshot
unfolding save
save_same_snapshot p st none e = refl
save_same_snapshot p st (some b) e = ground arith

save-raftstate :
    (p : MemoryPersister) (st sn : Option GoString)
    → contents (save p st sn).raftstate ≡ contents st
unfolding save
save-raftstate p st none = refl
save-raftstate p st (some b) = refl

-- The persister in memory keeps Raft's contract.
pub memory-Contract : Contract memory
unfolding save
memory-Contract = record {
  state = save-raftstate;
  snapshot = λ p st sn. refl;
  same_snapshot = λ p st. save_same_snapshot p st p.snapshot refl;
  size = λ p. refl;
}

-- A nil snapshot is "no snapshot" for a caller, but the one in memory stays.
pub nil_keeps_snapshot :
    (p : MemoryPersister) (st : Option GoString) → (save p st none).snapshot ≡ p.snapshot
unfolding save
nil_keeps_snapshot p st = refl
