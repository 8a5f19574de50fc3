-- ===== src/Raft/State.antt =====
-- internal/raft/raft.go and persist.go: the state of a peer, its log helpers and its persistence.
-- The raft state in the persister is the tuple that gob encodes; `none` is "nothing saved yet".
-- The log always holds its dummy entry, so `len(log) - 1` does not fall below 0.
use project_distributed_key.Base.{
  ℕ, ◌+◌, ◌-◌, Bool, true, false, Option, none, some, List, [], ◌∷◌, if◌then◌else◌, nat_beq, ltb,
  length, get_elem?, replicate,
}
use project_distributed_key.Base.Keys.{GoString}
use project_distributed_key.Core.Command.{vacant}
use project_distributed_key.Core.Raft.{RaftRole, follower, candidate, leader, LogEntry}

pub record RaftPersistState : Type 0 where
  pub current_term : ℕ
  pub voted_for : Option ℕ
  pub log : List LogEntry
  pub last_included_index : ℕ
  pub last_included_term : ℕ

-- The contract of core.Persister: what was saved last is what is read.
pub record Persister : Type 0 where
  pub raft_state : Option RaftPersistState
  pub snapshot : GoString

-- The time, and what rand.Int63n(200) returns.
pub record Clock : Type 0 where
  pub now : ℕ
  pub random : ℕ

pub record Raft : Type 0 where
  pub peers : List GoString
  pub persister : Persister
  pub me : ℕ
  pub current_term : ℕ
  pub voted_for : Option ℕ
  pub log : List LogEntry
  pub last_included_index : ℕ
  pub last_included_term : ℕ
  pub commit_index : ℕ
  pub last_applied : ℕ
  pub role : RaftRole
  pub next_index : List ℕ
  pub match_index : List ℕ
  pub last_reset : ℕ
  pub election_timeout : ℕ  -- in milliseconds
  pub pending_snapshot : GoString
  pub pending_snapshot_index : ℕ
  pub pending_snapshot_term : ℕ
  pub pending_snapshot_valid : Bool

abbrev pub is_leader : RaftRole → Bool
is_leader leader = true
is_leader _ = false

abbrev pub is_candidate : RaftRole → Bool
is_candidate candidate = true
is_candidate _ = false

-- Log indexing helpers

abbrev pub get_last_log_index : Raft → ℕ
get_last_log_index rf = rf.last_included_index + length rf.log - 1

abbrev pub term_at : List LogEntry → ℕ → Option ℕ
term_at log i = elim (get_elem? log i) [ none ↦ none | some e ↦ some e.term ]

unfoldable pub get_last_log_term : Raft → Option ℕ
get_last_log_term rf =
    if nat_beq (length rf.log) 1
    then some rf.last_included_term
    else term_at rf.log (length rf.log - 1)

unfoldable pub get_log_entry : Raft → ℕ → Option LogEntry
get_log_entry rf idx =
    if ltb idx rf.last_included_index then none else get_elem? rf.log (idx - rf.last_included_index)

unfoldable pub get_log_term : Raft → ℕ → Option ℕ
get_log_term rf idx =
    if nat_beq idx rf.last_included_index
    then some rf.last_included_term
    else if ltb idx rf.last_included_index
    then none
    else term_at rf.log (idx - rf.last_included_index)

abbrev pub reset_election_timeout : Clock → Raft → Raft
reset_election_timeout c rf = record rf { last_reset = c.now; election_timeout = 300 + c.random }

-- Persistence

abbrev pub serialize_state : Raft → RaftPersistState
serialize_state rf = record {
  current_term = rf.current_term;
  voted_for = rf.voted_for;
  log = rf.log;
  last_included_index = rf.last_included_index;
  last_included_term = rf.last_included_term;
}

-- rf.persister.Save(rf.serializeState(), snapshot)
abbrev pub save : Raft → GoString → Raft
save rf snapshot = record rf {
  persister = record { raft_state = some (serialize_state rf); snapshot = snapshot };
}

abbrev pub persist : Raft → Raft
persist rf = save rf rf.persister.snapshot

abbrev pub read_persist : Raft → Option RaftPersistState → Raft
read_persist rf none = rf
read_persist rf (some d) = record rf {
  current_term = d.current_term;
  voted_for = d.voted_for;
  log = d.log;
  last_included_index = d.last_included_index;
  last_included_term = d.last_included_term;
  commit_index = d.last_included_index;
  last_applied = d.last_included_index;
}

-- What every step down to a later term does first.
abbrev pub become_follower : Raft → ℕ → Raft
become_follower rf term = record rf { current_term = term; role = follower; voted_for = none }

abbrev pub dummy : ℕ → ℕ → LogEntry
dummy term index = record { term = term; index = index; command = vacant }

abbrev fresh : List GoString → ℕ → Persister → Clock → Raft
fresh peers me p c = record {
  peers = peers;
  persister = p;
  me = me;
  current_term = 0;
  voted_for = none;
  log = dummy 0 0 ∷ [];
  last_included_index = 0;
  last_included_term = 0;
  commit_index = 0;
  last_applied = 0;
  role = follower;
  next_index = replicate (length peers) 0;
  match_index = replicate (length peers) 0;
  last_reset = c.now;
  election_timeout = 300 + c.random;
  pending_snapshot = [];
  pending_snapshot_index = 0;
  pending_snapshot_term = 0;
  pending_snapshot_valid = false;
}

abbrev skip_snapshot : Raft → Raft
skip_snapshot rf =
    if ltb 0 (length rf.persister.snapshot)
    then record rf { commit_index = rf.last_included_index; last_applied = rf.last_included_index }
    else rf

unfoldable pub make : List GoString → ℕ → Persister → Clock → Raft
make peers me p c = skip_snapshot (read_persist (fresh peers me p c) p.raft_state)
