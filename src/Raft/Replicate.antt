-- ===== src/Raft/Replicate.antt =====
-- internal/raft/replication.go, the leader's side, and Start of raft.go. `none` is Go's panic on an
-- index out of range.
use project_distributed_key.Base.{
  ℕ, zero, suc, ◌+◌, ◌-◌, ◌/◌, Bool, true, false, not, ◌&&◌, ◌||◌, Option, none, some, List, [],
  ◌∷◌, ◌++◌, if◌then◌else◌, nat_beq, ltb, leb, length, drop, get_elem?, set,
}
use project_distributed_key.Base.Options.{◌>>=◌}
use project_distributed_key.Core.Command.{Command}
use project_distributed_key.Core.Raft.{LogEntry, AppendEntriesArgs, AppendEntriesReply}
use project_distributed_key.Raft.State.{
  Raft, Clock, is_leader, get_last_log_index, get_log_term, reset_election_timeout, persist,
  become_follower,
}
use project_distributed_key.Raft.Compact.{record_match}

-- Start: the index (-1 is `none`), the term, and whether this peer is the leader.
unfoldable pub start : Raft → Command → Raft × Option ℕ × ℕ × Bool
start rf command =
    let idx = get_last_log_index rf + 1 in
    let entry : LogEntry = record { term = rf.current_term; index = idx; command = command } in
    if is_leader rf.role
    then (persist (record rf { log = rf.log ++ entry ∷ [] }), some idx, rf.current_term, true)
    else (rf, none, rf.current_term, false)

-- What replicationTicker and replicateToAll send a follower: a snapshot, if its next entry is gone.
unfoldable pub needs_snapshot : Raft → ℕ → Option Bool
needs_snapshot rf peer =
    (get_elem? rf.next_index peer >>= λ next. some (leb next rf.last_included_index))

-- sendAppendEntriesToPeer up to the call. The inner `none` sends nothing: `next - 1` is an int, so
-- `next - 1 < lastIncludedIndex` is `next <= lastIncludedIndex`.
unfoldable pub append_args : Raft → ℕ → ℕ → Option (Option AppendEntriesArgs)
append_args rf peer term =
    if not (is_leader rf.role) || not (nat_beq rf.current_term term)
    then some none
    else (get_elem? rf.next_index peer >>= λ next.
        if leb next rf.last_included_index
        then some none
        else (get_log_term rf (next - 1) >>= λ prev_log_term. some (
            some (record {
              term = rf.current_term;
              leader_id = rf.me;
              prev_log_index = next - 1;
              prev_log_term = prev_log_term;
              entries = drop (next - rf.last_included_index) rf.log;
              leader_commit = rf.commit_index;
            }))))

-- How many peers from number `p` on, other than this one, are known to hold entry `n`: the match
-- indices have a slot for each peer.
unfoldable pub count_holders : ℕ → ℕ → ℕ → List ℕ → ℕ
count_holders me n p [] = 0
count_holders me n p (m ∷ ms) =
    let rest = count_holders me n (p + 1) ms in
    if not (nat_beq p me) && leb n m then suc rest else rest

abbrev pub has_majority : Raft → ℕ → Bool
has_majority rf n = ltb (length rf.peers / 2) (1 + count_holders rf.me n 0 rf.match_index)

-- for n := lastLogIndex; n > commitIndex; n-- { … }, with k = n - commitIndex rounds left.
unfoldable pub commit_loop : Raft → ℕ → Option Raft
commit_loop rf zero = some rf
commit_loop rf (suc k) =
    (get_log_term rf (rf.commit_index + suc k) >>= λ t.
    elim (nat_beq t rf.current_term && has_majority rf (rf.commit_index + suc k)) [
      | true ↦ some (record rf { commit_index = rf.commit_index + suc k })
      | false ↦ commit_loop rf k
    ])

unfoldable pub advance_commit : Raft → Option Raft
advance_commit rf = commit_loop rf (get_last_log_index rf - rf.commit_index)

-- for i := lastLogIndex; i >= lastIncludedIndex; i-- { … }: the last index with the term, if any.
unfoldable pub last_with_term : Raft → ℕ → ℕ → Option (Option ℕ)
last_with_term rf x_term zero =
    (get_log_term rf rf.last_included_index >>= λ t.
    some (if nat_beq t x_term then some rf.last_included_index else none))
last_with_term rf x_term (suc k) =
    (get_log_term rf (rf.last_included_index + suc k) >>= λ t. elim (nat_beq t x_term) [
      | true ↦ some (some (rf.last_included_index + suc k))
      | false ↦ last_with_term rf x_term k
    ])

abbrev or_zero : Option ℕ → ℕ
or_zero none = 0
or_zero (some n) = n

abbrev or_after : Option ℕ → ℕ → ℕ
or_after none n = n
or_after (some i) n = i + 1

-- Where to try next after a rejection, before the clamp at 1.
unfoldable pub backtrack : Raft → AppendEntriesReply → Option ℕ
backtrack rf reply = elim reply.x_term [
  | none ↦ some reply.x_len
  | some x_term ↦
      (last_with_term rf x_term (get_last_log_index rf - rf.last_included_index) >>= λ found.
      some (or_after found (or_zero reply.x_index)))
]

-- sendAppendEntriesToPeer from the answer on.
unfoldable pub on_append_reply :
    Clock → Raft → ℕ → ℕ → AppendEntriesArgs → AppendEntriesReply → Option Raft
on_append_reply c rf peer term args reply =
    if not (is_leader rf.role) || not (nat_beq rf.current_term term)
    then some rf
    else if ltb rf.current_term reply.term
    then some (reset_election_timeout c (persist (become_follower rf reply.term)))
    else if reply.success
    then (get_elem? rf.match_index peer >>= λ found. get_elem? rf.next_index peer >>= λ old.
        advance_commit (record_match rf peer found (args.prev_log_index + length args.entries)))
    else (get_elem? rf.next_index peer >>= λ old. backtrack rf reply >>= λ next.
        some (record rf { next_index = set rf.next_index peer (if ltb next 1 then 1 else next) }))
