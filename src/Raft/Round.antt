-- ===== src/Raft/Round.antt =====
-- internal/raft/replication.go: one exchange of AppendEntries between a leader and a follower that
-- agrees with it on the entry before the first that is sent.
use project_distributed_key.Base.{
  ℕ, zero, suc, ◌+◌, ◌-◌, ◌≤◌, ◌<◌, ◌≡◌, sym, ap, subst, ◌∙◌, true, some, List, [], ◌∷◌, arith,
  length, drop, get_elem?, ltb, if◌then◌else◌, length-drop, length-set, get_elem?-drop,
  get_elem?-set_self, get_elem?-some_lt, Option-cases, inl, inr,
}
use project_distributed_key.Core.Raft.{leader, LogEntry, AppendEntriesArgs, AppendEntriesReply}
use project_distributed_key.Raft.State.{Raft, Clock, get_last_log_index, get_log_term}
use project_distributed_key.Raft.Append.{append_entries}
use project_distributed_key.Raft.Compact.{record_match}
use project_distributed_key.Raft.Replicate.{append_args, on_append_reply, advance_commit}
use project_distributed_key.Raft.Commit.{Committed, advance_commit-Committed}
use project_distributed_key.Raft.Majority.{IsLeaderOf}
use project_distributed_key.Raft.Log.{IsLog, Contiguous-drop, get_log_term_in_range}
use project_distributed_key.Raft.Log.Appending.{Holds}
use project_distributed_key.Raft.Log.Requests.{append_entries_accepts}

-- The terms that `Holds` promises, one at a time.
Holds-at :
    (rf : Raft) (idx k : ℕ) (entries : List LogEntry) (e : LogEntry)
    → Holds rf idx entries
    → get_elem? entries k ≡ some e
    → get_log_term rf (idx + k) ≡ some e.term
Holds-at rf idx k [] e held at = cc
Holds-at rf idx zero (x ∷ xs) e (here, held) at =
    let n : idx + 0 ≡ idx = omega arith in
    let same : x ≡ e = ground arith in rw n (here ∙ ap (λ y. some y.term) same)
Holds-at rf idx (suc k) (x ∷ xs) e (here, held) at =
    let n : idx + suc k ≡ idx + 1 + k = omega arith in rw n (Holds-at rf (idx + 1) k xs e held at)

-- Above the dummy entry a term is that of the entry in the log.
get_log_term-get_elem? :
    (rf : Raft) (idx t : ℕ)
    → rf.last_included_index < idx
    → get_log_term rf idx ≡ some t
    → (e : LogEntry) × (get_elem? rf.log (idx - rf.last_included_index) ≡ some e) × (e.term ≡ t)
unfolding get_log_term
get_log_term-get_elem? rf idx t above read =
    elim (Option-cases (get_elem? rf.log (idx - rf.last_included_index))) [
      | inl past ↦ absurd (ground arith)
      | inr (e, at) ↦ (e, at, ground arith)
    ]

sent_agrees :
    (rf f : Raft) (next j : ℕ)
    → IsLog rf
    → rf.last_included_index < next
    → next ≤ j
    → j ≤ get_last_log_index rf
    → Holds f next (drop (next - rf.last_included_index) rf.log)
    → get_log_term f j ≡ get_log_term rf j
sent_agrees rf f next j w above from to held =
    let base = rf.last_included_index in
    let (t, read) = get_log_term_in_range rf j w (omega arith) to in
    let (e, at, term) = get_log_term-get_elem? rf j t (omega arith) read in
    let place : next - base + (j - next) ≡ j - base = omega arith in
    let sent : get_elem? (drop (next - base) rf.log) (j - next) ≡ some e =
      get_elem?-drop (next - base) (j - next) rf.log ∙ rw place at in
    let there : next + (j - next) ≡ j = omega arith in
    let got = Holds-at f next (j - next) (drop (next - base) rf.log) e held sent in
    rw there at got ∙ ap some term ∙ sym read

-- The request that a leader sends.
abbrev request : Raft → ℕ → ℕ → AppendEntriesArgs
request rf next prev_log_term = record {
  term = rf.current_term;
  leader_id = rf.me;
  prev_log_index = next - 1;
  prev_log_term = prev_log_term;
  entries = drop (next - rf.last_included_index) rf.log;
  leader_commit = rf.commit_index;
}

append_args_lem :
    (rf : Raft) (peer next t : ℕ)
    → rf.role ≡ leader
    → get_elem? rf.next_index peer ≡ some next
    → rf.last_included_index < next
    → get_log_term rf (next - 1) ≡ some t
    → append_args rf peer rf.current_term ≡ some (some (request rf next t))
unfolding append_args
append_args_lem rf peer next t leads sends above read = ground arith

on_append_reply_success :
    (c : Clock) (rf : Raft) (peer next m : ℕ) (args : AppendEntriesArgs)
    (reply : AppendEntriesReply)
    → rf.role ≡ leader
    → get_elem? rf.next_index peer ≡ some next
    → get_elem? rf.match_index peer ≡ some m
    → reply.term ≤ rf.current_term
    → reply.success ≡ true
    → on_append_reply c rf peer rf.current_term args reply
      ≡ advance_commit (record_match rf peer m (args.prev_log_index + length args.entries))
unfolding on_append_reply
on_append_reply_success c rf peer next m args reply leads sends held term success = ground arith

abbrev later : ℕ → ℕ → ℕ
later a b = if ltb a b then b else a

-- A successful answer is recorded, and what more than half of the peers then hold is committed.
answered :
    (c : Clock) (rf : Raft) (peer next m n : ℕ) (args : AppendEntriesArgs)
    (reply : AppendEntriesReply)
    → IsLog rf
    → IsLeaderOf rf
    → rf.last_included_index ≤ rf.commit_index
    → rf.commit_index ≤ get_last_log_index rf
    → rf.role ≡ leader
    → get_elem? rf.next_index peer ≡ some next
    → get_elem? rf.match_index peer ≡ some m
    → reply.term ≤ rf.current_term
    → reply.success ≡ true
    → args.prev_log_index + length args.entries ≡ n
    → (rf' : Raft) × (on_append_reply c rf peer rf.current_term args reply ≡ some rf')
      × (get_elem? rf'.match_index peer ≡ some (later m n))
      × (get_elem? rf'.next_index peer ≡ some (later m n + 1))
      × Committed (record_match rf peer m n) (get_last_log_index rf) rf'
answered c rf peer next m n args reply w slots low high leads sends held term success count =
    let marked = record_match rf peer m n in
    let recorded : IsLog marked = record { nonempty = w.nonempty; contiguous = w.contiguous } in
    let all : IsLeaderOf marked = record {
      own = slots.own;
      slots = length-set rf.match_index peer (later m n) ∙ slots.slots;
    } in
    let (rf', ran, s) = advance_commit-Committed marked recorded all low high in
    let received =
      on_append_reply_success c rf peer next m args reply leads sends held term success in
    let here = get_elem?-some_lt rf.match_index peer m held in
    let there = get_elem?-some_lt rf.next_index peer next sends in
    (
      rf',
      received ∙ rw count ran,
      ap (λ r. get_elem? r.match_index peer) s.only
          ∙ get_elem?-set_self rf.match_index peer (later m n) here,
      ap (λ r. get_elem? r.next_index peer) s.only
          ∙ get_elem?-set_self rf.next_index peer (later m n + 1) there,
      s,
    )

-- One exchange, between a leader, with a match index for each peer, and a follower of no later term
-- that has the entry before the first one sent, with the same term: no side panics, the follower
-- then has the leader's terms up to the end of the leader's log, and the leader has recorded this,
-- and committed the highest entry of its term that more than half of the peers hold, as far as it
-- knows, if there is one past its commit index.
pub append_round :
    (c c' : Clock) (rf f : Raft) (peer next m j : ℕ)
    → IsLog rf
    → IsLeaderOf rf
    → IsLog f
    → rf.last_included_index ≤ rf.commit_index
    → rf.commit_index ≤ get_last_log_index rf
    → rf.role ≡ leader
    → f.current_term ≤ rf.current_term
    → get_elem? rf.next_index peer ≡ some next
    → get_elem? rf.match_index peer ≡ some m
    → rf.last_included_index < next
    → next ≤ get_last_log_index rf + 1
    → f.last_included_index < next
    → next ≤ get_last_log_index f + 1
    → get_log_term f (next - 1) ≡ get_log_term rf (next - 1)
    → next ≤ j
    → j ≤ get_last_log_index rf
    → (args : AppendEntriesArgs) × (f' : Raft) × (reply : AppendEntriesReply) × (rf' : Raft)
      × (append_args rf peer rf.current_term ≡ some (some args))
      × (append_entries c f args ≡ some (f', reply))
      × (on_append_reply c' rf peer rf.current_term args reply ≡ some rf')
      × (get_log_term f' j ≡ get_log_term rf j)
      × (get_elem? rf'.match_index peer ≡ some (later m (get_last_log_index rf)))
      × (get_elem? rf'.next_index peer ≡ some (later m (get_last_log_index rf) + 1))
      × Committed (record_match rf peer m (get_last_log_index rf)) (get_last_log_index rf) rf'
append_round c c' rf f peer next m j w slots wf low high leads term sends held above within fabove
      fwithin agree from to =
    let (t, read) = get_log_term_in_range rf (next - 1) w (omega arith) (omega arith) in
    let args = request rf next t in
    let places =
      Contiguous-drop rf.last_included_index next (next - rf.last_included_index) rf.log
        w.contiguous (omega arith) in
    let first : next - 1 + 1 ≡ next = omega arith in
    let (f', reply, ran, success, old, _, holds, _, _) =
      append_entries_accepts c f args wf term (omega arith) (omega arith) (agree ∙ read)
        (rw first places) in
    let count : next - 1 + length args.entries ≡ get_last_log_index rf =
      omega (arith, length-drop (next - rf.last_included_index) rf.log, w.nonempty) in
    let (rf', received, matched, upcoming, committed) =
      answered c' rf peer next m (get_last_log_index rf) args reply w slots low high leads sends
        held (omega (arith, old)) success count in
    (
      args,
      f',
      reply,
      rf',
      append_args_lem rf peer next t leads sends above read,
      ran,
      received,
      sent_agrees rf f' next j w above from to (subst (λ n. Holds f' n args.entries) first holds),
      matched,
      upcoming,
      committed,
    )
