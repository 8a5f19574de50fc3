-- ===== src/Raft/Log/Requests.antt =====
-- internal/raft/replication.go: AppendEntries on each of its branches.
use project_distributed_key.Base.{
  ℕ, ◌+◌, ◌-◌, ◌≤◌, ◌<◌, ◌≡◌, ◌≢◌, refl, true, false, Option, none, some, List, [], ◌∷◌, arith, ◌∙◌,
  sym, nat_beq, ltb, inl, inr, if◌then◌else◌, min, ap,
}
use native.Mathlib.Decide.{dec_lt, ℕ_discrete}
use project_distributed_key.Core.Raft.{LogEntry, AppendEntriesArgs, AppendEntriesReply}
use project_distributed_key.Raft.State.{Raft, Clock, get_last_log_index, get_log_term}
use project_distributed_key.Raft.Append.{
  append_entries, check_and_append, accept_leader, follow_commit,
}
use project_distributed_key.Raft.Log.{IsLog, Contiguous, get_log_term_in_range}
use project_distributed_key.Raft.Log.Appending.{Holds, append_loop_total}
use project_distributed_key.Raft.Log.Backtrack.{RunStart, run_start-RunStart}

-- Stepping down does not touch the log.
pub accept_leader-IsLog :
    (c : Clock) (rf : Raft) (term : ℕ) → IsLog rf → IsLog (accept_leader c rf term)
unfolding accept_leader
accept_leader-IsLog c rf term w = record {
  nonempty = ground (arith, w.nonempty);
  contiguous = ground (arith, w.contiguous);
}

nat_beq_ne : (a b : ℕ) → a ≢ b → nat_beq a b ≡ false
nat_beq_ne a b h = ground arith

-- What does not touch the log.
pub record SameLog (a b : Raft) : Type 0 where
  pub base : b.last_included_index ≡ a.last_included_index
  pub last : get_last_log_index b ≡ get_last_log_index a
  pub reads : (j : ℕ) → get_log_term b j ≡ get_log_term a j

pub record SameCommit (a b : Raft) : Type 0 where
  pub same_log : SameLog a b
  pub open same_log use *
  pub commit : b.commit_index ≡ a.commit_index

pub accept_leader-SameLog :
    (c : Clock) (rf : Raft) (term : ℕ) → SameCommit rf (accept_leader c rf term)
unfolding accept_leader get_log_term
accept_leader-SameLog c rf term = record {
  same_log = record { base = ground arith; last = ground arith; reads = λ j. ground arith };
  commit = ground arith;
}

follow_commit-SameLog :
    (rf : Raft) (leader_commit last : ℕ) → SameLog rf (follow_commit rf leader_commit last)
unfolding follow_commit get_log_term
follow_commit-SameLog rf leader_commit last = record {
  base = ground arith;
  last = ground arith;
  reads = λ j. ground arith;
}

pub Holds-cong :
    (a b : Raft) (idx : ℕ) (entries : List LogEntry)
    → ((j : ℕ) → get_log_term b j ≡ get_log_term a j)
    → Holds a idx entries
    → Holds b idx entries
Holds-cong a b idx [] same h = tt
Holds-cong a b idx (e ∷ es) same h = (same idx ∙ h.0, Holds-cong a b (idx + 1) es same h.1)

-- An accepted AppendEntries: the previous entry is there with the leader's term. The reply is a
-- success with the peer's term from before, the log holds the request's terms at their indices and what it held before them, and
-- the commit index follows the leader's as far as the log goes.
pub append_entries_accepts :
    (c : Clock) (rf : Raft) (args : AppendEntriesArgs)
    → IsLog rf
    → rf.current_term ≤ args.term
    → rf.last_included_index ≤ args.prev_log_index
    → args.prev_log_index ≤ get_last_log_index rf
    → get_log_term rf args.prev_log_index ≡ some args.prev_log_term
    → Contiguous (args.prev_log_index + 1) args.entries
    → (rf' : Raft) × (reply : AppendEntriesReply) × (append_entries c rf args ≡ some (rf', reply))
      × (reply.success ≡ true)
      × (reply.term ≡ rf.current_term)
      × IsLog rf'
      × Holds rf' (args.prev_log_index + 1) args.entries
      × ((j : ℕ) → j ≤ args.prev_log_index → get_log_term rf' j ≡ get_log_term rf j)
      × (rf'.commit_index ≡ (
          if ltb rf.commit_index args.leader_commit
          then min args.leader_commit (get_last_log_index rf')
          else rf.commit_index))
unfolding append_entries check_and_append follow_commit
append_entries_accepts c rf args w term low high agree places =
    let rf' = accept_leader c rf args.term in
    let f = accept_leader-SameLog c rf args.term in
    let prev = args.prev_log_index in
    let (end, ran, s) =
      append_loop_total rf' (prev + 1) args.entries (accept_leader-IsLog c rf args.term w)
        (omega (arith, f.base)) (omega (arith, f.last)) places in
    let final = follow_commit end args.leader_commit (get_last_log_index end) in
    let g = follow_commit-SameLog end args.leader_commit (get_last_log_index end) in
    (
      final,
      record {
        term = rf.current_term;
        success = true;
        x_term = some 0;
        x_index = some 0;
        x_len = 0;
      },
      ground (arith, ran, f.base, f.last, f.reads prev),
      refl,
      refl,
      record {
        nonempty = ground (arith, s.log.nonempty);
        contiguous = ground (arith, s.log.contiguous);
      },
      Holds-cong end final (prev + 1) args.entries g.reads s.holds,
      λ j h. g.reads j ∙ s.before j (omega arith) ∙ f.reads j,
      ground (arith, g.last, s.commit, f.commit),
    )

abbrev Rejection : ℕ → Option ℕ → Option ℕ → ℕ → AppendEntriesReply
Rejection term x_term x_index x_len = record {
  term = term;
  success = false;
  x_term = x_term;
  x_index = x_index;
  x_len = x_len;
}

pub append_entries_rejects :
    (c : Clock) (rf : Raft) (args : AppendEntriesArgs)
    → IsLog rf
    → let rf' = accept_leader c rf args.term in
      let prev = args.prev_log_index in
      let last = get_last_log_index rf in
      (args.term < rf.current_term
        → append_entries c rf args ≡ some (rf, Rejection rf.current_term (some 0) (some 0) 0))
      × (rf.current_term ≤ args.term
          → last < prev
          → append_entries c rf args ≡ some (rf', Rejection rf.current_term none none (last + 1)))
      × (rf.current_term ≤ args.term
          → prev < rf.last_included_index
          → append_entries c rf args
            ≡ some (rf', Rejection rf.current_term none none (rf.last_included_index + 1)))
      × ((t : ℕ)
          → rf.current_term ≤ args.term
          → rf.last_included_index ≤ prev
          → prev ≤ last
          → get_log_term rf prev ≡ some t
          → t ≢ args.prev_log_term
          → (r : ℕ) × (append_entries c rf args
              ≡ some (rf', Rejection rf.current_term (some t) (some r) (last + 1)))
            × RunStart rf t r (prev + 1))
unfolding append_entries check_and_append
append_entries_rejects c rf args w =
    let rf' = accept_leader c rf args.term in
    let f = accept_leader-SameLog c rf args.term in
    let prev = args.prev_log_index in
    let base = f.base in
    let last = f.last in
    let w0 = w.nonempty in
    (
      λ old. ground arith,
      λ new long. ground arith,
      λ new early. ground arith,
      λ t new low high read differs.
          let (r, found, s) =
            run_start-RunStart rf' t prev (accept_leader-IsLog c rf args.term w)
              (omega (arith, base)) (omega (arith, last)) (f.reads prev ∙ read) in
          let differ = nat_beq_ne t args.prev_log_term differs in
          (
            r,
            ground (arith, found, f.reads prev, differ),
            record {
              low = omega (arith, s.low);
              high = s.high;
              run = λ j a b. sym (f.reads j) ∙ s.run j a b;
              stops = elim s.stops [
                | inl e ↦ inl (e ∙ base)
                | inr n ↦ inr (λ e. n (f.reads (r - 1) ∙ e))
              ];
            },
          ),
    )

-- On every branch AppendEntries returns, without a panic, and leaves the log in order, if the
-- request's entries are numbered from its previous index on.
pub append_entries_total :
    (c : Clock) (rf : Raft) (args : AppendEntriesArgs)
    → IsLog rf
    → Contiguous (args.prev_log_index + 1) args.entries
    → (r : Raft × AppendEntriesReply) × (append_entries c rf args ≡ some r) × IsLog r.0
append_entries_total c rf args w places =
    let (stale, long, early, differing) = append_entries_rejects c rf args w in
    let prev = args.prev_log_index in
    let w' = accept_leader-IsLog c rf args.term w in
    elim (dec_lt args.term rf.current_term) [
      | yes old ↦ (_, stale old, w)
      | no new ↦ elim (dec_lt (get_last_log_index rf) prev) [
        | yes past ↦ (_, long (omega arith) past, w')
        | no within ↦ elim (dec_lt prev rf.last_included_index) [
          | yes before ↦ (_, early (omega arith) before, w')
          | no after ↦
              let (t, read) = get_log_term_in_range rf prev w (omega arith) (omega arith) in
              elim (ℕ_discrete t args.prev_log_term) [
                | yes same ↦
                    let (rf', reply, ran, _, _, log, _, _, _) =
                      append_entries_accepts c rf args w (omega arith) (omega arith) (omega arith)
                        (read ∙ ap some same) places in
                    ((rf', reply), ran, log)
                | no other ↦
                    let (r, ran, _) =
                      differing t (omega arith) (omega arith) (omega arith) read other in
                    (_, ran, w')
              ]
        ]
      ]
    ]
