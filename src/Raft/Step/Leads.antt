-- ===== src/Raft/Step/Leads.antt =====
-- internal/raft: only the count of votes makes a leader. Any other event leaves a leader one of the
-- term in which it already led.
use project_distributed_key.Base.{
  ℕ, ◌+◌, ◌-◌, ◌≡◌, true, some, List, arith, ◌∙◌, inl, inr, sym, Option-cases, Bool-cases, ltb,
  get_elem?, length, subst,
}
use project_distributed_key.Base.Options.{>>=-eq-some}
use project_distributed_key.Core.Raft.{
  AppendEntriesArgs, AppendEntriesReply, InstallSnapshotArgs, InstallSnapshotReply,
}
use project_distributed_key.Raft.State.{Raft, Clock, is_leader, get_last_log_index, make}
use project_distributed_key.Raft.Append.{append_entries, accept_leader}
use project_distributed_key.Raft.Compact.{
  take_snapshot, install_snapshot, on_snapshot_reply, record_match,
}
use project_distributed_key.Raft.Replicate.{start, on_append_reply, advance_commit}
use project_distributed_key.Raft.Apply.{apply}
use project_distributed_key.Raft.Step.{
  Event, timeout, apply_wakeup, crash, vote_request, vote_reply, append_request, append_reply,
  snapshot_request, snapshot_reply, propose, compact, handle,
}
use project_distributed_key.Raft.Step.Persistence.{
  IsDurable, SameVote, accept_leader-Advances, check_and_append-SameVote,
}
use project_distributed_key.Raft.Step.Persistence.Others.{
  commit_loop-SameVote, apply-SameVote, make-SameVote,
}

-- `b` leads only if `a` did, in the same term.
pub record Leads (a b : Raft) : Type 0 where
  pub led : is_leader b.role ≡ true → is_leader a.role ≡ true
  pub term : is_leader b.role ≡ true → a.current_term ≡ b.current_term

SameVote-Leads : {a b : Raft} → SameVote a b → Leads a b
SameVote-Leads s = record { led = s.leads; term = λ h. sym s.term }

Leads-trans : {a b c : Raft} → Leads a b → Leads b c → Leads a c
Leads-trans p q = record { led = λ h. p.led (q.led h); term = λ h. p.term (q.led h) ∙ q.term h }

accept_leader-Leads : (c : Clock) (rf : Raft) (term : ℕ) → Leads rf (accept_leader c rf term)
unfolding accept_leader
accept_leader-Leads c rf term = record { led = λ h. ground arith; term = λ h. ground arith }

append_entries-Leads :
    (c : Clock) (rf : Raft) (args : AppendEntriesArgs) (r : Raft × AppendEntriesReply)
    → IsDurable rf
    → append_entries c rf args ≡ some r
    → Leads rf r.0
unfolding append_entries
append_entries-Leads c rf args r d e = elim (Bool-cases (ltb args.term rf.current_term)) [
  | inl old ↦ record { led = λ h. ground arith; term = λ h. ground arith }
  | inr current ↦
      let down = accept_leader-Advances c rf args.term d in
      Leads-trans (accept_leader-Leads c rf args.term) (
        SameVote-Leads (
          check_and_append-SameVote (accept_leader c rf args.term) rf.current_term args r
            down.durable (ground arith)))
]

install_snapshot-Leads :
    (c : Clock) (rf : Raft) (args : InstallSnapshotArgs) (r : Raft × InstallSnapshotReply)
    → install_snapshot c rf args ≡ some r
    → Leads rf r.0
unfolding install_snapshot
install_snapshot-Leads c rf args r e =
    let down = accept_leader-Leads c rf args.term in
    record { led = λ h. ground (arith, down.led); term = λ h. ground (arith, down.term) }

take_snapshot-Leads :
    (rf : Raft) (index : ℕ) (snapshot : List ℕ) (rf' : Raft)
    → take_snapshot rf index snapshot ≡ some rf'
    → Leads rf rf'
unfolding take_snapshot
take_snapshot-Leads rf index snapshot rf' e = record {
  led = λ h. ground arith;
  term = λ h. ground arith;
}

on_snapshot_reply-Leads :
    (c : Clock) (rf : Raft) (peer term : ℕ) (args : InstallSnapshotArgs)
    (reply : InstallSnapshotReply) (rf' : Raft)
    → on_snapshot_reply c rf peer term args reply ≡ some rf'
    → Leads rf rf'
unfolding on_snapshot_reply
on_snapshot_reply-Leads c rf peer term args reply rf' e = record {
  led = λ h. ground arith;
  term = λ h. ground arith;
}

on_append_reply-Leads :
    (c : Clock) (rf : Raft) (peer term : ℕ) (args : AppendEntriesArgs) (reply : AppendEntriesReply)
    (rf' : Raft)
    → IsDurable rf
    → on_append_reply c rf peer term args reply ≡ some rf'
    → Leads rf rf'
unfolding on_append_reply advance_commit
on_append_reply-Leads c rf peer term args reply rf' d e =
    elim (Option-cases (get_elem? rf.match_index peer)) [
      | inl missing ↦ record { led = λ h. ground arith; term = λ h. ground arith }
      | inr (found, got) ↦
          let recorded = record_match rf peer found (args.prev_log_index + length args.entries) in
          let s =
            commit_loop-SameVote recorded (get_last_log_index recorded - recorded.commit_index) rf'
              d in
          record { led = λ h. ground (arith, s); term = λ h. ground (arith, s) }
    ]

-- The events that are not part of an election.
abbrev pub IsOther : Event → Type 0
IsOther timeout = ⊥
IsOther (vote_request args) = ⊥
IsOther (vote_reply e reply) = ⊥
IsOther _ = Unit {0}

pub handle-Leads :
    (c : Clock) (rf : Raft) (e : Event) (rf' : Raft)
    → IsOther e
    → IsDurable rf
    → handle c rf e ≡ some rf'
    → Leads rf rf'
unfolding handle start
handle-Leads c rf timeout rf' o d h = absurd o
handle-Leads c rf (vote_request args) rf' o d h = absurd o
handle-Leads c rf (vote_reply e reply) rf' o d h = absurd o
handle-Leads c rf apply_wakeup rf' o d h =
    let (r, ran, same) = >>=-eq-some (apply rf) _ h in
    let end : r.0 ≡ rf' = cc in subst (Leads rf) end (SameVote-Leads (apply-SameVote rf r d ran))
handle-Leads c rf crash rf' o d h =
    let end : make rf.peers rf.me rf.persister c ≡ rf' = cc in
    subst (Leads rf) end (SameVote-Leads (make-SameVote rf c d))
handle-Leads c rf (append_request args) rf' o d h =
    let (r, ran, same) = >>=-eq-some (append_entries c rf args) _ h in
    let end : r.0 ≡ rf' = cc in subst (Leads rf) end (append_entries-Leads c rf args r d ran)
handle-Leads c rf (append_reply peer term args reply) rf' o d h =
    on_append_reply-Leads c rf peer term args reply rf' d h
handle-Leads c rf (snapshot_request args) rf' o d h =
    let (r, ran, same) = >>=-eq-some (install_snapshot c rf args) _ h in
    let end : r.0 ≡ rf' = cc in subst (Leads rf) end (install_snapshot-Leads c rf args r ran)
handle-Leads c rf (snapshot_reply peer term args reply) rf' o d h =
    on_snapshot_reply-Leads c rf peer term args reply rf' h
handle-Leads c rf (propose cmd) rf' o d h = record {
  led = λ l. ground arith;
  term = λ l. ground arith;
}
handle-Leads c rf (compact index snapshot) rf' o d h = take_snapshot-Leads rf index snapshot rf' h
