-- ===== src/Raft/Step/Persistence/Others.antt =====
-- internal/raft: terms and votes under compaction, a leader's replies, the applier and a restart.
use project_distributed_key.Base.{
  subst, ℕ, zero, suc, ◌+◌, ◌-◌, ◌≡◌, some, List, arith, inl, inr, Option-cases, get_elem?, length,
}
use project_distributed_key.Base.Options.{>>=-eq-some}
use project_distributed_key.Core.Raft.{
  AppendEntriesArgs, AppendEntriesReply, InstallSnapshotArgs, InstallSnapshotReply, ApplyMsg,
}
use project_distributed_key.Raft.State.{Raft, Clock, make, get_last_log_index}
use project_distributed_key.Raft.Vote.{start_election, on_vote_reply, request_vote}
use project_distributed_key.Raft.Append.{append_entries}
use project_distributed_key.Raft.Compact.{
  take_snapshot, install_snapshot, on_snapshot_reply, record_match,
}
use project_distributed_key.Raft.Replicate.{start, on_append_reply, commit_loop, advance_commit}
use project_distributed_key.Raft.Apply.{apply, drain}
use project_distributed_key.Core.Command.{Command}
use project_distributed_key.Base.Keys.{GoString}
use project_distributed_key.Raft.Step.{
  Event, timeout, apply_wakeup, crash, vote_request, vote_reply, append_request, append_reply,
  snapshot_request, snapshot_reply, propose, compact, handle,
}
use project_distributed_key.Raft.Step.Persistence.{
  IsDurable, Advances, SameVote, SameVote-Advances, start_election-Advances, on_vote_reply-Advances,
  request_vote-Advances, append_entries-Advances, install_snapshot-Advances,
}

pub take_snapshot-Advances :
    (rf : Raft) (index : ℕ) (snapshot : GoString) (rf' : Raft)
    → IsDurable rf
    → take_snapshot rf index snapshot ≡ some rf'
    → Advances rf rf'
unfolding take_snapshot
take_snapshot-Advances rf index snapshot rf' d e = SameVote-Advances (record {
  term = ground arith;
  vote = ground arith;
  durable = ground arith;
  same_peers = ground arith;
  same_me = ground arith;
  leads = λ h. ground arith;
})

pub on_snapshot_reply-Advances :
    (c : Clock) (rf : Raft) (peer term : ℕ) (args : InstallSnapshotArgs)
    (reply : InstallSnapshotReply) (rf' : Raft)
    → IsDurable rf
    → on_snapshot_reply c rf peer term args reply ≡ some rf'
    → Advances rf rf'
unfolding on_snapshot_reply
on_snapshot_reply-Advances c rf peer term args reply rf' d e = record {
  terms = ground arith;
  votes = λ v same h. ground arith;
  durable = ground arith;
  same_peers = ground arith;
  same_me = ground arith;
}

pub start-Advances :
    (rf : Raft) (command : Command) → IsDurable rf → Advances rf (start rf command).0
unfolding start
start-Advances rf command d = SameVote-Advances (record {
  term = ground arith;
  vote = ground arith;
  durable = ground arith;
  same_peers = ground arith;
  same_me = ground arith;
  leads = λ h. ground arith;
})

pub commit_loop-SameVote :
    (rf : Raft) (k : ℕ) (rf' : Raft) → IsDurable rf → commit_loop rf k ≡ some rf' → SameVote rf rf'
unfolding commit_loop
commit_loop-SameVote rf zero rf' d e = record {
  term = ground arith;
  vote = ground arith;
  durable = ground arith;
  same_peers = ground arith;
  same_me = ground arith;
  leads = λ h. ground arith;
}
commit_loop-SameVote rf (suc k) rf' d e =
    let ih = commit_loop-SameVote rf k rf' d in
    record {
      term = ground (arith, ih);
      vote = ground (arith, ih);
      durable = ground (arith, ih);
      same_peers = ground (arith, ih);
      same_me = ground (arith, ih);
      leads = λ h. ground (arith, ih);
    }

pub on_append_reply-Advances :
    (c : Clock) (rf : Raft) (peer term : ℕ) (args : AppendEntriesArgs) (reply : AppendEntriesReply)
    (rf' : Raft)
    → IsDurable rf
    → on_append_reply c rf peer term args reply ≡ some rf'
    → Advances rf rf'
unfolding on_append_reply advance_commit
on_append_reply-Advances c rf peer term args reply rf' d e =
    elim (Option-cases (get_elem? rf.match_index peer)) [
      | inl missing ↦ record {
        terms = ground arith;
        votes = λ v same h. ground arith;
        durable = ground arith;
        same_peers = ground arith;
        same_me = ground arith;
      }
      | inr (found, got) ↦
          let recorded = record_match rf peer found (args.prev_log_index + length args.entries) in
          let s =
            commit_loop-SameVote recorded (get_last_log_index recorded - recorded.commit_index) rf'
              d in
          record {
            terms = ground (arith, s);
            votes = λ v same h. ground (arith, s);
            durable = ground (arith, s);
            same_peers = ground (arith, s);
            same_me = ground (arith, s);
          }
    ]

pub drain-SameVote :
    (k : ℕ) (rf : Raft) (r : Raft × List ApplyMsg)
    → IsDurable rf
    → drain k rf ≡ some r
    → SameVote rf r.0
unfolding drain
drain-SameVote zero rf r d e = record {
  term = ground arith;
  vote = ground arith;
  durable = ground arith;
  same_peers = ground arith;
  same_me = ground arith;
  leads = λ h. ground arith;
}
drain-SameVote (suc k) rf r d e =
    let rf' = record rf { last_applied = rf.last_applied + 1 } in
    elim (Option-cases (drain k rf')) [
      | inl panicked ↦ record {
        term = ground arith;
        vote = ground arith;
        durable = ground arith;
        same_peers = ground arith;
        same_me = ground arith;
        leads = λ h. ground arith;
      }
      | inr (x, ran) ↦
          let s = drain-SameVote k rf' x d ran in
          record {
            term = ground (arith, s.term);
            vote = ground (arith, s.vote);
            durable = ground (arith, s.durable);
            same_peers = ground (arith, s.same_peers);
            same_me = ground (arith, s.same_me);
            leads = λ h. ground (arith, s.leads);
          }
    ]

pub apply-SameVote :
    (rf : Raft) (r : Raft × List ApplyMsg) → IsDurable rf → apply rf ≡ some r → SameVote rf r.0
unfolding apply
apply-SameVote rf r d e =
    let s = drain-SameVote (rf.commit_index - rf.last_applied) rf r d in
    record {
      term = ground (arith, s);
      vote = ground (arith, s);
      durable = ground (arith, s);
      same_peers = ground (arith, s);
      same_me = ground (arith, s);
      leads = λ h. ground (arith, s);
    }

pub make-SameVote :
    (rf : Raft) (c : Clock) → IsDurable rf → SameVote rf (make rf.peers rf.me rf.persister c)
unfolding make
make-SameVote rf c d = record {
  term = ground arith;
  vote = ground arith;
  durable = ground arith;
  same_peers = ground arith;
  same_me = ground arith;
  leads = λ h. ground arith;
}

-- Every event moves the term and the vote forward only, and leaves them saved.
pub handle-Advances :
    (c : Clock) (rf : Raft) (e : Event) (rf' : Raft)
    → IsDurable rf
    → handle c rf e ≡ some rf'
    → Advances rf rf'
unfolding handle
handle-Advances c rf timeout rf' d h =
    let (r, ran, same) = >>=-eq-some (start_election c rf) _ h in
    let end : r.0 ≡ rf' = cc in subst (Advances rf) end (start_election-Advances c rf r ran)
handle-Advances c rf apply_wakeup rf' d h =
    let (r, ran, same) = >>=-eq-some (apply rf) _ h in
    let end : r.0 ≡ rf' = cc in
    subst (Advances rf) end (SameVote-Advances (apply-SameVote rf r d ran))
handle-Advances c rf crash rf' d h =
    let end : make rf.peers rf.me rf.persister c ≡ rf' = cc in
    subst (Advances rf) end (SameVote-Advances (make-SameVote rf c d))
handle-Advances c rf (vote_request args) rf' d h =
    let (r, ran, same) = >>=-eq-some (request_vote c rf args) _ h in
    let end : r.0 ≡ rf' = cc in subst (Advances rf) end (request_vote-Advances c rf args r d ran)
handle-Advances c rf (vote_reply e reply) rf' d h =
    let end : (on_vote_reply c rf e reply).0 ≡ rf' = cc in
    subst (Advances rf) end (on_vote_reply-Advances c rf e reply d)
handle-Advances c rf (append_request args) rf' d h =
    let (r, ran, same) = >>=-eq-some (append_entries c rf args) _ h in
    let end : r.0 ≡ rf' = cc in subst (Advances rf) end (append_entries-Advances c rf args r d ran)
handle-Advances c rf (append_reply peer term args reply) rf' d h =
    on_append_reply-Advances c rf peer term args reply rf' d h
handle-Advances c rf (snapshot_request args) rf' d h =
    let (r, ran, same) = >>=-eq-some (install_snapshot c rf args) _ h in
    let end : r.0 ≡ rf' = cc in
    subst (Advances rf) end (install_snapshot-Advances c rf args r d ran)
handle-Advances c rf (snapshot_reply peer term args reply) rf' d h =
    on_snapshot_reply-Advances c rf peer term args reply rf' d h
handle-Advances c rf (propose cmd) rf' d h =
    let end : (start rf cmd).0 ≡ rf' = cc in subst (Advances rf) end (start-Advances rf cmd d)
handle-Advances c rf (compact index snapshot) rf' d h =
    take_snapshot-Advances rf index snapshot rf' d h
