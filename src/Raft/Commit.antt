-- ===== src/Raft/Commit.antt =====
-- internal/raft/replication.go: the entry that a leader commits.
use project_distributed_key.Base.{
  ℕ, zero, suc, ◌+◌, ◌-◌, ◌≤◌, ◌<◌, ◌≡◌, refl, Bool, true, false, ◌&&◌, some, arith, ◌∙◌,
  Bool-cases, nat_beq, inl, inr, ◌⊎◌, subst,
}
use project_distributed_key.Raft.State.{Raft, get_last_log_index, get_log_term}
use project_distributed_key.Raft.Replicate.{commit_loop, advance_commit, has_majority}
use project_distributed_key.Raft.Majority.{IsLeaderOf, MajorityHolds, has_majority_iff}
use project_distributed_key.Raft.Log.{IsLog, get_log_term_in_range}

-- An entry that the leader may commit: of its own term, and held by more than half of the peers, the
-- leader itself and those whose match index has come so far.
pub record MayCommit (rf : Raft) (n : ℕ) : Type 0 where
  pub term : get_log_term rf n ≡ some rf.current_term
  pub majority : MajorityHolds rf n

-- The new commit index: the highest entry up to `top` that may be committed, or the old one if
-- there is none above it.
pub record Committed (rf : Raft) (top : ℕ) (rf' : Raft) : Type 0 where
  pub only : rf' ≡ record rf { commit_index = rf'.commit_index }
  pub grows : rf.commit_index ≤ rf'.commit_index
  pub within : rf'.commit_index ≤ top
  pub may : (rf'.commit_index ≡ rf.commit_index) ⊎ MayCommit rf rf'.commit_index
  pub highest : (n : ℕ) → rf'.commit_index < n → n ≤ top → ¬ MayCommit rf n

module _ (rf : Raft) (k t : ℕ) (read : get_log_term rf (rf.commit_index + suc k) ≡ some t) where
  abbrev test : Bool
  test = nat_beq t rf.current_term && has_majority rf (rf.commit_index + suc k)

  commit_hit :
      test ≡ true
      → commit_loop rf (suc k) ≡ some (record rf { commit_index = rf.commit_index + suc k })
  unfolding commit_loop
  commit_hit hit = ground (arith, read, hit)

  commit_miss : test ≡ false → commit_loop rf (suc k) ≡ commit_loop rf k
  unfolding commit_loop
  commit_miss miss = ground (arith, read, miss)

  not_MayCommit : IsLeaderOf rf → test ≡ false → ¬ MayCommit rf (rf.commit_index + suc k)
  not_MayCommit leads miss may =
      let passes = (has_majority_iff rf (rf.commit_index + suc k) leads).1 may.majority in
      ground (arith, may.term, passes)

commit_loop-Committed :
    (rf : Raft) (k : ℕ)
    → IsLog rf
    → IsLeaderOf rf
    → rf.last_included_index ≤ rf.commit_index
    → rf.commit_index + k ≤ get_last_log_index rf
    → (rf' : Raft) × (commit_loop rf k ≡ some rf') × Committed rf (rf.commit_index + k) rf'
unfolding commit_loop
commit_loop-Committed rf zero w leads low high = (
  rf,
  refl,
  record {
    only = refl;
    grows = omega arith;
    within = omega arith;
    may = inl refl;
    highest = λ n a b _. omega arith;
  },
)
commit_loop-Committed rf (suc k) w leads low high =
    let n = rf.commit_index + suc k in
    let (t, read) = get_log_term_in_range rf n w (omega arith) (omega arith) in
    elim (Bool-cases (nat_beq t rf.current_term && has_majority rf n)) [
      | inl hit ↦ (
        record rf { commit_index = n },
        commit_hit rf k t read hit,
        record {
          only = refl;
          grows = omega arith;
          within = omega arith;
          may = inr (record {
            term = ground arith;
            majority = (has_majority_iff rf n leads).0 (ground arith);
          });
          highest = λ m a b _. omega arith;
        },
      )
      | inr miss ↦
          let (rf', ran, s) = commit_loop-Committed rf k w leads low (omega arith) in
          (
            rf',
            commit_miss rf k t read miss ∙ ran,
            record {
              only = s.only;
              grows = s.grows;
              within = omega (arith, s.within);
              may = s.may;
              highest = λ m a b may. elim (Bool-cases (nat_beq m n)) [
                | inl top ↦
                    let same : m ≡ n = ground arith in
                    not_MayCommit rf k t read leads miss (subst (MayCommit rf) same may)
                | inr below ↦ s.highest m a (ground arith) may
              ];
            },
          )
    ]

-- After a successful reply a leader, with a match index for each peer, commits the highest entry of
-- its own term that more than half of the peers hold, as far as it knows, and that lies past its
-- commit index, if there is one; nothing else changes, and nothing panics.
pub advance_commit-Committed :
    (rf : Raft)
    → IsLog rf
    → IsLeaderOf rf
    → rf.last_included_index ≤ rf.commit_index
    → rf.commit_index ≤ get_last_log_index rf
    → (rf' : Raft) × (advance_commit rf ≡ some rf') × Committed rf (get_last_log_index rf) rf'
unfolding advance_commit
advance_commit-Committed rf w leads low high =
    let k = get_last_log_index rf - rf.commit_index in
    let (rf', ran, s) = commit_loop-Committed rf k w leads low (omega arith) in
    let top : rf.commit_index + k ≡ get_last_log_index rf = omega arith in
    (rf', ran, subst (λ n. Committed rf n rf') top s)
