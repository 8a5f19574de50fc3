-- ===== src/Raft/Cluster/Invariant.antt =====
-- internal/raft/election.go: what every reachable cluster satisfies, for one peer at a time. A voter
-- has cast no vote in a term to come, and its vote of the present term is the one it has saved. A
-- candidate's count is of votes that were cast for it, and a leader has counted a majority.
mod Events
mod Tallies
pub mod Steps
use project_distributed_key.Base.{
  ℕ, ◌/◌, ◌≤◌, ◌<◌, ◌≡◌, Bool, true, false, Option, none, some, length, update, nat_beq,
}
use project_distributed_key.Raft.State.{Raft, is_leader}
use project_distributed_key.Raft.Step.Persistence.{IsDurable}
use project_distributed_key.Raft.Cluster.{Cluster}
use project_distributed_key.Raft.Cluster.Counting.{count_below}

-- `cast` is what the peer `i` of `n` has granted in each term.
pub record Voter (n i : ℕ) (cast : ℕ → Option ℕ) (rf : Raft) : Type 0 where
  pub durable : IsDurable rf
  pub me : rf.me ≡ i
  pub members : length rf.peers ≡ n
  pub past : (t v : ℕ) → cast t ≡ some v → t ≤ rf.current_term
  pub now : (v : ℕ) → cast rf.current_term ≡ some v → rf.voted_for ≡ some v

-- `counted` and `tallies` are the candidate's, for each term.
pub record Candidate (n : ℕ) (counted : ℕ → ℕ → Bool) (tallies : ℕ → ℕ) (rf : Raft) : Type 0 where
  pub tallied : (t : ℕ) → tallies t ≤ count_below n (counted t)
  pub majority : is_leader rf.role ≡ true → n / 2 < count_below n (counted rf.current_term)

pub record Inv (a : Cluster) : Type 0 where
  pub voters : (i : ℕ) → Voter a.size i (a.cast i) (a.peers i)
  pub candidates : (i : ℕ) → Candidate a.size (a.counted i) (a.tallies i) (a.peers i)
  pub genuine : (i t j : ℕ) → a.counted i t j ≡ true → a.cast j t ≡ some i
