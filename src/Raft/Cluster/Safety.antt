-- ===== src/Raft/Cluster/Safety.antt =====
-- internal/raft/election.go: a cluster has one leader in a term.
use project_distributed_key.Base.{
  ℕ, ◌<◌, ◌≡◌, refl, sym, subst, ◌∙◌, true, false, ◌&&◌, some, List, arith, inl, inr, Bool-cases,
  nat_beq, nat_beq_iff, ◌≢◌, ◌/◌,
}
use project_distributed_key.Base.Keys.{GoString}
use project_distributed_key.Raft.State.{Clock, is_leader, make}
use project_distributed_key.Raft.Cluster.{Cluster, Reach, here, next, start_cluster}
use project_distributed_key.Raft.Cluster.Counting.{count_below, count-disjoint}
use project_distributed_key.Raft.Cluster.Invariant.{Inv}
use project_distributed_key.Raft.Cluster.Invariant.Steps.{Step-Inv}

start_cluster-Inv : (addresses : List GoString) (c : Clock) → Inv (start_cluster addresses c)
unfolding start_cluster make
start_cluster-Inv addresses c = record {
  voters = λ i. record {
    durable = refl;
    me = refl;
    members = refl;
    past = λ t v h. absurd (ground arith);
    now = λ v h. absurd (ground arith);
  };
  candidates = λ i. record { tallied = λ t. omega arith; majority = λ h. absurd (ground arith) };
  genuine = λ i t j h. absurd (ground arith);
}

Reach-Inv : {a b : Cluster} → Inv a → Reach a b → Inv b
Reach-Inv inv here = inv
Reach-Inv inv (next b' r s) = Step-Inv (Reach-Inv inv r) s

-- The voters counted by two candidates of a term are different ones.
counted-disjoint :
    {a : Cluster} (t i j : ℕ)
    → Inv a
    → i ≢ j
    → (k : ℕ) → (a.counted i t k && a.counted j t k) ≡ false
counted-disjoint {a} t i j inv apart k = elim (Bool-cases (a.counted i t k)) [
  | inl for_i ↦ elim (Bool-cases (a.counted j t k)) [
    | inl for_j ↦
        let vote = inv.genuine i t k for_i in
        let vote' = inv.genuine j t k for_j in
        let same : some i ≡ some j = sym vote ∙ vote' in absurd (apart (ground arith))
    | inr out ↦ ground arith
  ]
  | inr out ↦ ground arith
]

-- In every state a cluster reaches from its start, by any interleaving of elections, votes, replies
-- and the other events of its peers, crashes included, two peers that lead in one term are one;
-- where a vote that is counted was cast by its peer and is counted once.
pub one_leader_per_term :
    (addresses : List GoString) (c : Clock) (b : Cluster) (i j : ℕ)
    → Reach (start_cluster addresses c) b
    → is_leader (b.peers i).role ≡ true
    → is_leader (b.peers j).role ≡ true
    → (b.peers i).current_term ≡ (b.peers j).current_term
    → i ≡ j
one_leader_per_term addresses c b i j r leads leads' same =
    let inv = Reach-Inv (start_cluster-Inv addresses c) r in
    let most = (inv.candidates i).majority leads in
    let most' = (inv.candidates j).majority leads' in
    let t = (b.peers i).current_term in
    let most'' = subst (λ u. b.size / 2 < count_below b.size (b.counted j u)) (sym same) most' in
    elim (Bool-cases (nat_beq i j)) [
      | inl e ↦ (nat_beq_iff i j).0 e
      | inr differ ↦
          let apart : i ≢ j = λ e. ground arith in
          let few =
            count-disjoint b.size (b.counted i t) (b.counted j t)
              (counted-disjoint t i j inv apart) in
          absurd (omega arith)
    ]
