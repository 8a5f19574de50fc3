-- ===== src/Raft/Majority.antt =====
-- internal/raft/replication.go: what the test of a leader before it commits an entry says, against a
-- count of the peers that hold the entry as far as the leader knows.
use project_distributed_key.Base.{
  ℕ, suc, ◌+◌, ◌*◌, ◌<◌, ◌≡◌, ◌↔◌, refl, sym, ap, ◌∙◌, Bool, true, false, not, ◌&&◌, ◌||◌, Option,
  none, some, List, [], ◌∷◌, arith, nat_beq, nat_beq_iff, leb, length, length-replicate, get_elem?,
  if◌then◌else◌, Bool-cases, inl, inr,
}
use project_distributed_key.Raft.State.{Raft}
use project_distributed_key.Raft.Vote.{transition_to_leader}
use project_distributed_key.Raft.Replicate.{count_holders, has_majority}
use project_distributed_key.Raft.Cluster.Counting.{count_below, count-ext, count_first, count_also}

-- What a leader counts on: an own slot, and one match index, for each peer.
pub record IsLeaderOf (rf : Raft) : Type 0 where
  pub own : rf.me < length rf.peers
  pub slots : length rf.match_index ≡ length rf.peers

-- A peer that wins an election has the slots.
transition_to_leader-IsLeaderOf :
    (rf : Raft) → rf.me < length rf.peers → IsLeaderOf (transition_to_leader rf)
unfolding transition_to_leader
transition_to_leader-IsLeaderOf rf own = record {
  own = own;
  slots = length-replicate (length rf.peers) 0;
}

abbrev pub reached : ℕ → Option ℕ → Bool
reached n none = false
reached n (some m) = leb n m

-- Peer `i` holds entry `n`: it is the leader itself, or has matched its log so far.
abbrev pub holds : Raft → ℕ → ℕ → Bool
holds rf n i = nat_beq i rf.me || reached n (get_elem? rf.match_index i)

-- More than half of the peers hold entry `n`.
abbrev pub MajorityHolds : Raft → ℕ → Type 0
MajorityHolds rf n = length rf.peers < 2 * count_below (length rf.peers) (holds rf n)

abbrev other_holds : ℕ → ℕ → ℕ → List ℕ → ℕ → Bool
other_holds me n p ms j = not (nat_beq (p + j) me) && reached n (get_elem? ms j)

count_holders-count :
    (me n p : ℕ) (ms : List ℕ)
    → count_holders me n p ms ≡ count_below (length ms) (other_holds me n p ms)
unfolding count_holders count_below
count_holders-count me n p [] = refl
count_holders-count me n p (m ∷ ms) =
    let rest = count_holders-count me n (p + 1) ms in
    let behind : ℕ → Bool = λ j. other_holds me n p (m ∷ ms) (suc j) in
    let place : (j : ℕ) → p + 1 + j ≡ p + suc j = λ j. omega arith in
    let shift =
      count-ext (length ms) (other_holds me n (p + 1) ms) behind
        (λ j. ap (λ q. not (nat_beq q me) && reached n (get_elem? ms j)) (place j)) in
    let zeroth : p + 0 ≡ p = omega arith in
    let here : count_holders me n p (m ∷ ms) ≡ (
        if other_holds me n p (m ∷ ms) 0
        then 1 + count_below (length ms) behind
        else count_below (length ms) behind) =
      rw zeroth (ground arith) in
    here ∙ sym (count_first (length ms) (other_holds me n p (m ∷ ms)))

has_majority-count :
    (rf : Raft) (n : ℕ)
    → IsLeaderOf rf
    → count_below (length rf.peers) (holds rf n) ≡ suc (count_holders rf.me n 0 rf.match_index)
has_majority-count rf n w =
    let others = other_holds rf.me n 0 rf.match_index in
    let apart : others rf.me ≡ false = ground (arith, nat_beq_iff rf.me rf.me) in
    let split =
      count-ext (length rf.peers) (holds rf n) (λ j. nat_beq j rf.me || others j)
        (λ j. elim (Bool-cases (nat_beq j rf.me)) [
          | inl own ↦ ground arith
          | inr other ↦ ground arith
        ]) in
    split
    ∙ count_also (length rf.peers) rf.me others w.own apart
    ∙ ap suc (
        sym (count_holders-count rf.me n 0 rf.match_index ∙ ap (λ k. count_below k others) w.slots))

-- The test is that of a majority.
pub has_majority_iff :
    (rf : Raft) (n : ℕ) → IsLeaderOf rf → (has_majority rf n ≡ true) ↔ MajorityHolds rf n
has_majority_iff rf n w =
    let count = has_majority-count rf n w in (λ h. ground arith, λ h. ground arith)
