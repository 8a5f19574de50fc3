-- ===== src/Raft/Cluster/Invariant/Steps.antt =====
-- internal/raft/election.go: every step of a cluster keeps the invariant.
use project_distributed_key.Base.{
  ℕ, ◌<◌, ◌≡◌, refl, ap, Bool, true, false, Option, some, update, update-elim, update-elim_two,
  update-elim_three, nat_beq, nat_beq_iff, arith, inl, inr, Bool-cases,
}
use project_distributed_key.Core.Raft.{RequestVoteArgs, RequestVoteReply}
use project_distributed_key.Raft.State.{Raft, Clock}
use project_distributed_key.Raft.Vote.{Election, start_election, on_vote_reply, request_vote}
use project_distributed_key.Raft.Step.Persistence.{
  Advances, on_vote_reply-Advances, request_vote-Advances,
}
use project_distributed_key.Raft.Step.Persistence.Others.{handle-Advances}
use project_distributed_key.Raft.Step.Leads.{Leads, handle-Leads}
use project_distributed_key.Raft.Cluster.{
  Cluster, Step, elect, grant, refuse, tally, other, update_at, mark_counted, replace, after_elect,
  after_grant, after_tally, election_of,
}
use project_distributed_key.Raft.Cluster.Invariant.{Inv, Voter, Candidate}
use project_distributed_key.Raft.Cluster.Invariant.Events.{
  Advances-Voter, Leads-Candidate, elect-Voter, grant-Voter, grant-same, request_vote-Leads,
  start_election-begins,
}
use project_distributed_key.Raft.Cluster.Invariant.Tallies.{
  on_vote_reply-leads, on_vote_reply-refused, on_vote_reply-votes, mark-Candidate, keep-Candidate,
}

-- A vote that is cast for the first time, or again for the same candidate, takes no vote back.
cast-grows :
    (cast : ℕ → ℕ → Option ℕ) (j t w : ℕ)
    → ((v : ℕ) → cast j t ≡ some v → v ≡ w)
    → (k u v : ℕ) → cast k u ≡ some v
    → update_at cast j t (some w) k u ≡ some v
cast-grows cast j t w fits k u v h = elim (Bool-cases (nat_beq j k)) [
  | inl this ↦ elim (Bool-cases (nat_beq t u)) [
    | inl present ↦
        let same_j : j ≡ k = (nat_beq_iff j k).0 this in
        let same_t : t ≡ u = (nat_beq_iff t u).0 present in
        let old : cast j t ≡ some v = cc in let w' = fits v old in ground arith
    | inr later ↦
        let same_j : j ≡ k = (nat_beq_iff j k).0 this in
        let old : cast j u ≡ some v = cc in ground arith
  ]
  | inr another ↦ ground arith
]

mark-genuine :
    (counted : ℕ → ℕ → ℕ → Bool) (cast : ℕ → ℕ → Option ℕ) (i t j : ℕ)
    → cast j t ≡ some i
    → ((l u k : ℕ) → counted l u k ≡ true → cast k u ≡ some l)
    → (l u k : ℕ) → mark_counted counted i t j l u k ≡ true
    → cast k u ≡ some l
mark-genuine counted cast i t j new old l u k h = elim (Bool-cases (nat_beq i l)) [
  | inl this ↦ elim (Bool-cases (nat_beq t u)) [
    | inl present ↦ elim (Bool-cases (nat_beq j k)) [
      | inl there ↦
          let same_i : i ≡ l = (nat_beq_iff i l).0 this in
          let same_t : t ≡ u = (nat_beq_iff t u).0 present in
          let same_j : j ≡ k = (nat_beq_iff j k).0 there in cc
      | inr elsewhere ↦
          let same_i : i ≡ l = (nat_beq_iff i l).0 this in
          let same_t : t ≡ u = (nat_beq_iff t u).0 present in
          let before : counted i t k ≡ true = ground arith in
          let before' : counted l u k ≡ true = cc in old l u k before'
    ]
    | inr later ↦
        let same_i : i ≡ l = (nat_beq_iff i l).0 this in
        let before : counted i u k ≡ true = ground arith in
        let before' : counted l u k ≡ true = cc in old l u k before'
  ]
  | inr another ↦ old l u k (ground arith)
]

-- A peer that goes forward and comes to no new leadership.
replace-Inv :
    {a : Cluster} (i : ℕ) (rf : Raft)
    → Inv a
    → Advances (a.peers i) rf
    → Leads (a.peers i) rf
    → Inv (replace a i rf)
replace-Inv {a} i rf inv forward leads = record {
  voters =
      update-elim (λ k. Voter a.size k (a.cast k)) a.peers i rf
        (Advances-Voter (inv.voters i) forward) inv.voters;
  candidates =
      update-elim (λ k. Candidate a.size (a.counted k) (a.tallies k)) a.peers i rf
        (Leads-Candidate (inv.candidates i) leads) inv.candidates;
  genuine = inv.genuine;
}

grant-Inv :
    {a : Cluster} (c : Clock) (j : ℕ) (args : RequestVoteArgs) (rf : Raft)
    (reply : RequestVoteReply)
    → Inv a
    → request_vote c (a.peers j) args ≡ some (rf, reply)
    → reply.vote_granted ≡ true
    → Inv (after_grant a j rf args)
grant-Inv {a} c j args rf reply inv ran given =
    let voter = inv.voters j in
    let w = args.candidate_id in
    let fits : (v : ℕ) → a.cast j args.term ≡ some v → v ≡ w =
      λ v. grant-same c args reply v voter ran given in
    record {
      voters =
          update-elim_two (λ k. Voter a.size k) a.cast a.peers j
            (update (a.cast j) args.term (some w)) rf (grant-Voter c args reply voter ran given)
            inv.voters;
      candidates =
          update-elim (λ k. Candidate a.size (a.counted k) (a.tallies k)) a.peers j rf
            (Leads-Candidate (inv.candidates j)
              (request_vote-Leads c (a.peers j) rf args reply ran))
            inv.candidates;
      genuine = λ l u k h. cast-grows a.cast j args.term w fits k u l (inv.genuine l u k h);
    }

tally-Inv :
    {a : Cluster} (c : Clock) (i t j : ℕ) (reply : RequestVoteReply) (vote_granted : Bool)
    → Inv a
    → j < a.size
    → a.counted i t j ≡ false
    → (reply.vote_granted ≡ true → a.cast j t ≡ some i)
    → reply.vote_granted ≡ vote_granted
    → Inv (after_tally a i t j (on_vote_reply c (a.peers i) (election_of a i t) reply) vote_granted)
tally-Inv {a} c i t j reply true inv l new given granted =
    let e = election_of a i t in
    let r = on_vote_reply c (a.peers i) e reply in
    let led = on_vote_reply-leads c (a.peers i) e reply in
    let votes = on_vote_reply-votes c (a.peers i) e reply in
    let members = (inv.voters i).members in
    record {
      voters =
          update-elim (λ k. Voter a.size k (a.cast k)) a.peers i r.0
            (Advances-Voter (inv.voters i)
              (on_vote_reply-Advances c (a.peers i) e reply (inv.voters i).durable))
            inv.voters;
      candidates =
          update-elim_three (λ k. Candidate a.size) a.counted a.tallies a.peers i
            (update (a.counted i) t (update (a.counted i t) j true))
            (update (a.tallies i) t r.1.votes) r.0
            (mark-Candidate t j r.1.votes (inv.candidates i) l new votes
              (λ h. ground (arith, led h, members)))
            inv.candidates;
      genuine = mark-genuine a.counted a.cast i t j (given granted) inv.genuine;
    }
tally-Inv {a} c i t j reply false inv l new given refused =
    let e = election_of a i t in
    let r = on_vote_reply c (a.peers i) e reply in
    let led = on_vote_reply-leads c (a.peers i) e reply in
    let same =
      ap (λ (x : Election). x.votes) (on_vote_reply-refused c (a.peers i) e reply refused) in
    record {
      voters =
          update-elim (λ k. Voter a.size k (a.cast k)) a.peers i r.0
            (Advances-Voter (inv.voters i)
              (on_vote_reply-Advances c (a.peers i) e reply (inv.voters i).durable))
            inv.voters;
      candidates =
          update-elim_two (λ k. Candidate a.size (a.counted k)) a.tallies a.peers i
            (update (a.tallies i) t r.1.votes) r.0
            (keep-Candidate t r.1.votes (inv.candidates i) same (λ h. ground (arith, led h)))
            inv.candidates;
      genuine = inv.genuine;
    }

elect-Inv :
    {a : Cluster} (c : Clock) (i : ℕ) (rf : Raft) (e : Election) (args : RequestVoteArgs)
    → Inv a
    → i < a.size
    → start_election c (a.peers i) ≡ some (rf, e, args)
    → Inv (after_elect a i rf e)
elect-Inv {a} c i rf e args inv l ran =
    let voter = inv.voters i in
    let (one, later, down) = start_election-begins c (a.peers i) rf e args ran in
    let unused : (v : ℕ) → a.cast i e.term ≡ some v → v ≡ i =
      λ v h. let back = voter.past e.term v h in absurd (omega arith) in
    let new : a.counted i e.term i ≡ false = elim (Bool-cases (a.counted i e.term i)) [
      | inl before ↦
          let back = voter.past e.term i (inv.genuine i e.term i before) in absurd (omega arith)
      | inr not_yet ↦ not_yet
    ] in
    record {
      voters =
          update-elim_two (λ k. Voter a.size k) a.cast a.peers i (update (a.cast i) e.term (some i))
            rf (elect-Voter c e args voter ran) inv.voters;
      candidates =
          update-elim_three (λ k. Candidate a.size) a.counted a.tallies a.peers i
            (update (a.counted i) e.term (update (a.counted i e.term) i true))
            (update (a.tallies i) e.term e.votes) rf
            (mark-Candidate e.term i e.votes (inv.candidates i) l new (omega arith)
              (λ h. absurd (ground arith)))
            inv.candidates;
      genuine =
          mark-genuine a.counted (update_at a.cast i e.term (some i)) i e.term i (ground arith)
            (λ l u k h. cast-grows a.cast i e.term i unused k u l (inv.genuine l u k h));
    }

pub Step-Inv : {a b : Cluster} → Inv a → Step a b → Inv b
Step-Inv inv (elect c i rf e args l ran) = elect-Inv c i rf e args inv l ran
Step-Inv inv (grant c j args rf reply ran given) = grant-Inv c j args rf reply inv ran given
Step-Inv {a = a} inv (refuse c j args rf reply ran refused) =
    replace-Inv j rf inv
      (request_vote-Advances c (a.peers j) args (rf, reply) (inv.voters j).durable ran)
      (request_vote-Leads c (a.peers j) rf args reply ran)
Step-Inv inv (tally c i t j reply l new given) =
    tally-Inv c i t j reply reply.vote_granted inv l new given refl
Step-Inv {a = a} inv (other c i e rf o ran) =
    replace-Inv i rf inv (handle-Advances c (a.peers i) e rf (inv.voters i).durable ran)
      (handle-Leads c (a.peers i) e rf o (inv.voters i).durable ran)
