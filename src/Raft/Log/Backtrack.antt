-- ===== src/Raft/Log/Backtrack.antt =====
-- internal/raft/replication.go: the two searches by which a leader finds where logs agree. The
-- follower looks for the start of a run of one term, the leader for its last entry of that term.
use project_distributed_key.Base.{
  ℕ, zero, suc, ◌+◌, ◌-◌, ◌≤◌, ◌<◌, ◌≡◌, ◌≢◌, refl, false, Option, none, some, arith, ◌∙◌,
  Bool-cases, nat_beq, inl, inr, ◌⊎◌,
}
use project_distributed_key.Raft.State.{Raft, get_last_log_index, get_log_term}
use project_distributed_key.Raft.Append.{run_start}
use project_distributed_key.Raft.Replicate.{last_with_term}
use project_distributed_key.Raft.Log.{IsLog, get_log_term_in_range}

-- `r` is where the run of entries with the term that ends below `top` starts.
pub record RunStart (rf : Raft) (term r top : ℕ) : Type 0 where
  pub low : rf.last_included_index ≤ r
  pub high : r ≤ top
  pub run : (j : ℕ) → r ≤ j → j < top → get_log_term rf j ≡ some term
  pub stops : (r ≡ rf.last_included_index) ⊎ (get_log_term rf (r - 1) ≢ some term)

run_start_total :
    (rf : Raft) (term k first : ℕ)
    → IsLog rf
    → rf.last_included_index + k ≤ get_last_log_index rf
    → first ≡ rf.last_included_index + k + 1
    → (r : ℕ) × (run_start rf term k first ≡ some r) × RunStart rf term r first
unfolding run_start
run_start_total rf term zero first w within at =
    let (t, read) = get_log_term_in_range rf rf.last_included_index w (omega arith) (omega arith) in
    elim (Bool-cases (nat_beq t term)) [
      | inl hit ↦ (
        rf.last_included_index,
        ground arith,
        record {
          low = omega arith;
          high = omega arith;
          run = λ j a b.
              let same : j ≡ rf.last_included_index = omega arith in rw same (ground arith);
          stops = inl refl;
        },
      )
      | inr miss ↦ (
        first,
        ground arith,
        record {
          low = omega arith;
          high = omega arith;
          run = λ j a b. absurd (omega arith);
          stops = inr (λ e.
              let same : first - 1 ≡ rf.last_included_index = omega arith in
              let read' : get_log_term rf (first - 1) ≡ some t = rw same read in ground arith);
        },
      )
    ]
run_start_total rf term (suc k) first w within at =
    let i = rf.last_included_index + suc k in
    let (t, read) = get_log_term_in_range rf i w (omega arith) (omega arith) in
    elim (Bool-cases (nat_beq t term)) [
      | inl hit ↦
          let (r, found, s) = run_start_total rf term k i w (omega arith) (omega arith) in
          (
            r,
            ground (arith, found),
            record {
              low = s.low;
              high = omega (arith, s.high);
              run = λ j a b. elim (Bool-cases (nat_beq j i)) [
                | inl top ↦ let same : j ≡ i = ground arith in rw same (ground arith)
                | inr below ↦ s.run j a (ground arith)
              ];
              stops = s.stops;
            },
          )
      | inr miss ↦ (
        first,
        ground arith,
        record {
          low = omega arith;
          high = omega arith;
          run = λ j a b. absurd (omega arith);
          stops = inr (λ e.
              let same : first - 1 ≡ i = omega arith in
              let read' : get_log_term rf (first - 1) ≡ some t = rw same read in ground arith);
        },
      )
    ]

-- The first round of the follower's search finds the term at `top`, so where it starts from does
-- not matter.
run_start_from :
    (rf : Raft) (term k first first' : ℕ)
    → get_log_term rf (rf.last_included_index + k) ≡ some term
    → run_start rf term k first ≡ run_start rf term k first'
unfolding run_start
run_start_from rf term zero first first' h =
    let same : rf.last_included_index + 0 ≡ rf.last_included_index = omega arith in
    let read : get_log_term rf rf.last_included_index ≡ some term = rw same at h in ground arith
run_start_from rf term (suc k) first first' h = ground arith

-- The follower's search from an entry of the log finds the start of its term's run, and does not
-- panic.
pub run_start-RunStart :
    (rf : Raft) (term prev : ℕ)
    → IsLog rf
    → rf.last_included_index ≤ prev
    → prev ≤ get_last_log_index rf
    → get_log_term rf prev ≡ some term
    → (r : ℕ) × (run_start rf term (prev - rf.last_included_index) prev ≡ some r)
      × RunStart rf term r (prev + 1)
run_start-RunStart rf term prev w low high read =
    let k = prev - rf.last_included_index in
    let same : rf.last_included_index + k ≡ prev = omega arith in
    let (r, found, s) = run_start_total rf term k (prev + 1) w (omega arith) (omega arith) in
    (r, run_start_from rf term k prev (prev + 1) (rw same read) ∙ found, s)

-- The last entry of a term, or none.
abbrev pub IsLast : Raft → ℕ → ℕ → Option ℕ → Type 0
IsLast rf term top none =
    (j : ℕ) → rf.last_included_index ≤ j → j ≤ top → get_log_term rf j ≢ some term
IsLast rf term top (some i) =
    (rf.last_included_index ≤ i)
    × (i ≤ top)
    × (get_log_term rf i ≡ some term)
    × ((j : ℕ) → i < j → j ≤ top → get_log_term rf j ≢ some term)

-- The leader's search finds its last entry of the term up to an index, if it has one, and does not
-- panic.
pub last_with_term-IsLast :
    (rf : Raft) (term k : ℕ)
    → IsLog rf
    → rf.last_included_index + k ≤ get_last_log_index rf
    → (found : Option ℕ) × (last_with_term rf term k ≡ some found)
      × IsLast rf term (rf.last_included_index + k) found
unfolding last_with_term
last_with_term-IsLast rf term zero w within =
    let base = rf.last_included_index in
    let (t, read) = get_log_term_in_range rf base w (omega arith) (omega arith) in
    elim (Bool-cases (nat_beq t term)) [
      | inl hit ↦ (
        some base,
        ground arith,
        (omega arith, omega arith, ground arith, λ j a b. absurd (omega arith)),
      )
      | inr miss ↦ (
        none,
        ground arith,
        λ j a b e.
            let same : j ≡ base = omega arith in
            let read' : get_log_term rf j ≡ some t = rw same read in ground arith,
      )
    ]
last_with_term-IsLast rf term (suc k) w within =
    let i = rf.last_included_index + suc k in
    let (t, read) = get_log_term_in_range rf i w (omega arith) (omega arith) in
    elim (Bool-cases (nat_beq t term)) [
      | inl hit ↦ (
        some i,
        ground arith,
        (omega arith, omega arith, ground arith, λ j a b. absurd (omega arith)),
      )
      | inr miss ↦
          let (found, searched, s) = last_with_term-IsLast rf term k w (omega arith) in
          (found, ground (arith, searched), widen t found miss read s)
    ]
  where
    skip :
        (t j : ℕ)
        → nat_beq t term ≡ false
        → get_log_term rf (rf.last_included_index + suc k) ≡ some t
        → j ≡ rf.last_included_index + suc k
        → get_log_term rf j ≢ some term
    skip t j miss read same e =
        let read' : get_log_term rf j ≡ some t = rw same read in ground arith

    widen :
        (t : ℕ) (found : Option ℕ)
        → nat_beq t term ≡ false
        → get_log_term rf (rf.last_included_index + suc k) ≡ some t
        → IsLast rf term (rf.last_included_index + k) found
        → IsLast rf term (rf.last_included_index + suc k) found
    widen t none miss read s = λ j a b.
        elim (Bool-cases (nat_beq j (rf.last_included_index + suc k))) [
          | inl top ↦ skip t j miss read (ground arith)
          | inr below ↦ s j a (ground arith)
        ]
    widen t (some i) miss read s = (
      s.0,
      omega (arith, s.1),
      s.2,
      λ j a b. elim (Bool-cases (nat_beq j (rf.last_included_index + suc k))) [
        | inl top ↦ skip t j miss read (ground arith)
        | inr below ↦ s.3 j a (ground arith)
      ],
    )
