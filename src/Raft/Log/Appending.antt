-- ===== src/Raft/Log/Appending.antt =====
-- internal/raft/replication.go: what the loop over the entries of AppendEntries does to the log.
use project_distributed_key.Base.{
  ℕ, suc, ◌+◌, ◌-◌, ◌≤◌, ◌<◌, ◌≡◌, refl, some, List, [], ◌∷◌, arith, length, take, length-append,
  length-take, ◌∙◌, get_elem?-take, get_elem?-append_left, get_elem?-append_last, Bool-cases,
  nat_beq, leb, inl, inr, subst,
}
use project_distributed_key.Core.Raft.{LogEntry}
use project_distributed_key.Raft.State.{Raft, get_last_log_index, get_log_term}
use project_distributed_key.Raft.Append.{append_one, append_loop, push_entry, replace_tail}
use project_distributed_key.Raft.Log.{
  Contiguous, IsLog, Contiguous-append, Contiguous-take, get_log_term_in_range,
}

-- The log holds entries with these terms from the index on.
abbrev pub Holds : Raft → ℕ → List LogEntry → Type 0
Holds rf idx [] = Unit {0}
Holds rf idx (e ∷ es) = (get_log_term rf idx ≡ some e.term) × Holds rf (idx + 1) es

pub record Appended (rf rf' : Raft) (idx : ℕ) (entries : List LogEntry) : Type 0 where
  pub log : IsLog rf'
  pub base : rf'.last_included_index ≡ rf.last_included_index
  pub commit : rf'.commit_index ≡ rf.commit_index
  pub before : (j : ℕ) → j < idx → get_log_term rf' j ≡ get_log_term rf j
  pub holds : Holds rf' idx entries
  pub reaches : idx + length entries ≤ get_last_log_index rf' + 1

abbrev Rewritten : Raft → Raft → ℕ → LogEntry → Type 0
Rewritten rf rf' idx entry = Appended rf rf' idx (entry ∷ [])

push_entry-Rewritten :
    (rf : Raft) (idx : ℕ) (entry : LogEntry)
    → IsLog rf
    → idx ≡ get_last_log_index rf + 1
    → entry.index ≡ idx
    → Rewritten rf (push_entry rf entry) idx entry
unfolding get_log_term
push_entry-Rewritten rf idx entry w at place =
    let n = length-append rf.log (entry ∷ []) in
    let w0 = w.nonempty in
    record {
      log = record {
        nonempty = omega arith;
        contiguous =
            Contiguous-append rf.last_included_index idx rf.log (entry ∷ []) w.contiguous
              (omega arith) (place, tt);
      };
      base = refl;
      commit = refl;
      before = λ j h.
          ground (arith, get_elem?-append_left rf.log (entry ∷ []) (j - rf.last_included_index));
      holds =
          (ground (arith, get_elem?-append_last rf.log entry (idx - rf.last_included_index)), tt);
      reaches = omega arith;
    }

replace_tail-Rewritten :
    (rf : Raft) (idx : ℕ) (entry : LogEntry)
    → IsLog rf
    → rf.last_included_index < idx
    → idx ≤ get_last_log_index rf
    → entry.index ≡ idx
    → Rewritten rf (replace_tail rf idx entry) idx entry
unfolding get_log_term
replace_tail-Rewritten rf idx entry w above within place =
    let i = idx - rf.last_included_index in
    let kept = take i rf.log in
    let n = length-append kept (entry ∷ []) in
    let m = length-take i rf.log in
    let w0 = w.nonempty in
    record {
      log = record {
        nonempty = omega arith;
        contiguous =
            Contiguous-append rf.last_included_index idx kept (entry ∷ [])
              (Contiguous-take rf.last_included_index i rf.log w.contiguous) (omega arith)
              (place, tt);
      };
      base = refl;
      commit = refl;
      before = λ j h. ground (
        arith,
        get_elem?-append_left kept (entry ∷ []) (j - rf.last_included_index),
        get_elem?-take i (j - rf.last_included_index) rf.log,
      );
      holds = (ground (arith, get_elem?-append_last kept entry i), tt);
      reaches = omega arith;
    }

-- One round: it does not panic, and leaves the entry's term at its index.
append_one_total :
    (rf : Raft) (idx : ℕ) (entry : LogEntry)
    → IsLog rf
    → rf.last_included_index < idx
    → idx ≤ get_last_log_index rf + 1
    → entry.index ≡ idx
    → (rf' : Raft) × (append_one rf (get_last_log_index rf) idx entry
        ≡ some (rf', get_last_log_index rf'))
      × Rewritten rf rf' idx entry
unfolding append_one
append_one_total rf idx entry w above within place =
    elim (Bool-cases (leb idx (get_last_log_index rf))) [
      | inr new ↦ (
        push_entry rf entry,
        ground arith,
        push_entry-Rewritten rf idx entry w (ground arith) place,
      )
      | inl old ↦
          let (t, read) = get_log_term_in_range rf idx w (omega arith) (ground arith) in
          elim (Bool-cases (nat_beq t entry.term)) [
            | inl agrees ↦ (
              rf,
              ground arith,
              record {
                log = w;
                base = refl;
                commit = refl;
                before = λ j h. refl;
                holds = (ground arith, tt);
                reaches = ground arith;
              },
            )
            | inr conflicts ↦ (
              replace_tail rf idx entry,
              ground arith,
              replace_tail-Rewritten rf idx entry w above (ground arith) place,
            )
          ]
    ]

-- The loop over the entries.
pub append_loop_total :
    (rf : Raft) (idx : ℕ) (entries : List LogEntry)
    → IsLog rf
    → rf.last_included_index < idx
    → idx ≤ get_last_log_index rf + 1
    → Contiguous idx entries
    → (rf' : Raft) × (append_loop rf (get_last_log_index rf) idx entries
        ≡ some (rf', get_last_log_index rf'))
      × Appended rf rf' idx entries
unfolding append_loop
append_loop_total rf idx [] w above within places = (
  rf,
  refl,
  record {
    log = w;
    base = refl;
    commit = refl;
    before = λ j h. refl;
    holds = tt;
    reaches = omega arith;
  },
)
append_loop_total rf idx (entry ∷ entries) w above within places =
    let (rf', one, r) = append_one_total rf idx entry w above within places.0 in
    let next_place : suc idx ≡ idx + 1 = omega arith in
    let (rf'', rest, s) =
      append_loop_total rf' (idx + 1) entries r.log (omega (arith, r.base))
        (omega (arith, r.reaches)) (subst (λ n. Contiguous n entries) next_place places.1) in
    (
      rf'',
      rw (one, append_loop) rest,
      record {
        log = s.log;
        base = s.base ∙ r.base;
        commit = s.commit ∙ r.commit;
        before = λ j h. s.before j (omega arith) ∙ r.before j h;
        holds = (s.before idx (omega arith) ∙ r.holds.0, s.holds);
        reaches = omega (arith, s.reaches);
      },
    )
