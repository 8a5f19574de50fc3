-- ===== src/Raft/Compact/Keeps.antt =====
-- internal/raft: compaction keeps what the log says after the snapshot.
use project_distributed_key.Base.{
  ℕ, suc, ◌+◌, ◌-◌, ◌≤◌, ◌<◌, ◌≡◌, refl, sym, ◌∙◌, ap, true, some, List, [], ◌∷◌, arith, ltb, leb,
  nat_beq, Bool-cases, inl, inr, length, get_elem?, drop, length-drop, get_elem?-drop,
}
use project_distributed_key.Base.Keys.{GoString}
use project_distributed_key.Core.Raft.{LogEntry, InstallSnapshotArgs, InstallSnapshotReply}
use project_distributed_key.Raft.State.{
  Raft, Clock, get_log_entry, get_log_term, get_last_log_index, dummy, save,
}
use project_distributed_key.Raft.Append.{accept_leader}
use project_distributed_key.Raft.Compact.{
  take_snapshot, cut_log, set_first, kept_log, install_snapshot, adopt,
}
use project_distributed_key.Raft.Log.{IsLog, Contiguous, Contiguous-drop, get_log_term_in_range}
use project_distributed_key.Raft.Log.Requests.{accept_leader-IsLog}

-- What cutting the log at an index leaves.
record Cut (rf : Raft) (index : ℕ) (log : List LogEntry) : Type 0 where
  count : length log ≡ length rf.log - (index - rf.last_included_index)
  contiguous : Contiguous index log
  later :
      (j : ℕ) → get_elem? log (suc j) ≡ get_elem? rf.log (index - rf.last_included_index + suc j)

set_first_lem :
    (l : List LogEntry) (entry : LogEntry)
    → 0 < length l
    → (out : List LogEntry) × (set_first l entry ≡ some out)
      × (length out ≡ length l)
      × (Contiguous entry.index l → Contiguous entry.index out)
      × ((j : ℕ) → get_elem? out (suc j) ≡ get_elem? l (suc j))
set_first_lem [] entry h = absurd (omega arith)
set_first_lem (e ∷ rest) entry h = (entry ∷ rest, refl, refl, λ c. (refl, c.1), λ j. refl)

cut_log-Cut :
    (rf : Raft) (index term : ℕ)
    → IsLog rf
    → rf.last_included_index ≤ index
    → index ≤ get_last_log_index rf
    → (log : List LogEntry) × (cut_log rf index term ≡ some log) × Cut rf index log
cut_log-Cut rf index term w low high =
    let n = index - rf.last_included_index in
    let count = length-drop n rf.log in
    let some_left : 0 < length (drop n rf.log) = omega (arith, w.nonempty) in
    let (log, done, same, keeps, later) =
      set_first_lem (drop n rf.log) (dummy term index) some_left in
    (
      log,
      done,
      record {
        count = same ∙ count;
        contiguous =
            keeps
              (Contiguous-drop rf.last_included_index index n rf.log w.contiguous (omega arith));
        later = λ j. later j ∙ get_elem?-drop n (suc j) rf.log;
      },
    )

-- Raft's Snapshot of an index that the log reaches does not panic. The log keeps its form and its
-- last index, and every entry after the new snapshot reads as before; so does the term at the
-- snapshot's own index.
pub take_snapshot_keeps :
    (rf : Raft) (index : ℕ) (snapshot : GoString)
    → IsLog rf
    → index ≤ get_last_log_index rf
    → (rf' : Raft) × (take_snapshot rf index snapshot ≡ some rf')
      × IsLog rf'
      × (get_last_log_index rf' ≡ get_last_log_index rf)
      × ((i : ℕ) → rf'.last_included_index < i → get_log_entry rf' i ≡ get_log_entry rf i)
      × (get_log_term rf' rf'.last_included_index ≡ get_log_term rf rf'.last_included_index)
unfolding take_snapshot get_log_entry get_log_term
take_snapshot_keeps rf index snapshot w high =
    elim (Bool-cases (leb index rf.last_included_index)) [
      | inl old ↦ (rf, ground arith, w, refl, λ i h. refl, refl)
      | inr newer ↦
          let (term, got) = get_log_term_in_range rf index w (ground arith) high in
          let (log, cut, c) = cut_log-Cut rf index term w (ground arith) high in
          let count = c.count in
          let some_left = w.nonempty in
          (
            save (record rf { log = log; last_included_index = index; last_included_term = term })
                snapshot,
            ground (arith, got, cut),
            record { nonempty = ground arith; contiguous = c.contiguous },
            ground arith,
            λ i h.
                let here : suc (i - index - 1) ≡ i - index = omega arith in
                let there : index - rf.last_included_index + suc (i - index - 1)
                    ≡ i - rf.last_included_index =
                  ground arith in
                let read : get_elem? log (i - index)
                    ≡ get_elem? rf.log (i - rf.last_included_index) =
                  ap (get_elem? log) (sym here)
                  ∙ c.later (i - index - 1)
                  ∙ ap (get_elem? rf.log) there in
                ground (arith, read),
            ground (arith, got),
          )
    ]

kept_log_total :
    (rf : Raft) (args : InstallSnapshotArgs)
    → IsLog rf
    → rf.last_included_index < args.last_included_index
    → (log : List LogEntry) × (kept_log rf args ≡ some log)
      × (0 < length log)
      × Contiguous args.last_included_index log
unfolding kept_log
kept_log_total rf args w newer =
    let index = args.last_included_index in
    let blank = dummy args.last_included_term index ∷ [] in
    let some_left = w.nonempty in
    elim (Bool-cases (leb index (get_last_log_index rf))) [
      | inr beyond ↦ (blank, ground arith, omega arith, (refl, tt))
      | inl within ↦
          let (t, got) = get_log_term_in_range rf index w (omega arith) (ground arith) in
          let (log, cut, c) =
            cut_log-Cut rf index args.last_included_term w (omega arith) (ground arith) in
          let count = c.count in
          elim (Bool-cases (nat_beq t args.last_included_term)) [
            | inl agrees ↦ (log, ground arith, ground arith, c.contiguous)
            | inr conflict ↦ (blank, ground arith, omega arith, (refl, tt))
          ]
    ]

accept_leader_places :
    (c : Clock) (rf : Raft) (term : ℕ)
    → ((accept_leader c rf term).last_included_index ≡ rf.last_included_index)
      × ((accept_leader c rf term).last_applied ≡ rf.last_applied)
unfolding accept_leader
accept_leader_places c rf term = (ground arith, ground arith)

-- InstallSnapshot does not panic. The log keeps its form, its snapshot does not go back, and no
-- entry that a snapshot covers is left to apply if none was before. A request of no earlier term
-- with a newer snapshot makes it the log's, and leaves it pending for the applier.
pub install_snapshot_total :
    (c : Clock) (rf : Raft) (args : InstallSnapshotArgs)
    → IsLog rf
    → (r : Raft × InstallSnapshotReply) × (install_snapshot c rf args ≡ some r)
      × IsLog r.0
      × (rf.last_included_index ≤ r.0.last_included_index)
      × (rf.last_included_index ≤ rf.last_applied → r.0.last_included_index ≤ r.0.last_applied)
      × (rf.current_term ≤ args.term
          → rf.last_included_index < args.last_included_index
          → (r.0.last_included_index ≡ args.last_included_index)
            × (r.0.pending_snapshot ≡ args.snapshot)
            × (r.0.pending_snapshot_valid ≡ true))
unfolding install_snapshot
install_snapshot_total c rf args w =
    let rf' = accept_leader c rf args.term in
    let w' = accept_leader-IsLog c rf args.term w in
    let (base, applied) = accept_leader_places c rf args.term in
    let reply : InstallSnapshotReply = record { term = rf.current_term } in
    elim (Bool-cases (ltb args.term rf.current_term)) [
      | inl old ↦ ((rf, reply), ground arith, w, omega arith, λ h. h, λ h k. absurd (ground arith))
      | inr current ↦ elim (Bool-cases (leb args.last_included_index rf'.last_included_index)) [
        | inl known ↦ (
          (rf', reply),
          ground arith,
          w',
          omega arith,
          λ h. omega arith,
          λ h k. absurd (ground arith),
        )
        | inr newer ↦
            let (log, kept, some_left, placed) = kept_log_total rf' args w' (ground arith) in
            (
              (adopt rf' args log, reply),
              ground (arith, kept),
              record { nonempty = some_left; contiguous = placed },
              ground arith,
              λ h. ground arith,
              λ h k. (refl, refl, refl),
            )
      ]
    ]
