-- ===== src/Rsm/Restart.antt =====
-- internal/rsm and internal/raft: a process that starts again from its persister. Make counts the
-- entries of the snapshot as applied, and no one gives the snapshot to the state machine.
use project_distributed_key.Base.{
  ℕ, zero, suc, ◌+◌, ◌-◌, ◌≤◌, ◌<◌, ◌≡◌, refl, sym, ◌∙◌, ap, false, Option, none, some, List, [],
  ◌∷◌, arith, length,
}
use project_distributed_key.Base.Keys.{GoString, int_key}
use project_distributed_key.Core.Command.{Command, vacant, op}
use project_distributed_key.Core.Raft.{LogEntry, ApplyMsg, command_msg, snapshot_msg}
use project_distributed_key.Raft.State.{
  Raft, Clock, Persister, RaftPersistState, make, get_log_entry,
}
use project_distributed_key.Raft.Apply.{apply}
use project_distributed_key.Raft.Apply.InOrder.{InOrder, apply-InOrder}
use project_distributed_key.Raft.Log.{IsLog, Contiguous}
use project_distributed_key.Rsm.{StateMachine, Rsm, new, on_message}

module _ {S : Type 0} (machine : StateMachine S) where
  -- The reader over the messages of the applier.
  unfoldable pub deliver : Rsm S → List ApplyMsg → Option (Rsm S)
  deliver r [] = some r
  deliver r (msg ∷ msgs) = elim (on_message machine false r msg) [
    | none ↦ none
    | some next ↦ deliver next.0 msgs
  ]

  abbrev execute : S → Command → S
  execute s vacant = s
  execute s (op o) = (machine.do_op s o.payload).0

  -- The state machine over the k entries of a log after the index `first`.
  unfoldable pub replay : (ℕ → Option LogEntry) → ℕ → ℕ → S → S
  replay entry_at zero first s = s
  replay entry_at (suc k) first s = elim (entry_at (first + 1)) [
    | none ↦ s
    | some e ↦ replay entry_at k (first + 1) (execute s e.command)
  ]

  replay_step :
      (entry_at : ℕ → Option LogEntry) (k first idx : ℕ) (e : LogEntry) (command : Command) (s : S)
      → idx ≡ first + 1
      → entry_at idx ≡ some e
      → command ≡ e.command
      → replay entry_at (suc k) first s ≡ replay entry_at k (first + 1) (execute s command)
  unfolding replay
  replay_step entry_at k first idx e command s place found same =
      let here : entry_at (first + 1) ≡ some e = cc in rw (here, replay, same) refl

  InOrder-le :
      (entry_at : ℕ → Option LogEntry) (first last : ℕ) (msgs : List ApplyMsg)
      → InOrder entry_at first last msgs
      → first ≤ last
  InOrder-le entry_at first last [] h = omega arith
  InOrder-le entry_at first last (command_msg command idx ∷ msgs) h =
      omega (arith, InOrder-le entry_at (first + 1) last msgs h.1)
  InOrder-le entry_at first last (snapshot_msg image term idx ∷ msgs) h = absurd h

  deliver-replay :
      (entry_at : ℕ → Option LogEntry) (k first last : ℕ) (msgs : List ApplyMsg) (r : Rsm S)
      → last ≡ first + k
      → InOrder entry_at first last msgs
      → (r' : Rsm S) × (deliver r msgs ≡ some r') × (r'.sm ≡ replay entry_at k first r.sm)
  unfolding deliver replay on_message
  deliver-replay entry_at zero first last [] r e h = (r, refl, refl)
  deliver-replay entry_at (suc k) first last [] r e h = absurd (omega arith)
  deliver-replay entry_at k first last (snapshot_msg image term idx ∷ msgs) r e h = absurd h
  deliver-replay entry_at zero first last (command_msg command idx ∷ msgs) r e h =
      absurd (omega (arith, InOrder-le entry_at (first + 1) last msgs h.1))
  deliver-replay entry_at (suc k) first last (command_msg vacant idx ∷ msgs) r e h =
      let ((entry, place, found, same), rest) = h in
      let (r', ran, end) = deliver-replay entry_at k (first + 1) last msgs r (omega arith) rest in
      (r', ran, end ∙ sym (replay_step entry_at k first idx entry vacant r.sm place found same))
  deliver-replay entry_at (suc k) first last (command_msg (op o) idx ∷ msgs) r e h =
      let ((entry, place, found, same), rest) = h in
      let (r', ran, end) = deliver-replay entry_at k (first + 1) last msgs _ (omega arith) rest in
      (r', ran, end ∙ sym (replay_step entry_at k first idx entry (op o) r.sm place found same))

made :
    (peers : List GoString) (me : ℕ) (p : Persister) (c : Clock) (d : RaftPersistState)
    → p.raft_state ≡ some d
    → ((make peers me p c).last_included_index ≡ d.last_included_index)
      × ((make peers me p c).log ≡ d.log)
      × ((make peers me p c).last_applied ≡ d.last_included_index)
      × ((make peers me p c).pending_snapshot_valid ≡ false)
unfolding make
made peers me p c d saved = ground arith

-- A process that starts again, with a saved state whose log begins after a snapshot: once the peer
-- has committed up to `n`, the state machine that New was given has applied the entries after the
-- snapshot and no more. The snapshot itself is not in it, whatever the persister holds.
pub restart_without_snapshot :
    {S : Type 0} (machine : StateMachine S) (s : S) (peers : List GoString) (me : ℕ) (p : Persister)
    (c : Clock) (d : RaftPersistState) (n : ℕ)
    → p.raft_state ≡ some d
    → 0 < length d.log
    → Contiguous d.last_included_index d.log
    → d.last_included_index ≤ n
    → n ≤ d.last_included_index + length d.log - 1
    → let rf = record (make peers me p c) { commit_index = n } in
      (rf' : Raft) × (msgs : List ApplyMsg) × (r : Rsm S) × (apply rf ≡ some (rf', msgs))
      × (deliver machine (new s) msgs ≡ some r)
      × (r.sm
          ≡ replay machine (get_log_entry rf) (n - d.last_included_index) d.last_included_index s)
unfolding make new
restart_without_snapshot machine s peers me p c d n saved some_left placed low high =
    let rf : Raft = record (make peers me p c) { commit_index = n } in
    let (base, log, applied, pending) = made peers me p c d saved in
    let w : IsLog rf = record {
      nonempty = ground (arith, log);
      contiguous = rw (base, log) placed;
    } in
    let (msgs, ran, ordered) =
      apply-InOrder rf w pending (omega arith) (omega arith) (ground (arith, log)) in
    let (r, delivered, end) =
      deliver-replay machine (get_log_entry rf) (n - d.last_included_index) rf.last_applied n msgs
        (new s) (omega arith) ordered in
    (
      record rf { last_applied = n },
      msgs,
      r,
      ran,
      delivered,
      end ∙ ap (λ i. replay machine (get_log_entry rf) (n - d.last_included_index) i s) applied,
    )
