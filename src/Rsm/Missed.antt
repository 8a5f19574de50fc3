-- ===== src/Rsm/Missed.antt =====
-- internal/rsm/rsm.go: operations that are applied and whose Submit is not told. What ends such a
-- Submit is only the loss of leadership (`tick`) or a snapshot from another peer.
use project_distributed_key.Base.{
  ℕ, ◌≡◌, ◌≢◌, refl, subst, inl, inr, false, none, some, List, [], ◌∷◌, nat_beq, nat_beq_iff, arith,
  Option-cases, Bool-cases,
}
use project_distributed_key.Base.Keys.{int_key}
use project_distributed_key.Dict
use project_distributed_key.Dict.{Dict, get-put, get-remove, get-make}
use project_distributed_key.Core.Command.{Op, op}
use project_distributed_key.Core.Raft.{command_msg}
use project_distributed_key.Rsm.{
  StateMachine, Rsm, offer, on_message, register, unregister, receive,
}

-- The reader over a sequence of operations with their indices.
unfoldable pub apply_all : {S : Type 0} → StateMachine S → Rsm S → List (Op × ℕ) → Rsm S
apply_all machine r [] = r
apply_all machine r ((o, idx) ∷ rest) = elim (on_message machine false r (command_msg (op o) idx)) [
  | none ↦ r
  | some next ↦ apply_all machine next.0 rest
]

-- None of the operations stands at the index.
abbrev pub Avoids : ℕ → List (Op × ℕ) → Type 0
Avoids index [] = Unit {0}
Avoids index ((o, idx) ∷ rest) = (idx ≢ index) × Avoids index rest

-- An empty channel stays empty while no operation comes at an index that it waits for.
unheard :
    {S : Type 0} (machine : StateMachine S) (ops : List (Op × ℕ)) (r : Rsm S) (ch : ℕ)
    → Dict.get r.channels ch ≡ none
    → ((i : ℕ) → Dict.get r.notify i ≡ some ch → Avoids i ops)
    → Dict.get (apply_all machine r ops).channels ch ≡ none
unfolding apply_all on_message offer
unheard machine [] r ch empty apart = empty
unheard machine ((o, idx) ∷ rest) r ch empty apart = elim (Option-cases (Dict.get r.notify idx)) [
  | inl nobody ↦ unheard machine rest _ ch (rw nobody empty) (λ i e. (apart i e).1)
  | inr (w, waiter) ↦ elim (Bool-cases (nat_beq w ch)) [
    | inl mine ↦
        let same : w ≡ ch = (nat_beq_iff w ch).0 mine in
        absurd ((apart idx (rw⁻¹ same waiter)).0 refl)
    | inr another ↦
        unheard machine rest _ ch
          (ground (
            arith,
            waiter,
            get-put r.channels w ch
                (record { id = some o.id; rep = (machine.do_op r.sm o.payload).1 }),
          ))
          (λ i e. (apart i e).1)
  ]
]

-- A Submit that takes the lock after the reader has applied its operation hears of no later
-- operation: its channel stays empty whatever is applied at other indices.
pub late_submit_unheard :
    {S : Type 0} (machine : StateMachine S) (r : Rsm S) (index ch id : ℕ) (ops : List (Op × ℕ))
    → Dict.get r.channels ch ≡ none
    → ((i : ℕ) → Dict.get r.notify i ≢ some ch)
    → Avoids index ops
    → (receive (apply_all machine (register r index ch) ops) id ch).1 ≡ none
unfolding register receive
late_submit_unheard machine r index ch id ops empty fresh past =
    let still = unheard machine ops (register r index ch) ch empty (λ i e.
      elim (Bool-cases (nat_beq index i)) [
        | inl this ↦ subst (λ k. Avoids k ops) ((nat_beq_iff index i).0 this) past
        | inr another ↦ absurd (fresh i (ground (arith, get-put r.notify index i ch)))
      ]) in
    rw (still, receive) refl

-- Two Submits may be given one index, when the first one's entry was cut from the log. When the
-- first returns it removes the second's channel: that one then hears of no operation, not even of
-- its own at that index.
pub shadowed_submit_unheard :
    {S : Type 0} (machine : StateMachine S) (r : Rsm S) (index first second id : ℕ)
    (ops : List (Op × ℕ))
    → Dict.get r.channels second ≡ none
    → ((i : ℕ) → Dict.get r.notify i ≢ some second)
    → (receive
        (apply_all machine (unregister (register (register r index first) index second) index) ops)
        id
        second).1
      ≡ none
unfolding register unregister receive
shadowed_submit_unheard machine r index first second id ops empty fresh =
    let r' = unregister (register (register r index first) index second) index in
    let still = unheard machine ops r' second empty (λ i e. absurd (
      fresh i (
        ground (
          arith,
          get-remove (Dict.put (Dict.put r.notify index first) index second) index i,
          get-put (Dict.put r.notify index first) index i second,
          get-put r.notify index i first,
        )))) in
    rw (still, receive) refl
