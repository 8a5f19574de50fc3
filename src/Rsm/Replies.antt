-- ===== src/Rsm/Replies.antt =====
-- internal/rsm/rsm.go: a Submit that returns a reply returns that of its own operation, applied at
-- the index that Raft gave for it.
use project_distributed_key.Base.{
  ℕ, ◌≡◌, ◌∙◌, inl, inr, true, some, nat_beq_iff, update, arith, Option-cases, get_elem?,
}
use project_distributed_key.Base.Keys.{int_key}
use project_distributed_key.Dict
use project_distributed_key.Dict.{get-put, get-remove, get-make}
use project_distributed_key.Core.Command.{Reply}
use project_distributed_key.Rsm.{
  StateMachine, SubResult, new, on_close, register, unregister, receive, replied,
}
use project_distributed_key.Rsm.History.{
  Applied, Trace, Step, message, close, submit, take, leave, Reach, here, next, start_trace, Inv,
  wake-cases, quiet-Inv, message-Inv,
}

Step-Inv :
    {S : Type 0} (machine : StateMachine S) (a b : Trace S) → Inv a → Step machine a b → Inv b
unfolding on_close register unregister receive
Step-Inv machine a b inv (message full msg r snapshot e) =
    message-Inv machine full msg r snapshot inv e
Step-Inv machine a b inv close =
    quiet-Inv a.rsm.sm a.rsm.last_applied _ inv
      (wake-cases (λ i. true) a.rsm.notify.entries a.rsm.channels)
Step-Inv machine a b inv (submit index) = record {
  waits = λ i ch e.
      ground (arith, get-put a.rsm.notify index i a.made, nat_beq_iff index i, inv.waits i ch);
  used = λ ch id res e i. omega (arith, inv.used ch id res e i);
  from = λ ch res e id i.
      let below = inv.used ch id res e i in
      let kept : update a.index_of a.made index ch ≡ a.index_of ch = ground arith in
      rw kept (inv.from ch res e id i);
}
Step-Inv machine a b inv (take id ch) = elim (Option-cases (Dict.get a.rsm.channels ch)) [
  | inl empty ↦ rw (empty, receive) inv
  | inr (res, got) ↦
      rw (got, receive)
        (quiet-Inv a.rsm.sm a.rsm.last_applied (Dict.remove a.rsm.channels ch) inv
          (λ i res' e. inl (ground (arith, get-remove a.rsm.channels ch i))))
]
Step-Inv machine a b inv (leave index) = record {
  waits = λ i ch e. ground (arith, get-remove a.rsm.notify index i, inv.waits i ch);
  used = inv.used;
  from = inv.from;
}

start_trace-Inv : {S : Type 0} (s : S) → Inv (start_trace s)
unfolding start_trace new
start_trace-Inv s = record {
  waits = λ i ch e. absurd (ground (arith, get-make {V = ℕ} i));
  used = λ ch id res e i. absurd (ground (arith, get-make {V = SubResult} ch));
  from = λ ch res e. absurd (ground (arith, get-make {V = SubResult} ch));
}

Reach-Inv :
    {S : Type 0} (machine : StateMachine S) (a b : Trace S) → Inv a → Reach machine a b → Inv b
Reach-Inv machine a b inv here = inv
Reach-Inv machine a b inv (next {b = c} b' r s) =
    Step-Inv machine c b' (Reach-Inv machine a c inv r) s

-- When Submit takes a reply from its channel, the reader has applied an operation with the id of
-- the submitted one, at the index for which the channel was made, and the reply is the state
-- machine's for it, whatever other Submits, snapshots and messages came between.
pub receive-Applied :
    {S : Type 0} (machine : StateMachine S) (s : S) (b : Trace S) (id ch : ℕ) (rep : Reply)
    → Reach machine (start_trace s) b
    → (receive b.rsm id ch).1 ≡ some (replied rep)
    → (n : ℕ) × (x : Applied) × (get_elem? b.applied n ≡ some x)
      × (x.index ≡ b.index_of ch)
      × (x.done.id ≡ id)
      × (x.rep ≡ rep)
unfolding receive
receive-Applied machine s b id ch rep r e =
    let inv = Reach-Inv machine (start_trace s) b (start_trace-Inv s) r in
    elim (Option-cases (Dict.get b.rsm.channels ch)) [
      | inl empty ↦ absurd (ground arith)
      | inr (res, got) ↦
          let own : res.id ≡ some id = ground arith in
          let same : res.rep ≡ rep = ground arith in
          let (n, x, at, place, name, same') = inv.from ch res got id own in
          (n, x, at, place, name, same' ∙ same)
    ]
