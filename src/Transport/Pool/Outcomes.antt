-- ===== src/Transport/Pool/Outcomes.antt =====
-- internal/transport/grpc.go: what a caller may conclude from Call.
use project_distributed_key.Base.{◌≡◌, refl, inl, inr, Option, none, some, arith, Option-cases}
use project_distributed_key.Base.Keys.{GoString, string_key}
use project_distributed_key.Dict
use project_distributed_key.Core.Kv.{PutArgs, PutReply, Store}
use project_distributed_key.Kvsrv.Server.{put}
use project_distributed_key.Kvsrv.Clerk as Kv
use project_distributed_key.Kvsrv.Clerk.{call_put}
use project_distributed_key.Transport.Pool.{
  Conns, Exchange, never_arrived, answer_lost, served, Link, exchange, retry, call_on, call,
}

-- What the second connection comes to: no Dial, or an exchange.
abbrev second_of : (GoString → GoString) → GoString → Link → Option Exchange
second_of translate_addr peer link = elim (link.dial (translate_addr peer)) [
  | none ↦ none
  | some client ↦ some link.exchange
]

-- The outcome in the clerk's model of a first exchange, and of the retry if it fails.
abbrev pub outcome : Exchange → Option Exchange → Kv.Outcome
outcome served second = Kv.answered
outcome never_arrived none = Kv.dropped
outcome never_arrived (some never_arrived) = Kv.dropped
outcome never_arrived (some answer_lost) = Kv.reply_lost
outcome never_arrived (some served) = Kv.answered
outcome answer_lost none = Kv.reply_lost
outcome answer_lost (some never_arrived) = Kv.reply_lost
outcome answer_lost (some answer_lost) = Kv.lost_twice
outcome answer_lost (some served) = Kv.answered_twice

-- The same, when the pool has no connection and the first Dial may fail.
abbrev pub outcome_of : (GoString → GoString) → Conns → GoString → Link → Link → Kv.Outcome
outcome_of translate_addr conns peer first second =
    let both = outcome first.exchange (second_of translate_addr peer second) in
    elim (Dict.get conns peer) [
      | some client ↦ both
      | none ↦ elim (first.dial (translate_addr peer)) [ none ↦ Kv.dropped | some client ↦ both ]
    ]

module _ (translate_addr : GoString → GoString) (args : PutArgs) where
  abbrev execute : Store → Store × PutReply
  execute s = put s args

  -- The store and the reply of a call are those of an outcome.
  abbrev Agrees : Kv.Outcome → Store → Conns × Store × Option PutReply → Type 0
  Agrees o s (conns, s', reply) = (s' ≡ (call_put o s args).0) × (reply ≡ (call_put o s args).1)

  call_on-Agrees :
      (conns : Conns) (peer : GoString) (first : Exchange) (link : Link) (s : Store)
      → Agrees
          (outcome first (second_of translate_addr peer link))
          s
          (call_on execute translate_addr conns peer first link s)
  unfolding call_on retry exchange call_put
  call_on-Agrees conns peer served link s = (refl, refl)
  call_on-Agrees conns peer never_arrived link s = ground arith
  call_on-Agrees conns peer answer_lost link s = ground arith

-- A Put through the pooled network, whatever the pool holds and however Dial and the connections
-- do, changes the store and is answered as one of the outcomes of the clerk's model is.
pub call-Agrees :
    (translate_addr : GoString → GoString) (args : PutArgs) (conns : Conns) (peer : GoString)
    (first second : Link) (s : Store)
    → let (conns', s', reply) = call (λ t. put t args) translate_addr conns peer first second s in
      let o = outcome_of translate_addr conns peer first second in
      (s' ≡ (call_put o s args).0) × (reply ≡ (call_put o s args).1)
unfolding call call_put
call-Agrees translate_addr args conns peer first second s =
    elim (Option-cases (Dict.get conns peer)) [
      | inr (client, pooled) ↦
          rw (pooled, call, outcome_of)
            (call_on-Agrees translate_addr args conns peer first.exchange second s)
      | inl empty ↦ elim (Option-cases (first.dial (translate_addr peer))) [
        | inl refused ↦ rw (empty, call, outcome_of) (rw refused (refl, refl))
        | inr (client, dialled) ↦
            rw (empty, call, outcome_of)
              (rw dialled (
                call_on-Agrees translate_addr args (Dict.put conns peer client) peer first.exchange
                  second s))
      ]
    ]
