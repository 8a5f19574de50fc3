-- ===== src/Transport/Pool.antt =====
-- internal/transport/grpc.go, GRPCNetwork. A connection of net/rpc is a number; what Dial gives, and
-- how far an RPC gets on a connection, are the environment's choice.
pub mod Outcomes
use project_distributed_key.Base.{Option, none, some, ℕ}
use project_distributed_key.Base.Keys.{GoString, string_key}
use project_distributed_key.Dict
use project_distributed_key.Dict.{Dict}

abbrev pub Conns : Type 0
Conns = Dict GoString ℕ

-- How far client.Call gets; its error is nil in the last case only.
pub data Exchange : Type 0 where
  never_arrived answer_lost served : Exchange

unfoldable pub new_grpc_network : Conns
new_grpc_network = Dict.make

-- `execute` is the server's handler, whose reply is of type R.
module _ {S R : Type 0} (execute : S → S × R) where
  unfoldable pub exchange : Exchange → S → S × Option R
  exchange never_arrived s = (s, none)
  exchange answer_lost s = ((execute s).0, none)
  exchange served s = let (s', reply) = execute s in (s', some reply)

-- One Dial of the translated address and what the RPC on a connection then meets.
pub record Link : Type 0 where
  pub dial : GoString → Option ℕ
  pub exchange : Exchange

module _ {S R : Type 0} (execute : S → S × R) (translate_addr : GoString → GoString) where
  -- The retry, on a new connection.
  unfoldable pub retry : Conns → GoString → Link → S → Conns × S × Option R
  retry conns peer link s = elim (link.dial (translate_addr peer)) [
    | none ↦ (conns, s, none)
    | some client ↦
        let (s', reply) = exchange execute link.exchange s in
        (Dict.put conns peer client, s', reply)
  ]

  -- The call on a connection that is in the pool.
  unfoldable pub call_on : Conns → GoString → Exchange → Link → S → Conns × S × Option R
  call_on conns peer first link s =
      let tried = exchange execute first s in
      elim tried.1 [
        | none ↦ retry (Dict.remove conns peer) peer link tried.0
        | some reply ↦ (conns, tried.0, some reply)
      ]

  -- GRPCNetwork.Call; the reply, if it returns true.
  unfoldable pub call : Conns → GoString → Link → Link → S → Conns × S × Option R
  call conns peer first second s = elim (Dict.get conns peer) [
    | some client ↦ call_on conns peer first.exchange second s
    | none ↦ elim (first.dial (translate_addr peer)) [
      | none ↦ (conns, s, none)
      | some client ↦ call_on (Dict.put conns peer client) peer first.exchange second s
    ]
  ]

-- Close
unfoldable pub close : Conns → Conns
close conns = Dict.make
