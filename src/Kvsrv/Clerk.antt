-- ===== src/Kvsrv/Clerk.antt =====
-- internal/kvsrv/client.go. A call of the network is one of the outcomes below, and other clients'
-- operations may reach the server between two attempts, as may earlier requests of this clerk whose
-- calls have failed; a loop runs along the list of attempts, and its result is `none` while it is
-- still retrying at the end of the list.
pub mod Effects
pub mod Contract
pub mod Resend
pub mod Moments
use project_distributed_key.Base.{
  ℕ, zero, suc, Bool, true, false, ◌&&◌, Option, none, some, List, [], ◌∷◌, if◌then◌else◌,
}
use project_distributed_key.Core.Kv.{Err, PutArgs, PutReply, GetArgs, GetReply, Store}
use project_distributed_key.Core.Command.{Payload}
use project_distributed_key.Kvsrv.Server
use project_distributed_key.Kvsrv.Server.{put, run}

-- `answered_twice`: the transport sent the request again on a new connection, after the server had
-- handled it and the pooled connection broke; `lost_twice`: and the second reply was lost too.
pub data Outcome : Type 0 where
  dropped reply_lost answered answered_twice lost_twice : Outcome

pub record Attempt : Type 0 where
  pub others : List Payload
  pub late : ℕ  -- how many requests of failed calls are executed now
  pub outcome : Outcome

-- The store after the call, and the reply if Call returns true.
unfoldable pub call_put : Outcome → Store → PutArgs → Store × Option PutReply
call_put dropped s a = (s, none)
call_put reply_lost s a = ((put s a).0, none)
call_put answered s a = let (s', reply) = put s a in (s', some reply)
call_put answered_twice s a = let (s', reply) = put (put s a).0 a in (s', some reply)
call_put lost_twice s a = ((put (put s a).0 a).0, none)

abbrev is_err_version : Err → Bool
is_err_version Err.err_version = true
is_err_version _ = false

-- The error that a delivered reply is turned into.
abbrev pub reported : Bool → Err → Err
reported retried e = if is_err_version e && retried then Err.err_maybe else e

unfoldable pub arrive_late : ℕ → PutArgs → Store → Store
arrive_late zero args s = s
arrive_late (suc n) args s = arrive_late n args (put s args).0

-- The store that an attempt meets. In the first one no call has failed yet.
unfoldable pub before_call : Bool → PutArgs → Attempt → Store → Store
before_call false args t s = run s t.others
before_call true args t s = arrive_late t.late args (run s t.others)

unfoldable pub put_loop : Bool → PutArgs → List Attempt → Store → Store × Option Err
put_loop retried args [] s = (s, none)
put_loop retried args (t ∷ ts) s =
    let called = call_put t.outcome (before_call retried args t s) args in
    elim called.1 [
      | none ↦ put_loop true args ts called.0
      | some reply ↦ (called.0, some (reported retried reply.err))
    ]

-- Clerk.Put
unfoldable pub clerk_put : PutArgs → List Attempt → Store → Store × Option Err
unfolding put_loop
clerk_put args ts s = put_loop false args ts s

abbrev call_get : Outcome → Store → GetArgs → Option GetReply
call_get answered s a = some (Server.get s a)
call_get answered_twice s a = some (Server.get s a)
call_get _ s a = none

-- Clerk.Get
unfoldable pub clerk_get : GetArgs → List Attempt → Store → Store × Option GetReply
clerk_get args [] s = (s, none)
clerk_get args (t ∷ ts) s = elim (call_get t.outcome (run s t.others) args) [
  | none ↦ clerk_get args ts (run s t.others)
  | some reply ↦ (run s t.others, some reply)
]
