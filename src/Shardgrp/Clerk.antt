-- ===== src/Shardgrp/Clerk.antt =====
-- internal/shardgrp/client.go. A call reaches a handler of server.go (Handlers). A loop runs along the
-- list of its calls to one server after another, with what other clients do to the group before
-- each, and its result is `none` while it is still trying at the end of the list. A request that is
-- executed only after its call has failed counts among what the others do.
pub mod Answers
pub mod Returns
use project_distributed_key.Base.{
  Bool, true, false, Option, none, some, List, [], ◌∷◌, if◌then◌else◌,
}
use project_distributed_key.Core.Kv.{Err, PutArgs, PutReply, GetArgs, GetReply}
use project_distributed_key.Core.Shard.{
  FreezeShardArgs, FreezeShardReply, InstallShardArgs, InstallShardReply, DeleteShardArgs,
  DeleteShardReply,
}
use project_distributed_key.Core.Command.{Payload}
use project_distributed_key.Shardgrp.Handlers.{no_get, no_put, no_freeze, no_install, no_delete}
use project_distributed_key.Shardgrp.Server.{
  ShardGroup, do_get, do_put, do_freeze, do_install, do_delete, run,
}

-- `deposed`: Submit gives up on the loss of leadership, and the entry is committed all the same.
pub data Outcome : Type 0 where
  dropped reply_lost wrong_leader deposed answered : Outcome

pub record Attempt : Type 0 where
  pub others : List Payload
  pub outcome : Outcome

abbrev pub is_wrong_leader : Err → Bool
is_wrong_leader Err.err_wrong_leader = true
is_wrong_leader _ = false

-- The loop, for a request that `execute` applies to the group. `not_leader` is the reply of a server
-- whose Submit has failed.
module _ {R : Type 0} (execute : ShardGroup → ShardGroup × R) (not_leader : R) (err : R → Err) where
  -- The group after a call, and the reply if Call returns true.
  unfoldable pub call : Outcome → ShardGroup → ShardGroup × Option R
  call dropped sg = (sg, none)
  call reply_lost sg = ((execute sg).0, none)
  call wrong_leader sg = (sg, some not_leader)
  call deposed sg = ((execute sg).0, some not_leader)
  call answered sg = let (sg', reply) = execute sg in (sg', some reply)

  unfoldable pub call_all : List Attempt → ShardGroup → ShardGroup × Option R
  call_all [] sg = (sg, none)
  call_all (t ∷ ts) sg = elim (run sg t.others) [
    | none ↦ (sg, none)
    | some now ↦
        let called = call t.outcome now in
        let rest = call_all ts called.0 in
        elim called.1 [
          | none ↦ rest
          | some reply ↦ if is_wrong_leader (err reply) then rest else (called.0, some reply)
        ]
  ]

-- Clerk.Put
unfoldable pub group_put : PutArgs → List Attempt → ShardGroup → ShardGroup × Option PutReply
group_put args = call_all (λ sg. do_put sg args) no_put (λ r. r.err)

-- Clerk.Get
unfoldable pub group_get : GetArgs → List Attempt → ShardGroup → ShardGroup × Option GetReply
group_get args =
    call_all (λ sg. do_get sg args) (record { err = Err.err_wrong_leader; value = []; version = 0 })
      (λ r. r.err)

-- Clerk.FreezeShard
unfoldable pub group_freeze :
    FreezeShardArgs → List Attempt → ShardGroup → ShardGroup × Option FreezeShardReply
group_freeze args =
    call_all (λ sg. do_freeze sg args) (record { err = Err.err_wrong_leader; contents = none })
      (λ r. r.err)

-- Clerk.InstallShard
unfoldable pub group_install :
    InstallShardArgs → List Attempt → ShardGroup → ShardGroup × Option InstallShardReply
group_install args = call_all (λ sg. do_install sg args) no_install (λ r. r.err)

-- Clerk.DeleteShard
unfoldable pub group_delete :
    DeleteShardArgs → List Attempt → ShardGroup → ShardGroup × Option DeleteShardReply
group_delete args = call_all (λ sg. do_delete sg args) no_delete (λ r. r.err)
