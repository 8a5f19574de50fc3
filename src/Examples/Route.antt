-- ===== src/Examples/Route.antt =====
-- internal/shardkv and the clerk of internal/shardgrp at concrete inputs.
use project_distributed_key.Base.{
  ℕ, ◌≡◌, ◌⊎◌, inl, inr, refl, Option, none, some, List, [], ◌∷◌, arith,
}
use project_distributed_key.Base.Keys.{GoString, string_key, int_key, str, bytes_beq}
use project_distributed_key.Dict
use project_distributed_key.Core.Kv.{Err, PutArgs, GetArgs, GetReply, PutReply}
use project_distributed_key.Core.Shard.{ShardConfig, key2shard}
use project_distributed_key.Shardgrp.Server as Group
use project_distributed_key.Shardgrp.Server.{ShardGroup, do_install, do_get, do_put}
use project_distributed_key.Shardgrp.Server.Refinement.{Serves}
use project_distributed_key.Shardgrp.Clerk.{
  Attempt, reply_lost, answered, group_put, group_get, call, call_all,
}
use project_distributed_key.Shardgrp.Clerk.Answers.{group_put_misreported}
use project_distributed_key.Shardgrp.Clerk.Returns.{group_clerk_returns}
use project_distributed_key.Shardkv.{Round, get, put}
use project_distributed_key.Shardkv.Routing.{Moment, get-Serves, put_never_maybe}

abbrev write : PutArgs
write = record { key = str "a"; value = str "x"; version = 0 }

abbrev look : GetArgs
look = record { key = str "a" }

unfoldable group : ShardGroup
group = (do_install (Group.new 1) (record { shard = 7; config_num = 1; contents = none })).0

abbrev resent : List Attempt
resent =
    record { others = []; outcome = reply_lost } ∷ record { others = []; outcome = answered } ∷ []

group_put_misreported_example :
    (group_put write resent group).1 ≡ some (record { err = Err.err_version })
unfolding group do_put do_install Group.new key2shard Dict.get Dict.make
group_put_misreported_example = group_put_misreported write group refl (omega arith)

abbrev locate : List GoString → Option ℕ
locate [] = none
locate (server ∷ rest) = some 1

abbrev config : ShardConfig
config = record { num = 1; shards = λ i. 1; groups = Dict.put Dict.make 1 (str "n0" ∷ []) }

abbrev groups : ℕ → ShardGroup
groups i = group

abbrev rounds : List Round
rounds = record { attempts = resent; queried = none } ∷ []

unfoldable read_back : GetReply
read_back = (do_get group look).1

unfoldable after_get : ℕ → ShardGroup
after_get = (get locate look rounds config groups).0

get-Serves_example :
    (now : ShardGroup) × Moment locate look rounds config groups now
    × Serves now (key2shard (str "a"))
    × (read_back ≡ (do_get now look).1)
unfolding get Dict.get Dict.put group_get call_all Group.run call do_get group do_install Group.new
    key2shard Dict.make after_get read_back
get-Serves_example = get-Serves locate look rounds config groups after_get read_back refl

unfoldable after_put : ℕ → ShardGroup
after_put = (put locate write rounds config groups).0

put_never_maybe_example :
    (Err.err_version ≡ Err.ok)
    ⊎ (Err.err_version ≡ Err.err_version)
    ⊎ (Err.err_version ≡ Err.err_no_key)
unfolding put Dict.get Dict.put group_put call_all Group.run call do_put group do_install Group.new
    key2shard Dict.make bytes_beq after_put
put_never_maybe_example =
    put_never_maybe locate write rounds config groups after_put Err.err_version refl

group_clerk_returns_example :
    ((reply : GetReply) × ((group_get look resent group).1 ≡ some reply))
    × ((reply : PutReply) × ((group_put write resent group).1 ≡ some reply))
group_clerk_returns_example =
    group_clerk_returns look write resent group (tt, (tt, tt)) (inr (inl tt))
