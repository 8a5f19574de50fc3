-- ===== src/Shardgrp/Server/Reinstall.antt =====
-- internal/shardgrp/server.go: an InstallShard that is executed twice, as the clerk of client.go does
-- when the first reply is lost.
use project_distributed_key.Base.{ℕ, ◌≤◌, ◌≡◌, refl, sym, ap, ◌∙◌, List, [], ◌∷◌, arith}
use project_distributed_key.Base.Keys.{string_key}
use project_distributed_key.Dict
use project_distributed_key.Core.Kv.{Err, PutArgs}
use project_distributed_key.Core.Shard.{InstallShardArgs}
use project_distributed_key.Kvsrv.Server.{SameStore}
use project_distributed_key.Shardgrp.Server.{ShardGroup, do_put, do_install, copy_out}
use project_distributed_key.Shardgrp.Server.Refinement.{shard_store}

installed :
    (sg : ShardGroup) (args : InstallShardArgs)
    → sg.config_nums args.shard ≤ args.config_num
    → ((do_install sg args).1.err ≡ Err.ok)
      × (shard_store (do_install sg args).0 args.shard ≡ copy_out args.contents)
      × ((do_install sg args).0.config_nums args.shard ≡ args.config_num)
unfolding do_install
installed sg args current = ground arith

put-config_nums :
    (sg : ShardGroup) (p : PutArgs) (i : ℕ) → (do_put sg p).0.config_nums i ≡ sg.config_nums i
unfolding do_put
put-config_nums sg p i = ground arith

-- The group after a sequence of Puts.
unfoldable pub put_all : ShardGroup → List PutArgs → ShardGroup
put_all sg [] = sg
put_all sg (p ∷ ps) = put_all (do_put sg p).0 ps

put_all-config_nums :
    (ps : List PutArgs) (sg : ShardGroup) (i : ℕ) → (put_all sg ps).config_nums i ≡ sg.config_nums i
unfolding put_all
put_all-config_nums [] sg i = refl
put_all-config_nums (p ∷ ps) sg i =
    put_all-config_nums ps (do_put sg p).0 i ∙ put-config_nums sg p i

-- The guard of InstallShard admits the configuration number that it has recorded, so a second
-- execution overwrites what clients have written since the first: it is answered OK, and the shard
-- reads as right after the first, without any of the Puts in between.
pub reinstall_forgets_puts :
    (sg : ShardGroup) (args : InstallShardArgs) (ps : List PutArgs)
    → sg.config_nums args.shard ≤ args.config_num
    → let once = (do_install sg args).0 in
      let again = do_install (put_all once ps) args in
      (again.1.err ≡ Err.ok)
      × SameStore (shard_store again.0 args.shard) (shard_store once args.shard)
reinstall_forgets_puts sg args ps current =
    let once = (do_install sg args).0 in
    let (_, first, recorded) = installed sg args current in
    let kept = put_all-config_nums ps once args.shard in
    let (ok, second, _) = installed (put_all once ps) args (omega arith) in
    (ok, λ k. ap (λ m. Dict.get m k) (second ∙ sym first))
