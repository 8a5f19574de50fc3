-- ===== src/Examples/Group.antt =====
-- internal/shardgrp at concrete inputs.
use project_distributed_key.Base.{ℕ, ◌≡◌, ◌≢◌, refl, true, Option, none, some, List, [], ◌∷◌, arith}
use project_distributed_key.Base.Keys.{string_key, str}
use project_distributed_key.Dict
use project_distributed_key.Gob.{Gob}
use project_distributed_key.Core.Kv.{Err, GetArgs}
use project_distributed_key.Core.Shard.{key2shard, InstallShardArgs}
use project_distributed_key.Kvsrv.Server.{SameStore}
use project_distributed_key.Shardgrp.Server.Reinstall.{put_all, reinstall_forgets_puts}
use project_distributed_key.Core.Command.{
  Payload, get_op, put_op, install_op, freeze_op, get_rep, Reply,
}
use project_distributed_key.Kvsrv.Server.Snapshots.{replies}
use project_distributed_key.Shardgrp.Server.{
  ShardGroup, ShardGroupSnapshot, SameSnapshot, new, do_op, do_get, do_freeze, do_install, run,
  snapshot, restore,
}
use project_distributed_key.Rsm.{replied}
use project_distributed_key.Shardgrp.Handlers.{handle_get, handlers_reply}
use project_distributed_key.Shardgrp.Server.Lifecycle.{
  After, err_of, IsExclusive, run-IsExclusive, never_err_frozen,
}
use project_distributed_key.Shardgrp.Server.Fencing.{fenced_forever}
use project_distributed_key.Shardgrp.Server.Refinement.{
  Serves, shard_store, group_replies, group_replies-replies, AllRequests,
}
use project_distributed_key.Shardgrp.Server.Migration.{move_shard, move_again_empties}
use project_distributed_key.Shardgrp.Server.Snapshots.{group_replies-restore}

-- "a" is byte 97, so its shard is 7.
abbrev install : Payload
install = install_op (record { shard = 7; config_num = 2; contents = none })

abbrev freeze_late : Payload
freeze_late = freeze_op (record { shard = 7; config_num = 1 })

abbrev put_a : Payload
put_a = put_op (record { key = str "a"; value = str "x"; version = 0 })

abbrev get_a : Payload
get_a = get_op (record { key = str "a" })

unfoldable serving : ShardGroup
unfolding new do_install
serving = (do_install (new 1) (record { shard = 7; config_num = 2; contents = none })).0

shard_of_a : key2shard (str "a") ≡ 7
unfolding key2shard
shard_of_a = refl

serving-Serves : Serves serving 7
unfolding serving
serving-Serves = record { owned = refl; thawed = refl }

run-IsExclusive_example : IsExclusive serving
unfolding serving run do_op
run-IsExclusive_example = run-IsExclusive 1 (install ∷ []) serving refl

never_err_frozen_example : After (λ _ r. err_of r ≢ Err.err_frozen) (do_op serving get_a)
unfolding serving run do_op
never_err_frozen_example = never_err_frozen 1 (install ∷ []) serving get_a refl

fenced_forever_example :
    (r : Reply) × (do_op serving freeze_late ≡ some (serving, r)) × (err_of r ≡ Err.err_version)
unfolding serving run do_op
fenced_forever_example =
    fenced_forever (new 1) serving (Reply.install_rep (record { err = Err.ok })) install freeze_late
      7 2 1 [] serving refl (omega arith) (omega arith) refl refl refl (omega arith)

group_replies-replies_example :
    group_replies serving (put_a ∷ get_a ∷ [])
    ≡ replies (shard_store serving 7) (put_a ∷ get_a ∷ [])
unfolding key2shard
group_replies-replies_example =
    group_replies-replies 7 serving (put_a ∷ get_a ∷ []) serving-Serves (refl, (refl, tt))

unfoldable frozen : ShardGroup
unfolding do_freeze
frozen = (do_freeze serving (record { shard = 7; config_num = 3 })).0

move_again_empties_example :
    let once = move_shard serving (new 2) 7 3 in
    let twice = move_shard once.source once.destination 7 3 in
    (twice.froze ≡ Err.ok)
    × (twice.installed ≡ some Err.ok)
    × (twice.deleted ≡ some Err.ok)
    × (Dict.get (shard_store twice.source 7) (str "a") ≡ none)
    × (Dict.get (shard_store twice.destination 7) (str "a") ≡ none)
unfolding serving
move_again_empties_example =
    move_again_empties serving (new 2) 7 3 (str "a") (omega arith) (omega arith)

abbrev whole : Gob (Option ShardGroupSnapshot) ShardGroupSnapshot SameSnapshot
whole = record {
  len = elim [ none ↦ 0 | some s ↦ 1 ];
  encode = λ s. some s;
  decode = λ b. b;
  encode_nonempty = λ s. omega arith;
  decode-encode = λ s. (
    s,
    refl,
    record { shards = λ i k. refl; owned = λ i. refl; frozen = λ i. refl; config_nums = λ i. refl },
  );
}

group_replies-restore_example :
    (sg' : ShardGroup) × (restore whole (new 1) (snapshot whole serving) ≡ some sg')
    × ((i : ℕ) → sg'.owned i ≡ serving.owned i)
    × ((i : ℕ) → sg'.frozen i ≡ serving.frozen i)
    × ((i : ℕ) → sg'.config_nums i ≡ serving.config_nums i)
    × ((i : ℕ) (ps : List Payload)
        → Serves serving i
        → AllRequests i ps
        → group_replies sg' ps ≡ group_replies serving ps)
group_replies-restore_example = group_replies-restore whole serving (new 1)

-- A write of "a" between the two executions.
reinstall_forgets_puts_example :
    let args : InstallShardArgs = record { shard = 7; config_num = 2; contents = none } in
    let once = (do_install (new 1) args).0 in
    let again =
      do_install
        (put_all once (record { key = str "a"; value = str "x"; version = 0 } ∷ []))
        args in
    (again.1.err ≡ Err.ok) × SameStore (shard_store again.0 7) (shard_store once 7)
unfolding new
reinstall_forgets_puts_example =
    reinstall_forgets_puts (new 1) (record { shard = 7; config_num = 2; contents = none })
      (record { key = str "a"; value = str "x"; version = 0 } ∷ []) (omega arith)

abbrev look : GetArgs
look = record { key = str "a" }

handlers_reply_example :
    handle_get true (replied (get_rep (do_get serving look).1)) ≡ some (do_get serving look).1
unfolding do_op
handlers_reply_example =
    handlers_reply serving (do_get serving look).0 (get_op look) (get_rep (do_get serving look).1)
      true refl
