-- ===== src/Shardgrp/Handlers.antt =====
-- internal/shardgrp/server.go, the RPC handlers. `ready` says that SetRSM has been called; the panic
-- of a type assertion is `none`.
use project_distributed_key.Base.{◌≡◌, arith, Bool, Option, none, some, [], if◌then◌else◌}
use project_distributed_key.Core.Kv.{Err, PutReply, GetReply}
use project_distributed_key.Core.Shard.{FreezeShardReply, InstallShardReply, DeleteShardReply}
use project_distributed_key.Core.Command.{
  Payload, Reply, get_rep, put_rep, freeze_rep, install_rep, delete_rep, get_op, put_op, freeze_op,
  install_op, delete_op,
}
use project_distributed_key.Rsm.{Submitted, replied, failed}
use project_distributed_key.Shardgrp.Server.{
  ShardGroup, do_op, do_get, do_put, do_freeze, do_install, do_delete,
}

-- rep.(T)
abbrev as_get : Reply → Option GetReply
as_get (get_rep r) = some r
as_get _ = none

abbrev as_put : Reply → Option PutReply
as_put (put_rep r) = some r
as_put _ = none

abbrev as_freeze : Reply → Option FreezeShardReply
as_freeze (freeze_rep r) = some r
as_freeze _ = none

abbrev as_install : Reply → Option InstallShardReply
as_install (install_rep r) = some r
as_install _ = none

abbrev as_delete : Reply → Option DeleteShardReply
as_delete (delete_rep r) = some r
as_delete _ = none

-- The replies of a server that is not the leader, or has no RSM.
abbrev pub no_get : GetReply
no_get = record { err = Err.err_wrong_leader; value = []; version = 0 }

abbrev pub no_put : PutReply
no_put = record { err = Err.err_wrong_leader }

abbrev pub no_freeze : FreezeShardReply
no_freeze = record { err = Err.err_wrong_leader; contents = none }

abbrev pub no_install : InstallShardReply
no_install = record { err = Err.err_wrong_leader }

abbrev pub no_delete : DeleteShardReply
no_delete = record { err = Err.err_wrong_leader }

-- What the five handlers have in common: what Submit comes to is awaited only if there is an RSM.
unfoldable pub handle : {R : Type 0} → (Reply → Option R) → R → Bool → Submitted → Option R
handle assert not_leader ready failed = some not_leader
handle assert not_leader ready (replied rep) = if ready then assert rep else some not_leader

unfoldable pub handle_get : Bool → Submitted → Option GetReply
unfolding handle
handle_get = handle as_get no_get

unfoldable pub handle_put : Bool → Submitted → Option PutReply
unfolding handle
handle_put = handle as_put no_put

unfoldable pub handle_freeze : Bool → Submitted → Option FreezeShardReply
unfolding handle
handle_freeze = handle as_freeze no_freeze

unfoldable pub handle_install : Bool → Submitted → Option InstallShardReply
unfolding handle
handle_install = handle as_install no_install

unfoldable pub handle_delete : Bool → Submitted → Option DeleteShardReply
unfolding handle
handle_delete = handle as_delete no_delete

-- What the handler of a request makes of the state machine's reply to it: that reply, or
-- ErrWrongLeader if there is no RSM yet.
abbrev pub PassesOn : ShardGroup → Payload → Bool → Submitted → Type 0
PassesOn sg (get_op a) ready s =
    handle_get ready s ≡ some (if ready then (do_get sg a).1 else no_get)
PassesOn sg (put_op a) ready s =
    handle_put ready s ≡ some (if ready then (do_put sg a).1 else no_put)
PassesOn sg (freeze_op a) ready s =
    handle_freeze ready s ≡ some (if ready then (do_freeze sg a).1 else no_freeze)
PassesOn sg (install_op a) ready s =
    handle_install ready s ≡ some (if ready then (do_install sg a).1 else no_install)
PassesOn sg (delete_op a) ready s =
    handle_delete ready s ≡ some (if ready then (do_delete sg a).1 else no_delete)

-- Of any request that the state machine has applied, the handler passes on the reply: its type is
-- the one that the handler asserts, so no handler panics.
pub handlers_reply :
    (sg sg' : ShardGroup) (p : Payload) (rep : Reply) (ready : Bool)
    → do_op sg p ≡ some (sg', rep)
    → PassesOn sg p ready (replied rep)
unfolding handle_get handle_put handle_freeze handle_install handle_delete do_op
handlers_reply sg sg' (get_op a) rep ready e = ground arith
handlers_reply sg sg' (put_op a) rep ready e = ground arith
handlers_reply sg sg' (freeze_op a) rep ready e = ground arith
handlers_reply sg sg' (install_op a) rep ready e = ground arith
handlers_reply sg sg' (delete_op a) rep ready e = ground arith
