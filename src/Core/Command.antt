-- ===== src/Core/Command.antt =====
-- internal/core/rsm.go: what the log carries. An `interface{}` is a sum of the types that the
-- program puts into it.
use project_distributed_key.Base.{ℕ}
use project_distributed_key.Core.Kv.{PutArgs, GetArgs, PutReply, GetReply}
use project_distributed_key.Core.Shard.{
  FreezeShardArgs, InstallShardArgs, DeleteShardArgs, FreezeShardReply, InstallShardReply,
  DeleteShardReply,
}

pub data Payload : Type 0 where
  get_op : GetArgs → Payload
  put_op : PutArgs → Payload
  freeze_op : FreezeShardArgs → Payload
  install_op : InstallShardArgs → Payload
  delete_op : DeleteShardArgs → Payload

pub data Reply : Type 0 where
  nil : Reply
  get_rep : GetReply → Reply
  put_rep : PutReply → Reply
  freeze_rep : FreezeShardReply → Reply
  install_rep : InstallShardReply → Reply
  delete_rep : DeleteShardReply → Reply

pub record Op : Type 0 where
  pub id : ℕ
  pub payload : Payload

-- A log entry's command: nil in the dummy entry, an `Op` in every entry that an RSM proposes.
pub data Command : Type 0 where
  vacant : Command
  op : Op → Command
