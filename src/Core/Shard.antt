-- ===== src/Core/Shard.antt =====
-- internal/core/shard.go. A shard number in a request is the index of an array: the model's
-- operations say what happens past its end. Configuration numbers do not wrap.
use project_distributed_key.Base.{ℕ, ◌%◌, ◌<◌, List, [], ◌∷◌, Option, arith}
use project_distributed_key.Base.Keys.{GoString}
use project_distributed_key.Dict.{Dict}
use project_distributed_key.Core.Kv.{Err, Store}

abbrev pub n_shards : ℕ
n_shards = 10

pub record ShardConfig : Type 0 where
  pub num : ℕ
  pub shards : ℕ → ℕ  -- [NShards]int, read below n_shards; 0 is "unassigned"
  pub groups : Dict ℕ (List GoString)

unfoldable pub key2shard : GoString → ℕ
key2shard [] = 0
key2shard (b ∷ _) = b % n_shards

-- The index is always within the arrays.
pub key2shard-lt : (key : GoString) → key2shard key < n_shards
unfolding key2shard
key2shard-lt [] = omega arith
key2shard-lt (b ∷ _) = omega arith

pub record FreezeShardArgs : Type 0 where
  pub shard : ℕ
  pub config_num : ℕ

-- A nil map is `none`.
pub record FreezeShardReply : Type 0 where
  pub err : Err
  pub contents : Option Store

pub record InstallShardArgs : Type 0 where
  pub shard : ℕ
  pub config_num : ℕ
  pub contents : Option Store

pub record InstallShardReply : Type 0 where
  pub err : Err

pub record DeleteShardArgs : Type 0 where
  pub shard : ℕ
  pub config_num : ℕ

pub record DeleteShardReply : Type 0 where
  pub err : Err
