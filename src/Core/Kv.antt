-- ===== src/Core/Kv.antt =====
-- internal/core/kv.go, and `VersionedValue` of internal/core/shard.go. A version is a uint64.
use project_distributed_key.Base.{ℕ, ◌+◌, ◌%◌, ◌^◌}
use project_distributed_key.Base.Keys.{GoString}
use project_distributed_key.Dict.{Dict}

-- `unset` is the zero value "" of the string type `Err`.
pub data Err : Type 0 where
  unset ok err_no_key err_version err_maybe err_wrong_leader err_wrong_group err_frozen : Err

pub record PutArgs : Type 0 where
  pub key : GoString
  pub value : GoString
  pub version : ℕ

pub record PutReply : Type 0 where
  pub err : Err

pub record GetArgs : Type 0 where
  pub key : GoString

pub record GetReply : Type 0 where
  pub err : Err
  pub value : GoString
  pub version : ℕ

pub record VersionedValue : Type 0 where
  pub value : GoString
  pub version : ℕ

abbrev pub Store : Type 0
Store = Dict GoString VersionedValue

-- uint64 addition of 1
abbrev pub next_version : ℕ → ℕ
next_version v = (v + 1) % 2 ^ 64
