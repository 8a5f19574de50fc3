-- ===== src/Shardgrp/Server.antt =====
-- internal/shardgrp/server.go: the state machine of a shard group. The arrays are functions of the
-- shard number; `none` is Go's panic on an index past NShards. A nil map is `none`.
pub mod Lifecycle
pub mod Fencing
pub mod Refinement
pub mod Migration
pub mod Reinstall
pub mod Snapshots
use project_distributed_key.Base.{
  ℕ, ◌≡◌, Bool, true, false, not, Option, none, some, List, [], ◌∷◌, if◌then◌else◌, nat_beq, ltb,
  update,
}
use project_distributed_key.Base.Keys.{GoString, string_key}
use project_distributed_key.Dict
use project_distributed_key.Gob.{Gob}
use project_distributed_key.Core.Kv.{
  Err, PutArgs, PutReply, GetArgs, GetReply, VersionedValue, Store, next_version,
}
use project_distributed_key.Core.Shard.{
  n_shards, key2shard, FreezeShardArgs, FreezeShardReply, InstallShardArgs, InstallShardReply,
  DeleteShardArgs, DeleteShardReply,
}
use project_distributed_key.Core.Command.{
  Payload, get_op, put_op, freeze_op, install_op, delete_op, Reply, get_rep, put_rep, freeze_rep,
  install_rep, delete_rep,
}

pub record ShardGroup : Type 0 where
  pub gid : ℕ
  pub shards : ℕ → Option Store
  pub owned : ℕ → Bool
  pub frozen : ℕ → Bool
  pub config_nums : ℕ → ℕ

abbrev blank : ℕ → ShardGroup
blank gid = record {
  gid = gid;
  shards = λ i. some Dict.make;
  owned = λ i. false;
  frozen = λ i. false;
  config_nums = λ i. 0;
}

unfoldable pub new : ℕ → ShardGroup
new gid = blank gid

-- if sg.shards[shard] == nil { sg.shards[shard] = make(...) }
abbrev pub or_make : Option Store → Store
or_make none = Dict.make
or_make (some m) = m

abbrev get_error : Err → GetReply
get_error e = record { err = e; value = []; version = 0 }

abbrev get_found : Option VersionedValue → GetReply
get_found none = get_error Err.err_no_key
get_found (some v) = record { err = Err.ok; value = v.value; version = v.version }

unfoldable pub do_get : ShardGroup → GetArgs → ShardGroup × GetReply
do_get sg args =
    let shard = key2shard args.key in
    let m = or_make (sg.shards shard) in
    if not (sg.owned shard)
    then (sg, get_error Err.err_wrong_group)
    else if sg.frozen shard
    then (sg, get_error Err.err_frozen)
    else (record sg { shards = update sg.shards shard (some m) }, get_found (Dict.get m args.key))

-- sg.shards[shard] = m
abbrev pub with_shard : ShardGroup → ℕ → Store → ShardGroup
with_shard sg shard m = record sg { shards = update sg.shards shard (some m) }

abbrev store_value : ShardGroup → ℕ → Store → PutArgs → ℕ → ShardGroup × PutReply
store_value sg shard m args version = (
  with_shard sg shard (Dict.put m args.key (record { value = args.value; version = version })),
  record { err = Err.ok },
)

abbrev put_create : ShardGroup → ℕ → Store → PutArgs → Option VersionedValue → ShardGroup × PutReply
put_create sg shard m args none = store_value sg shard m args 1
put_create sg shard m args (some current) =
    (with_shard sg shard m, record { err = Err.err_version })

abbrev put_replace :
    ShardGroup → ℕ → Store → PutArgs → Option VersionedValue → ShardGroup × PutReply
put_replace sg shard m args none = (with_shard sg shard m, record { err = Err.err_no_key })
put_replace sg shard m args (some current) =
    if not (nat_beq current.version args.version)
    then (with_shard sg shard m, record { err = Err.err_version })
    else store_value sg shard m args (next_version current.version)

unfoldable pub do_put : ShardGroup → PutArgs → ShardGroup × PutReply
do_put sg args =
    let shard = key2shard args.key in
    let m = or_make (sg.shards shard) in
    let current = Dict.get m args.key in
    if not (sg.owned shard)
    then (sg, record { err = Err.err_wrong_group })
    else if sg.frozen shard
    then (sg, record { err = Err.err_frozen })
    else if nat_beq args.version 0
    then put_create sg shard m args current
    else put_replace sg shard m args current

-- reply.Data = make(...); if the map is not nil, its entries are copied
abbrev pub copy_out : Option Store → Store
copy_out none = Dict.make
copy_out (some m) = Dict.copy m

-- What Freeze, Install and Delete write for a shard.
abbrev pub mark : ShardGroup → ℕ → ℕ → Bool → Bool → ShardGroup
mark sg shard num own freeze = record sg {
  owned = update sg.owned shard own;
  frozen = update sg.frozen shard freeze;
  config_nums = update sg.config_nums shard num;
}

unfoldable pub do_freeze : ShardGroup → FreezeShardArgs → ShardGroup × FreezeShardReply
do_freeze sg args =
    if ltb args.config_num (sg.config_nums args.shard)
    then (sg, record { err = Err.err_version; contents = none })
    else (
      mark sg args.shard args.config_num false true,
      record { err = Err.ok; contents = some (copy_out (sg.shards args.shard)) },
    )

unfoldable pub do_install : ShardGroup → InstallShardArgs → ShardGroup × InstallShardReply
do_install sg args =
    if ltb args.config_num (sg.config_nums args.shard)
    then (sg, record { err = Err.err_version })
    else (
      with_shard (mark sg args.shard args.config_num true false) args.shard
          (copy_out args.contents),
      record { err = Err.ok },
    )

unfoldable pub do_delete : ShardGroup → DeleteShardArgs → ShardGroup × DeleteShardReply
do_delete sg args =
    if ltb args.config_num (sg.config_nums args.shard)
    then (sg, record { err = Err.err_version })
    else (
      with_shard (mark sg args.shard args.config_num false false) args.shard Dict.make,
      record { err = Err.ok },
    )

abbrev pub in_range {ℓ} : {A : Type ℓ} → ℕ → A → Option A
in_range shard a = if ltb shard n_shards then some a else none

-- StateMachine.DoOp
unfoldable pub do_op : ShardGroup → Payload → Option (ShardGroup × Reply)
do_op sg (get_op a) = let (sg', r) = do_get sg a in some (sg', get_rep r)
do_op sg (put_op a) = let (sg', r) = do_put sg a in some (sg', put_rep r)
do_op sg (freeze_op a) = let (sg', r) = do_freeze sg a in in_range a.shard (sg', freeze_rep r)
do_op sg (install_op a) = let (sg', r) = do_install sg a in in_range a.shard (sg', install_rep r)
do_op sg (delete_op a) = let (sg', r) = do_delete sg a in in_range a.shard (sg', delete_rep r)

-- The group after a sequence of operations, if none panics.
unfoldable pub run : ShardGroup → List Payload → Option ShardGroup
run sg [] = some sg
run sg (p ∷ ps) = elim (do_op sg p) [ none ↦ none | some (sg', r) ↦ run sg' ps ]

pub record ShardGroupSnapshot : Type 0 where
  pub shards : ℕ → Option Store
  pub owned : ℕ → Bool
  pub frozen : ℕ → Bool
  pub config_nums : ℕ → ℕ

-- Two maps, nil or not, that read alike.
abbrev pub SameShard : Option Store → Option Store → Type 0
SameShard m n = (k : GoString) → Dict.get (or_make m) k ≡ Dict.get (or_make n) k

pub record SameSnapshot (a b : ShardGroupSnapshot) : Type 0 where
  pub shards : (i : ℕ) → SameShard (a.shards i) (b.shards i)
  pub owned : (i : ℕ) → a.owned i ≡ b.owned i
  pub frozen : (i : ℕ) → a.frozen i ≡ b.frozen i
  pub config_nums : (i : ℕ) → a.config_nums i ≡ b.config_nums i

module _ {B : Type 0} (gob : Gob B ShardGroupSnapshot SameSnapshot) where
  unfoldable pub snapshot : ShardGroup → B
  snapshot sg = gob.encode (record {
    shards = sg.shards;
    owned = sg.owned;
    frozen = sg.frozen;
    config_nums = sg.config_nums;
  })

  abbrev load : ℕ → ShardGroupSnapshot → ShardGroup
  load gid s = record {
    gid = gid;
    shards = s.shards;
    owned = s.owned;
    frozen = s.frozen;
    config_nums = s.config_nums;
  }

  -- `none` is the panic on bytes that do not decode.
  unfoldable pub restore : ShardGroup → B → Option ShardGroup
  restore sg bytes =
      if nat_beq (gob.len bytes) 0
      then some (blank sg.gid)
      else elim (gob.decode bytes) [ none ↦ none | some s ↦ some (load sg.gid s) ]
