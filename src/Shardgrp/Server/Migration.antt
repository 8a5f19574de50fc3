-- ===== src/Shardgrp/Server/Migration.antt =====
-- internal/shardgrp/server.go, in the order in which internal/shardctrler/controller.go calls it
-- for a shard that moves: FreezeShard at the source, InstallShard of the frozen data at the
-- destination, DeleteShard at the source.
use project_distributed_key.Base.{
  ℕ, ◌≤◌, ◌≡◌, refl, Bool, true, false, not, if◌then◌else◌, Option, none, some, arith, ◌∙◌,
}
use project_distributed_key.Base.Keys.{GoString, string_key}
use project_distributed_key.Dict
use project_distributed_key.Dict.{get-make, get-copy}
use project_distributed_key.Core.Kv.{Err, Store, VersionedValue}
use project_distributed_key.Kvsrv.Server.{SameStore}
use project_distributed_key.Shardgrp.Server.{
  ShardGroup, do_freeze, do_install, do_delete, copy_out, or_make,
}
use project_distributed_key.Shardgrp.Server.Refinement.{shard_store}

pub get-copy_out :
    (o : Option Store) (k : GoString) → Dict.get (copy_out o) k ≡ Dict.get (or_make o) k
get-copy_out none k = refl
get-copy_out (some m) k = get-copy m k

-- The two groups after the calls, with their errors; a call that is not made has none.
pub record Moved : Type 0 where
  pub source : ShardGroup
  pub destination : ShardGroup
  pub froze : Err
  pub installed : Option Err
  pub deleted : Option Err

abbrev is_ok : Err → Bool
is_ok Err.ok = true
is_ok _ = false

unfoldable pub move_shard : ShardGroup → ShardGroup → ℕ → ℕ → Moved
move_shard src dst shard num =
    let (src', frozen) = do_freeze src (record { shard = shard; config_num = num }) in
    let (dst', installed) =
      do_install dst (record { shard = shard; config_num = num; contents = frozen.contents }) in
    let (src'', deleted) = do_delete src' (record { shard = shard; config_num = num }) in
    if not (is_ok frozen.err)
    then record {
      source = src';
      destination = dst;
      froze = frozen.err;
      installed = none;
      deleted = none;
    }
    else if not (is_ok installed.err)
    then record {
      source = src';
      destination = dst';
      froze = frozen.err;
      installed = some installed.err;
      deleted = none;
    }
    else record {
      source = src'';
      destination = dst';
      froze = frozen.err;
      installed = some installed.err;
      deleted = some deleted.err;
    }

module _ (src dst : ShardGroup) (shard num : ℕ) (src_current : src.config_nums shard ≤ num)
    (dst_current : dst.config_nums shard ≤ num) where
  abbrev result : Moved
  result = move_shard src dst shard num

  pub move_shard_ok :
      (result.froze ≡ Err.ok) × (result.installed ≡ some Err.ok) × (result.deleted ≡ some Err.ok)
  unfolding move_shard do_freeze do_install do_delete
  move_shard_ok = ground arith

  move_shard-SameStore : SameStore (shard_store result.destination shard) (shard_store src shard)
  unfolding move_shard do_freeze do_install do_delete
  move_shard-SameStore k = ground (
    arith,
    get-copy_out (some (copy_out (src.shards shard))) k,
    get-copy_out (src.shards shard) k,
  )

  move_shard_recorded :
      (result.source.config_nums shard ≡ num) × (result.destination.config_nums shard ≡ num)
  unfolding move_shard do_freeze do_install do_delete
  move_shard_recorded = ground arith

  abbrev frozen_source : ShardGroup
  frozen_source = (do_freeze src (record { shard = shard; config_num = num })).0

  -- The source no longer owns the shard, and holds none of its keys.
  pub move_shard_released :
      (result.source.owned shard ≡ false)
      × ((k : GoString) → Dict.get (shard_store result.source shard) k ≡ none)
  unfolding move_shard do_freeze do_install do_delete
  move_shard_released = (ground arith, λ k. ground (arith, get-make {V = VersionedValue} k))

-- Moving a shard a second time under the same number, as a controller does that starts over after a
-- crash, is answered OK throughout, and leaves no key of the shard in either group.
pub move_again_empties :
    (src dst : ShardGroup) (shard num : ℕ) (k : GoString)
    → src.config_nums shard ≤ num
    → dst.config_nums shard ≤ num
    → let once = move_shard src dst shard num in
      let twice = move_shard once.source once.destination shard num in
      (twice.froze ≡ Err.ok)
      × (twice.installed ≡ some Err.ok)
      × (twice.deleted ≡ some Err.ok)
      × (Dict.get (shard_store twice.source shard) k ≡ none)
      × (Dict.get (shard_store twice.destination shard) k ≡ none)
move_again_empties src dst shard num k hs hd =
    let once = move_shard src dst shard num in
    let (src_num, dst_num) = move_shard_recorded src dst shard num hs hd in
    let hs' : once.source.config_nums shard ≤ num = omega arith in
    let hd' : once.destination.config_nums shard ≤ num = omega arith in
    let (f, i, d) = move_shard_ok once.source once.destination shard num hs' hd' in
    (
      f,
      i,
      d,
      (move_shard_released once.source once.destination shard num hs' hd').1 k,
      move_shard-SameStore once.source once.destination shard num hs' hd' k
          ∙ (move_shard_released src dst shard num hs hd).1 k,
    )
