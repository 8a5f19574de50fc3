-- ===== src/Shardgrp/Server/Fencing.antt =====
-- internal/shardgrp/server.go: the configuration number fences off stale migration requests.
use project_distributed_key.Base.{ℕ, ◌<◌, ◌≤◌, ◌≡◌, ◌≢◌, refl, Option, none, some, List, ap, arith}
use project_distributed_key.Core.Kv.{Err}
use project_distributed_key.Core.Shard.{n_shards, key2shard}
use project_distributed_key.Core.Command.{
  Payload, get_op, put_op, freeze_op, install_op, delete_op, Reply,
}
use project_distributed_key.Shardgrp.Server.{
  ShardGroup, do_get, do_put, do_freeze, do_install, do_delete, do_op, run,
}
use project_distributed_key.Shardgrp.Server.Lifecycle.{After, err_of, After-in_range, run_induction}

-- The shard and the configuration number of a migration request.
abbrev pub migration : Payload → Option (ℕ × ℕ)
migration (freeze_op a) = some (a.shard, a.config_num)
migration (install_op a) = some (a.shard, a.config_num)
migration (delete_op a) = some (a.shard, a.config_num)
migration _ = none

-- The shard that an operation is about.
abbrev pub shard_of : Payload → ℕ
shard_of (get_op a) = key2shard a.key
shard_of (put_op a) = key2shard a.key
shard_of (freeze_op a) = a.shard
shard_of (install_op a) = a.shard
shard_of (delete_op a) = a.shard

-- A migration request with a number below the shard's is answered ErrVersion and changes nothing.
pub stale_rejected :
    (sg : ShardGroup) (p : Payload) (shard num : ℕ)
    → migration p ≡ some (shard, num)
    → shard < n_shards
    → num < sg.config_nums shard
    → (r : Reply) × (do_op sg p ≡ some (sg, r)) × (err_of r ≡ Err.err_version)
unfolding do_op do_freeze do_install do_delete
stale_rejected sg (get_op a) shard num m i h = cc
stale_rejected sg (put_op a) shard num m i h = cc
stale_rejected sg (freeze_op a) shard num m i h =
    (Reply.freeze_rep (record { err = Err.err_version; contents = none }), ground arith, refl)
stale_rejected sg (install_op a) shard num m i h =
    (Reply.install_rep (record { err = Err.err_version }), ground arith, refl)
stale_rejected sg (delete_op a) shard num m i h =
    (Reply.delete_rep (record { err = Err.err_version }), ground arith, refl)

-- What an operation leaves alone: each shard but its own.
pub record SameElsewhere (shard : ℕ) (a b : ShardGroup) : Type 0 where
  pub shards : (i : ℕ) → i ≢ shard → a.shards i ≡ b.shards i
  pub owned : (i : ℕ) → i ≢ shard → a.owned i ≡ b.owned i
  pub frozen : (i : ℕ) → i ≢ shard → a.frozen i ≡ b.frozen i
  pub config_nums : (i : ℕ) → i ≢ shard → a.config_nums i ≡ b.config_nums i

-- Every operation touches one shard only.
pub do_op_local :
    (sg : ShardGroup) (p : Payload)
    → After (λ sg' _. SameElsewhere (shard_of p) sg sg') (do_op sg p)
unfolding do_op do_get do_put do_freeze do_install do_delete
do_op_local sg (get_op a) = record {
  shards = λ i h. ground arith;
  owned = λ i h. ground arith;
  frozen = λ i h. ground arith;
  config_nums = λ i h. ground arith;
}
do_op_local sg (put_op a) = record {
  shards = λ i h. ground arith;
  owned = λ i h. ground arith;
  frozen = λ i h. ground arith;
  config_nums = λ i h. ground arith;
}
do_op_local sg (freeze_op a) =
    After-in_range (λ sg' _. SameElsewhere a.shard sg sg') a.shard
      (record {
        shards = λ i h. ground arith;
        owned = λ i h. ground arith;
        frozen = λ i h. ground arith;
        config_nums = λ i h. ground arith;
      })
do_op_local sg (install_op a) =
    After-in_range (λ sg' _. SameElsewhere a.shard sg sg') a.shard
      (record {
        shards = λ i h. ground arith;
        owned = λ i h. ground arith;
        frozen = λ i h. ground arith;
        config_nums = λ i h. ground arith;
      })
do_op_local sg (delete_op a) =
    After-in_range (λ sg' _. SameElsewhere a.shard sg sg') a.shard
      (record {
        shards = λ i h. ground arith;
        owned = λ i h. ground arith;
        frozen = λ i h. ground arith;
        config_nums = λ i h. ground arith;
      })

-- The number of a shard only grows.
pub do_op_num_grows :
    (sg : ShardGroup) (p : Payload) (i : ℕ)
    → After (λ sg' _. sg.config_nums i ≤ sg'.config_nums i) (do_op sg p)
unfolding do_op do_get do_put do_freeze do_install do_delete
do_op_num_grows sg (get_op a) i = ground arith
do_op_num_grows sg (put_op a) i = ground arith
do_op_num_grows sg (freeze_op a) i = ground arith
do_op_num_grows sg (install_op a) i = ground arith
do_op_num_grows sg (delete_op a) i = ground arith

keeps_floor :
    (num shard : ℕ) (sg : ShardGroup) (p : Payload)
    → num ≤ sg.config_nums shard
    → After (λ sg' _. num ≤ sg'.config_nums shard) (do_op sg p)
keeps_floor num shard sg p h = raise (do_op sg p) (do_op_num_grows sg p shard)
  where
    raise :
        (o : Option (ShardGroup × Reply))
        → After (λ sg' _. sg.config_nums shard ≤ sg'.config_nums shard) o
        → After (λ sg' _. num ≤ sg'.config_nums shard) o
    raise none _ = tt
    raise (some (sg', r)) grown = omega arith

-- A migration request that is not stale is answered OK, and its number is recorded.
pub current_accepted :
    (sg : ShardGroup) (p : Payload) (shard num : ℕ)
    → migration p ≡ some (shard, num)
    → shard < n_shards
    → sg.config_nums shard ≤ num
    → (sg' : ShardGroup) × (r : Reply) × (do_op sg p ≡ some (sg', r))
      × (err_of r ≡ Err.ok)
      × (sg'.config_nums shard ≡ num)
unfolding do_op do_freeze do_install do_delete
current_accepted sg (get_op a) shard num m i h = cc
current_accepted sg (put_op a) shard num m i h = cc
current_accepted sg (freeze_op a) shard num m i h = (
  (do_freeze sg a).0,
  Reply.freeze_rep (do_freeze sg a).1,
  ground arith,
  ground arith,
  ground arith,
)
current_accepted sg (install_op a) shard num m i h = (
  (do_install sg a).0,
  Reply.install_rep (do_install sg a).1,
  ground arith,
  ground arith,
  ground arith,
)
current_accepted sg (delete_op a) shard num m i h = (
  (do_delete sg a).0,
  Reply.delete_rep (do_delete sg a).1,
  ground arith,
  ground arith,
  ground arith,
)

-- Once a request with a number has been accepted for a shard, and after any operations, every
-- request for that shard with a lower number is answered ErrVersion and changes nothing.
pub fenced_forever :
    (sg sg' : ShardGroup) (reply : Reply) (p q : Payload) (shard num lower : ℕ)
    (between : List Payload) (end : ShardGroup)
    → migration p ≡ some (shard, num)
    → shard < n_shards
    → sg.config_nums shard ≤ num
    → do_op sg p ≡ some (sg', reply)
    → run sg' between ≡ some end
    → migration q ≡ some (shard, lower)
    → lower < num
    → (r : Reply) × (do_op end q ≡ some (end, r)) × (err_of r ≡ Err.err_version)
fenced_forever sg sg' reply p q shard num lower between end m i current stepped ran m' low =
    let (after, r, done, _, recorded) = current_accepted sg p shard num m i current in
    let same : sg' ≡ after = cc in
    let floor : num ≤ sg'.config_nums shard =
      omega (arith, ap (λ (g : ShardGroup). g.config_nums shard) same) in
    stale_rejected end q shard lower m' i (
      omega (
        arith,
        run_induction (λ g. num ≤ g.config_nums shard) (keeps_floor num shard) sg' between floor
            ran,
      ))
