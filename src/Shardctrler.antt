-- ===== src/Shardctrler.antt =====
-- internal/shardctrler/controller.go, while the controller holds the lock, which is a component of its
-- own. A clerk's call runs on the group that its servers are (the parameter `locate`); a clerk whose
-- servers are no group never returns. A `Schedule` says what every clerk's call meets.
pub mod Calls
pub mod Effects
pub mod Moves
pub mod Change
pub mod Init
pub mod RoundRobin
use project_distributed_key.Base.{
  ℕ, zero, suc, ◌+◌, ◌≡◌, Bool, true, false, not, Option, none, some, List, [], ◌∷◌, if◌then◌else◌,
  nat_beq, leb, update,
}
use project_distributed_key.Base.Keys.{GoString, string_key, int_key, str}
use project_distributed_key.Dict
use project_distributed_key.Dict.{Dict}
use project_distributed_key.Gob.{Gob}
use project_distributed_key.Core.Kv.{Err, Store, GetArgs, PutArgs}
use project_distributed_key.Core.Shard.{
  n_shards, ShardConfig, FreezeShardArgs, InstallShardArgs, DeleteShardArgs, FreezeShardReply,
}
use project_distributed_key.Kvsrv.Clerk as Kv
use project_distributed_key.Kvsrv.Clerk.{clerk_get, clerk_put}
use project_distributed_key.Shardgrp.Server.{ShardGroup}
use project_distributed_key.Shardgrp.Clerk.{Attempt, group_freeze, group_install, group_delete}
use project_distributed_key.Shardctrler.RoundRobin.{keys, sort_ints, assign}

-- The groups by their number, and the metadata server.
pub record World : Type 0 where
  pub groups : ℕ → ShardGroup
  pub store : Store

-- The attempts of the clerks: of Get and Put of the configuration, and of the calls for each shard.
pub record Schedule : Type 0 where
  pub reads : List Kv.Attempt
  pub writes : List Kv.Attempt
  pub freezes : ℕ → List Attempt
  pub installs : ℕ → List Attempt
  pub deletes : ℕ → List Attempt

-- A nil error, an error, or a call that does not return.
pub data Ending : Type 0 where
  finished failed stuck : Ending

abbrev is_ok : Err → Bool
is_ok Err.ok = true
is_ok _ = false

-- config.Groups[gid]
abbrev pub servers_of : ShardConfig → ℕ → List GoString
servers_of config gid = elim (Dict.get config.groups gid) [ none ↦ [] | some servers ↦ servers ]

abbrev pub call :
    {R : Type 0} → World → Option ℕ → (ShardGroup → ShardGroup × Option R) → World × Option R
call w none f = (w, none)
call w (some g) f =
    let (sg, reply) = f (w.groups g) in (record w { groups = update w.groups g sg }, reply)

abbrev pub and_then : World × Ending → (World → World × Ending) → World × Ending
and_then (w, finished) f = f w
and_then (w, e) f = (w, e)

abbrev pub ending : Option Err → Ending
ending none = stuck
ending (some e) = if is_ok e then finished else failed

unfoldable pub install : World → Option ℕ → InstallShardArgs → List Attempt → World × Ending
install w g args ts =
    let (w', reply) = call w g (group_install args ts) in
    (w', ending (elim reply [ none ↦ none | some r ↦ some r.err ]))

unfoldable pub delete : World → Option ℕ → DeleteShardArgs → List Attempt → World × Ending
delete w g args ts =
    let (w', reply) = call w g (group_delete args ts) in
    (w', ending (elim reply [ none ↦ none | some r ↦ some r.err ]))

module _ (locate : List GoString → Option ℕ) (calls : Schedule) where
  -- What follows the answer to FreezeShard.
  unfoldable pub after_freeze :
      Option ℕ → Option ℕ → ℕ → ℕ → World → Option FreezeShardReply → World × Ending
  after_freeze src dst shard num w none = (w, stuck)
  after_freeze src dst shard num w (some reply) =
      if is_ok reply.err
      then and_then
          (install w dst (record { shard = shard; config_num = num; contents = reply.contents })
            (calls.installs shard))
          (λ w'. delete w' src (record { shard = shard; config_num = num }) (calls.deletes shard))
      else (w, failed)

  -- The calls for a shard that moves from the group `src` to `dst`.
  unfoldable pub hand_over : Option ℕ → Option ℕ → ℕ → ℕ → World → World × Ending
  hand_over src dst shard num w =
      let (w', frozen) =
        call w src
          (group_freeze (record { shard = shard; config_num = num }) (calls.freezes shard)) in
      after_freeze src dst shard num w' frozen

  unfoldable pub move_one : ShardConfig → ShardConfig → ℕ → World → World × Ending
  move_one current target shard w =
      let src = current.shards shard in
      let dst = locate (servers_of target (target.shards shard)) in
      if nat_beq src (target.shards shard)
      then (w, finished)
      else if not (nat_beq src 0)
      then hand_over (locate (servers_of current src)) dst shard target.num w
      else install w dst (record { shard = shard; config_num = target.num; contents = none })
          (calls.installs shard)

  unfoldable pub move_all : ShardConfig → ShardConfig → List ℕ → World → World × Ending
  move_all current target [] w = (w, finished)
  move_all current target (shard ∷ rest) w =
      and_then (move_one current target shard w) (move_all current target rest)

-- for i := first; i < first + k; i++
unfoldable pub shards_from : ℕ → ℕ → List ℕ
shards_from zero first = []
shards_from (suc k) first = first ∷ shards_from k (first + 1)

-- The configuration that InitConfig makes.
unfoldable pub first_config : Dict ℕ (List GoString) → ShardConfig
first_config groups = record {
  num = 0;
  shards = assign (sort_ints (keys groups.entries));
  groups = groups;
}

-- What Query returns: the configuration with the number -1, a configuration, or an error.
pub data Queried : Type 0 where
  no_config query_error : Queried
  stored_config : ShardConfig → Queried

module _ (locate : List GoString → Option ℕ) {Same : ShardConfig → ShardConfig → Type 0}
    (json : Gob GoString ShardConfig Same) (calls : Schedule) where
  unfoldable pub publish : ShardConfig → ℕ → World → World × Ending
  publish target version w =
      let args : PutArgs = record {
        key = str "config";
        value = json.encode target;
        version = version;
      } in
      let (store, result) = clerk_put args calls.writes w.store in
      (record w { store = store }, ending result)

  unfoldable pub change_config_to : ShardConfig → World → World × Ending
  change_config_to target w =
      let (store, stored) = clerk_get (record { key = str "config" }) calls.reads w.store in
      let read = record w { store = store } in
      elim stored [
        | none ↦ (read, stuck)
        | some reply ↦
            if not (is_ok reply.err) then (read, failed) else elim (json.decode reply.value) [
              | none ↦ (read, failed)
              | some current ↦
                  if leb target.num current.num
                  then (read, finished)
                  else and_then (move_all locate calls current target (shards_from n_shards 0) read)
                      (publish target reply.version)
            ]
      ]

  -- The shards of the first configuration.
  unfoldable pub install_one : ShardConfig → ℕ → World → World × Ending
  install_one config shard w =
      let gid = config.shards shard in
      if not (nat_beq gid 0)
      then install w (locate (servers_of config gid))
          (record { shard = shard; config_num = 0; contents = none }) (calls.installs shard)
      else (w, finished)

  unfoldable pub install_all : ShardConfig → List ℕ → World → World × Ending
  install_all config [] w = (w, finished)
  install_all config (shard ∷ rest) w =
      and_then (install_one config shard w) (install_all config rest)

  unfoldable pub init_config : Dict ℕ (List GoString) → World → World × Ending
  init_config groups w =
      let (store, stored) = clerk_get (record { key = str "config" }) calls.reads w.store in
      let read = record w { store = store } in
      elim stored [
        | none ↦ (read, stuck)
        | some reply ↦
            if is_ok reply.err
            then (read, finished)
            else and_then (install_all (first_config groups) (shards_from n_shards 0) read)
                (publish (first_config groups) 0)
      ]

  abbrev queried : Err → GoString → Queried
  queried Err.ok value = elim (json.decode value) [ none ↦ query_error | some c ↦ stored_config c ]
  queried Err.err_no_key value = no_config
  queried _ value = query_error

  unfoldable pub query : Store → Store × Option Queried
  query s =
      let (s', stored) = clerk_get (record { key = str "config" }) calls.reads s in
      (s', elim stored [ none ↦ none | some reply ↦ some (queried reply.err reply.value) ])
