-- ===== src/Shardkv.antt =====
-- internal/shardkv/client.go. A loop runs along its rounds: what the group's clerk meets in its
-- call, and what Query then returns. The map of clerks is emptied whenever the configuration is
-- replaced, so a clerk has the servers of the present one. `locate` is the group that a list of
-- servers is; a clerk whose servers are no group never returns.
pub mod Routing
use project_distributed_key.Base.{
  ℕ, Bool, true, false, ◌||◌, Option, none, some, List, [], ◌∷◌, if◌then◌else◌, nat_beq, update,
}
use project_distributed_key.Base.Keys.{GoString}
use project_distributed_key.Core.Kv.{Err, PutArgs, PutReply, GetArgs, GetReply}
use project_distributed_key.Core.Shard.{ShardConfig, key2shard}
use project_distributed_key.Shardgrp.Server.{ShardGroup}
use project_distributed_key.Shardgrp.Clerk.{Attempt, group_get, group_put}
use project_distributed_key.Shardctrler.{servers_of}

pub record Round : Type 0 where
  pub attempts : List Attempt
  pub queried : Option ShardConfig  -- `none` is an error of Query

abbrev pub refresh : Round → ShardConfig → ShardConfig
refresh round config = elim round.queried [ none ↦ config | some new ↦ new ]

abbrev pub final_get : Err → Bool
final_get Err.ok = true
final_get Err.err_no_key = true
final_get _ = false

abbrev pub final_put : Err → Bool
final_put Err.ok = true
final_put Err.err_version = true
final_put Err.err_no_key = true
final_put _ = false

module _ (locate : List GoString → Option ℕ) where
  abbrev pub Groups : Type 0
  Groups = ℕ → ShardGroup

  -- Clerk.Get
  unfoldable pub get : GetArgs → List Round → ShardConfig → Groups → Groups × Option GetReply
  get args [] config groups = (groups, none)
  get args (round ∷ rounds) config groups =
      let gid = config.shards (key2shard args.key) in
      let again = get args rounds (refresh round config) in
      elim (nat_beq gid 0) [
        | true ↦ again groups
        | false ↦ elim (locate (servers_of config gid)) [
          | none ↦ (groups, none)
          | some g ↦
              let called = group_get args round.attempts (groups g) in
              let groups' = update groups g called.0 in
              elim called.1 [
                | none ↦ (groups', none)
                | some reply ↦ elim (final_get reply.err) [
                  | true ↦ (groups', some reply)
                  | false ↦ again groups'
                ]
              ]
        ]
      ]

  -- Clerk.Put
  unfoldable pub put : PutArgs → List Round → ShardConfig → Groups → Groups × Option Err
  put args [] config groups = (groups, none)
  put args (round ∷ rounds) config groups =
      let gid = config.shards (key2shard args.key) in
      let again = put args rounds (refresh round config) in
      elim (nat_beq gid 0) [
        | true ↦ again groups
        | false ↦ elim (locate (servers_of config gid)) [
          | none ↦ (groups, none)
          | some g ↦
              let called = group_put args round.attempts (groups g) in
              let groups' = update groups g called.0 in
              elim called.1 [
                | none ↦ (groups', none)
                | some reply ↦ elim (final_put reply.err) [
                  | true ↦ (groups', some reply.err)
                  | false ↦ again groups'
                ]
              ]
        ]
      ]
