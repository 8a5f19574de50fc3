-- ===== src/Shardctrlrd/Start/Done.antt =====
-- cmd/shardctrlrd/main.go: what a start that ends well has done.
use project_distributed_key.Base.{
  ℕ, ◌<◌, ◌≡◌, ◌≢◌, refl, ◌∙◌, inl, inr, true, Option, some, List, arith, Option-cases,
}
use project_distributed_key.Base.Keys.{GoString, string_key}
use project_distributed_key.Dict
use project_distributed_key.Dict.{Dict}
use project_distributed_key.Gob.{Gob}
use project_distributed_key.Core.Shard.{n_shards, ShardConfig}
use project_distributed_key.Kvsrv.Server.{get}
use project_distributed_key.Kvsrv.Clerk.{clerk_get}
use project_distributed_key.Kvsrv.Clerk.Moments.{clerk_get-answer, clerk_get-key}
use project_distributed_key.Shardgrp.Server.Refinement.{Serves}
use project_distributed_key.Shardctrler.{World, Schedule, finished, query, change_config_to}
use project_distributed_key.Shardctrler.Calls.{IsQuiet}
use project_distributed_key.Shardctrler.Moves.{old_group, new_group}
use project_distributed_key.Shardctrler.Change.{
  config_key, IsLocked, Stores, published, change_config_to-Serves, change_config_to_publishes,
}
use project_distributed_key.Shardctrlrd.{differ, target_of, startup}
use project_distributed_key.Shardctrlrd.Start.{start, carry_out}

module _ (locate : List GoString → Option ℕ) {Same : ShardConfig → ShardConfig → Type 0}
    (json : Gob GoString ShardConfig Same) (calls queries : Schedule) where
  asked_world : World → World
  asked_world w = record w {
    store = (clerk_get (record { key = config_key }) queries.reads w.store).0;
  }

  asked-Stores :
      (w : World) (current : ShardConfig) (version : ℕ)
      → Stores locate json calls w current version
      → IsLocked queries
      → Stores locate json calls (asked_world w) current version
  unfolding asked_world
  asked-Stores w current version s lock = record {
    value = s.value;
    found =
        clerk_get-key config_key (record { key = config_key }) queries.reads w.store lock.reads
        ∙ s.found;
    decoded = s.decoded;
  }

  start-changes :
      (w w' : World) (current : ShardConfig) (version : ℕ) (groups : Dict ℕ (List GoString))
      → Stores locate json calls w current version
      → IsLocked queries
      → differ current.groups groups ≡ true
      → start locate json calls queries groups w ≡ (w', finished)
      → change_config_to locate json calls (target_of current groups) (asked_world w)
        ≡ (w', finished)
  unfolding start carry_out startup query get asked_world
  start-changes w w' current version groups s lock changed e =
      let got = clerk_get (record { key = config_key }) queries.reads w.store in
      let key =
        clerk_get-key config_key (record { key = config_key }) queries.reads w.store lock.reads in
      elim (Option-cases got.1) [
        | inl silent ↦ absurd (ground arith)
        | inr (reply, heard) ↦
            let answer =
              clerk_get-answer (record { key = config_key }) queries.reads w.store got.0 reply
                (ground arith) in
            ground (arith, s.found, s.decoded)
      ]

  -- When the command finds other groups than those that are stored and its start ends well, the
  -- configuration in turn over the new groups is stored at the next version, and every shard that it
  -- moves to another group is served there. Calls may be lost or repeated; no one else writes the
  -- configuration, or makes a group stop serving that shard.
  pub start-Serves :
      (w w' : World) (current : ShardConfig) (version : ℕ) (groups : Dict ℕ (List GoString))
      (i d : ℕ)
      → Stores locate json calls w current version
      → IsLocked queries
      → IsLocked calls
      → IsQuiet calls i
      → differ current.groups groups ≡ true
      → start locate json calls queries groups w ≡ (w', finished)
      → i < n_shards
      → current.shards i ≢ (target_of current groups).shards i
      → new_group locate calls current (target_of current groups) i ≡ some d
      → old_group locate calls current (target_of current groups) i ≢ some d
      → (Dict.get w'.store config_key
          ≡ published locate json calls (target_of current groups) version)
        × Serves (w'.groups d) i
  start-Serves w w' current version groups i d s asked lock quiet changed e small moves found
        apart =
      let target = target_of current groups in
      let later : current.num < target.num = unfold target_of in omega arith in
      let read = asked-Stores w current version s asked in
      let ran = start-changes w w' current version groups s asked changed e in
      (
        elim (change_config_to_publishes locate json calls current target version (asked_world w) w'
            finished read lock later ran) [
              | inl (_, stored) ↦ stored
              | inr (unfinished, _) ↦ absurd (unfinished refl)
            ],
        change_config_to-Serves locate json calls current target version i d (asked_world w) w' read
            lock quiet later ran small moves found apart,
      )
