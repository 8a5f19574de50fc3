-- ===== src/Shardctrler/Init.antt =====
-- internal/shardctrler/controller.go: InitConfig is a change from a configuration without assignments.
use project_distributed_key.Base.{
  ℕ, ◌<◌, ◌≡◌, ◌≢◌, refl, sym, ◌∙◌, ap, subst, ◌⊎◌, inl, inr, Option, none, some, List, [], ◌∷◌,
  arith, Option-cases,
}
use project_distributed_key.Base.Keys.{GoString, string_key, int_key}
use project_distributed_key.Dict
use project_distributed_key.Dict.{Dict, get-make}
use project_distributed_key.Gob.{Gob}
use project_distributed_key.Core.Shard.{n_shards, ShardConfig}
use project_distributed_key.Kvsrv.Server.{get}
use project_distributed_key.Kvsrv.Clerk.{clerk_get}
use project_distributed_key.Kvsrv.Clerk.Moments.{clerk_get-answer, clerk_get-key}
use project_distributed_key.Shardgrp.Server.Refinement.{Serves}
use project_distributed_key.Shardctrler.{
  World, Schedule, Ending, finished, and_then, servers_of, move_one, move_all, shards_from, publish,
  install_one, install_all, first_config, init_config,
}
use project_distributed_key.Shardctrler.Calls.{and_then-finished, IsQuiet}
use project_distributed_key.Shardctrler.Moves.{move_all-Serves}
use project_distributed_key.Shardctrler.Change.{
  config_key, IsLocked, read_world, publish_groups, publish-Settles,
}

-- A configuration in which every shard is unassigned.
unassigned : ShardConfig
unassigned = record { num = 0; shards = λ i. 0; groups = Dict.make }

and_then_cong :
    (r : World × Ending) (f g : World → World × Ending)
    → ((w : World) → f w ≡ g w)
    → and_then r f ≡ and_then r g
and_then_cong (w, Ending.finished) f g same = same w
and_then_cong (w, Ending.failed) f g same = refl
and_then_cong (w, Ending.stuck) f g same = refl

module _ (locate : List GoString → Option ℕ) {Same : ShardConfig → ShardConfig → Type 0}
    (json : Gob GoString ShardConfig Same) (calls : Schedule) where
  install_one-move_one :
      (config : ShardConfig) (shard : ℕ) (w : World)
      → config.num ≡ 0
      → install_one locate json calls config shard w
        ≡ move_one locate calls unassigned config shard w
  unfolding install_one move_one unassigned
  install_one-move_one config shard w zeroth = ground arith

  install_all-move_all :
      (config : ShardConfig) (js : List ℕ) (w : World)
      → config.num ≡ 0
      → install_all locate json calls config js w ≡ move_all locate calls unassigned config js w
  unfolding install_all move_all
  install_all-move_all config [] w zeroth = refl
  install_all-move_all config (j ∷ js) w zeroth =
      ap (λ r. and_then r (install_all locate json calls config js))
        (install_one-move_one config j w zeroth)
      ∙ and_then_cong (move_one locate calls unassigned config j w)
          (install_all locate json calls config js) (move_all locate calls unassigned config js)
          (λ v. install_all-move_all config js v zeroth)

  nothing_before :
      (config : ShardConfig) (i d : ℕ)
      → locate [] ≡ none
      → locate (servers_of unassigned (unassigned.shards i)) ≢ some d
  unfolding unassigned
  nothing_before config i d nobody e = ground (arith, get-make {K = ℕ} {V = List GoString} 0)

  init_config-cases :
      (groups : Dict ℕ (List GoString)) (w : World)
      → Dict.get w.store config_key ≡ none
      → IsLocked calls
      → (init_config locate json calls groups w ≡ (read_world locate json calls w, Ending.stuck))
        ⊎ (init_config locate json calls groups w
            ≡ and_then
                (move_all locate calls unassigned
                  (first_config groups)
                  (shards_from n_shards 0)
                  (read_world locate json calls w))
                (publish locate json calls (first_config groups) 0))
  unfolding init_config get read_world
  init_config-cases groups w absent lock =
      let got = clerk_get (record { key = config_key }) calls.reads w.store in
      let key =
        clerk_get-key config_key (record { key = config_key }) calls.reads w.store lock.reads in
      elim (Option-cases got.1) [
        | inl silent ↦ inl (ground arith)
        | inr (reply, heard) ↦
            let answer =
              clerk_get-answer (record { key = config_key }) calls.reads w.store got.0 reply
                (ground arith) in
            let same =
              install_all-move_all (first_config groups) (shards_from n_shards 0)
                (record w { store = got.0 }) (unfold first_config in refl) in
            inr (ground (arith, same))
      ]

  -- When no configuration is stored and the first one is made well, every shard that it assigns is
  -- served by its group, and it is stored at version 1. Calls may be lost or repeated; no one else
  -- writes the configuration, or makes a group stop serving that shard.
  pub init_config-Serves :
      (groups : Dict ℕ (List GoString)) (w w' : World) (i d : ℕ)
      → Dict.get w.store config_key ≡ none
      → IsLocked calls
      → IsQuiet calls i
      → locate [] ≡ none
      → init_config locate json calls groups w ≡ (w', finished)
      → i < n_shards
      → (first_config groups).shards i ≢ 0
      → locate (servers_of (first_config groups) ((first_config groups).shards i)) ≡ some d
      → Serves (w'.groups d) i
        × (Dict.get w'.store config_key
            ≡ some (record { value = json.encode (first_config groups); version = 1 }))
  init_config-Serves groups w w' i d absent lock quiet nobody e small assigned found =
      elim (init_config-cases groups w absent lock) [
        | inl unread ↦ absurd (ground arith)
        | inr runs ↦
            let config = first_config groups in
            let v = read_world locate json calls w in
            let (u, moved, put) =
              and_then-finished (move_all locate calls unassigned config (shards_from n_shards 0) v)
                (publish locate json calls config 0) w' (sym runs ∙ e) in
            let serves =
              move_all-Serves locate calls unassigned config n_shards 0 i d v u quiet (omega arith)
                (omega arith) (unfold unassigned in λ same. assigned (sym same)) found
                (nothing_before config i d nobody) moved in
            let same = publish_groups locate json calls config 0 u w' finished put in
            let (_, answered) = publish-Settles locate json calls config 0 u lock in
            (
              subst (λ g. Serves (g d) i) (sym same) serves,
              ap (λ r. Dict.get r.0.store config_key) (sym put) ∙ answered (ap (λ r. r.1) put),
            )
      ]
