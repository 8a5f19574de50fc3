-- ===== src/Shardctrler/Change.antt =====
-- internal/shardctrler/controller.go: ChangeConfigTo and InitConfig from their start to the
-- publication.
use project_distributed_key.Base.{
  ℕ, ◌<◌, ◌≡◌, ◌≢◌, sym, ◌∙◌, ap, subst, ◌⊎◌, inl, inr, Option, none, some, List, arith,
  Option-cases,
}
use project_distributed_key.Base.Keys.{GoString, string_key, str}
use project_distributed_key.Dict
use project_distributed_key.Gob.{Gob}
use project_distributed_key.Core.Kv.{PutArgs, VersionedValue, next_version}
use project_distributed_key.Core.Shard.{n_shards, ShardConfig}
use project_distributed_key.Kvsrv.Server.{get}
use project_distributed_key.Kvsrv.Clerk.{clerk_get, clerk_put}
use project_distributed_key.Kvsrv.Clerk.Moments.{
  KeepsKey, clerk_get-answer, clerk_get-key, clerk_put-Settles,
}
use project_distributed_key.Shardgrp.Server.Refinement.{Serves}
use project_distributed_key.Shardctrler.{
  World, Schedule, Ending, finished, and_then, move_all, shards_from, publish, change_config_to,
}
use project_distributed_key.Shardctrler.Calls.{
  and_then-finished, Ending-cases, IsQuiet, ending-finished,
}
use project_distributed_key.Shardctrler.Moves.{
  old_group, new_group, move_all-Serves, move_all-store, move_all_nobody,
}

abbrev pub config_key : GoString
config_key = str "config"

-- No one else writes the configuration: what the lock is for.
pub record IsLocked (calls : Schedule) : Type 0 where
  pub reads : KeepsKey config_key calls.reads
  pub writes : KeepsKey config_key calls.writes

module _ (locate : List GoString → Option ℕ) {Same : ShardConfig → ShardConfig → Type 0}
    (json : Gob GoString ShardConfig Same) (calls : Schedule) where
  -- The metadata server's configuration, and its version.
  pub record Stores (w : World) (current : ShardConfig) (version : ℕ) : Type 0 where
    pub value : GoString
    pub found : Dict.get w.store config_key ≡ some (record { value = value; version = version })
    pub decoded : json.decode value ≡ some current

  -- What the target is published as.
  abbrev pub published : ShardConfig → ℕ → Option VersionedValue
  published target version =
      some (record { value = json.encode target; version = next_version version })

  -- The world in which the configuration has been read.
  unfoldable pub read_world : World → World
  read_world w = record w {
    store = (clerk_get (record { key = config_key }) calls.reads w.store).0;
  }

  change_config_to-cases :
      (current target : ShardConfig) (version : ℕ) (w : World)
      → Stores w current version
      → IsLocked calls
      → current.num < target.num
      → (change_config_to locate json calls target w ≡ (read_world w, Ending.stuck))
        ⊎ (change_config_to locate json calls target w
            ≡ and_then
                (move_all locate calls current target (shards_from n_shards 0) (read_world w))
                (publish locate json calls target version))
  unfolding change_config_to get read_world
  change_config_to-cases current target version w s lock newer =
      let got = clerk_get (record { key = config_key }) calls.reads w.store in
      let key =
        clerk_get-key config_key (record { key = config_key }) calls.reads w.store lock.reads in
      elim (Option-cases got.1) [
        | inl silent ↦ inl (ground arith)
        | inr (reply, heard) ↦
            let answer =
              clerk_get-answer (record { key = config_key }) calls.reads w.store got.0 reply
                (ground arith) in
            inr (ground (arith, s.found, s.decoded))
      ]

  pub publish_groups :
      (target : ShardConfig) (version : ℕ) (w w' : World) (e : Ending)
      → publish locate json calls target version w ≡ (w', e)
      → w'.groups ≡ w.groups
  unfolding publish
  publish_groups target version w w' e h = ap (λ r. r.0.groups) (sym h)

  -- When a change to a newer configuration ends well, the new group of every shard that it moves owns
  -- the shard and answers for it, if the new group is another one than the old one. Calls may be lost
  -- or repeated; no one else writes the configuration, or makes a group stop serving that shard.
  pub change_config_to-Serves :
      (current target : ShardConfig) (version i d : ℕ) (w w' : World)
      → Stores w current version
      → IsLocked calls
      → IsQuiet calls i
      → current.num < target.num
      → change_config_to locate json calls target w ≡ (w', finished)
      → i < n_shards
      → current.shards i ≢ target.shards i
      → new_group locate calls current target i ≡ some d
      → old_group locate calls current target i ≢ some d
      → Serves (w'.groups d) i
  change_config_to-Serves current target version i d w w' s lock quiet newer e small moves found
        apart =
      elim (change_config_to-cases current target version w s lock newer) [
        | inl unread ↦ absurd (ground arith)
        | inr runs ↦
            let (u, moved, put) =
              and_then-finished
                (move_all locate calls current target (shards_from n_shards 0) (read_world w))
                (publish locate json calls target version) w' (sym runs ∙ e) in
            let serves =
              move_all-Serves locate calls current target n_shards 0 i d (read_world w) u quiet
                (omega arith) (omega arith) moves found apart moved in
            let same = publish_groups target version u w' finished put in
            subst (λ g. Serves (g d) i) (sym same) serves
      ]

  -- A shard whose new group no server stands for, as when the target leaves it unassigned, keeps a
  -- change to a newer configuration from ending well.
  pub change_config_to_nobody :
      (current target : ShardConfig) (version i : ℕ) (w w' : World)
      → Stores w current version
      → IsLocked calls
      → current.num < target.num
      → i < n_shards
      → current.shards i ≢ target.shards i
      → new_group locate calls current target i ≡ none
      → change_config_to locate json calls target w ≢ (w', finished)
  change_config_to_nobody current target version i w w' s lock newer small moves nobody e =
      elim (change_config_to-cases current target version w s lock newer) [
        | inl unread ↦ ground arith
        | inr runs ↦
            let (u, moved, _) =
              and_then-finished
                (move_all locate calls current target (shards_from n_shards 0) (read_world w))
                (publish locate json calls target version) w' (sym runs ∙ e) in
            move_all_nobody locate calls current target n_shards 0 i (read_world w) u (omega arith)
              (omega arith) moves nobody moved
      ]

  pub publish-Settles :
      (target : ShardConfig) (version : ℕ) (w : World)
      → IsLocked calls
      → let r = publish locate json calls target version w in
        ((Dict.get r.0.store config_key ≡ Dict.get w.store config_key)
          ⊎ (Dict.get r.0.store config_key ≡ published target version))
        × (r.1 ≡ finished → Dict.get r.0.store config_key ≡ published target version)
  unfolding publish
  publish-Settles target version w lock =
      let args : PutArgs = record {
        key = config_key;
        value = json.encode target;
        version = version;
      } in
      let (settled, answered) = clerk_put-Settles args calls.writes w.store lock.writes in
      (settled, λ e. answered (ending-finished (clerk_put args calls.writes w.store).1 e))

  change_config_to-Settles :
      (current target : ShardConfig) (version : ℕ) (w : World)
      → Stores w current version
      → IsLocked calls
      → current.num < target.num
      → let r = change_config_to locate json calls target w in
        ((Dict.get r.0.store config_key ≡ Dict.get w.store config_key)
          ⊎ (Dict.get r.0.store config_key ≡ published target version))
        × (r.1 ≡ finished → Dict.get r.0.store config_key ≡ published target version)
  change_config_to-Settles current target version w s lock newer =
      let v = read_world w in
      let read : Dict.get v.store config_key ≡ Dict.get w.store config_key =
        unfold read_world in
        clerk_get-key config_key (record { key = config_key }) calls.reads w.store lock.reads in
      let kept = move_all-store locate calls current target (shards_from n_shards 0) v in
      elim (change_config_to-cases current target version w s lock newer) [
        | inl unread ↦ rw unread (inl read, λ e. ground arith)
        | inr runs ↦
            elim (Ending-cases (move_all locate calls current target (shards_from n_shards 0) v)) [
              | inl (u, done) ↦
                  let (settled, answered) = publish-Settles target version u lock in
                  let same : Dict.get u.store config_key ≡ Dict.get w.store config_key =
                    ap (λ t. Dict.get t config_key) (sym (ap (λ r. r.0.store) done) ∙ kept)
                    ∙ read in
                  rw (runs, done)
                    (elim settled [ inl old ↦ inl (old ∙ same) | inr new ↦ inr new ], answered)
              | inr (cut, ended) ↦
                  rw (runs, ended (publish locate json calls target version))
                    (inl (ap (λ t. Dict.get t config_key) kept ∙ read), λ e. absurd (cut e))
            ]
      ]

  -- A change to a newer configuration ends well only if it has published the target, at the next
  -- version; otherwise the configuration reads as before, or as the target all the same. Calls may be
  -- lost or repeated; no one else writes the configuration.
  pub change_config_to_publishes :
      (current target : ShardConfig) (version : ℕ) (w w' : World) (e : Ending)
      → Stores w current version
      → IsLocked calls
      → current.num < target.num
      → change_config_to locate json calls target w ≡ (w', e)
      → ((e ≡ finished) × (Dict.get w'.store config_key ≡ published target version))
        ⊎ ((e ≢ finished)
            × ((Dict.get w'.store config_key ≡ Dict.get w.store config_key)
                ⊎ (Dict.get w'.store config_key ≡ published target version)))
  change_config_to_publishes current target version w w' e s lock newer h =
      let both = change_config_to-Settles current target version w s lock newer in
      let (settled, answered) = rw h at both in
      elim (Ending-cases (w', e)) [
        | inl (u, done) ↦ let well : e ≡ finished = ap (λ r. r.1) done in inl (well, answered well)
        | inr (cut, _) ↦ inr (cut, settled)
      ]
