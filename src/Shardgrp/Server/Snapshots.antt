-- ===== src/Shardgrp/Server/Snapshots.antt =====
-- internal/shardgrp/server.go: what Snapshot saves and Restore brings back.
use project_distributed_key.Base.{ℕ, ◌≡◌, sym, some, List, arith, ◌∙◌}
use project_distributed_key.Gob.{Gob}
use project_distributed_key.Core.Command.{Payload}
use project_distributed_key.Kvsrv.Server.Snapshots.{replies-SameStore}
use project_distributed_key.Shardgrp.Server.{
  ShardGroup, ShardGroupSnapshot, SameSnapshot, snapshot, restore,
}
use project_distributed_key.Shardgrp.Server.Refinement.{
  Serves, group_replies, AllRequests, group_replies-replies,
}

module _ {B : Type 0} (gob : Gob B ShardGroupSnapshot SameSnapshot) where
  -- Restoring a snapshot, over whatever the group held, exists, and brings back who owns each
  -- shard, what is frozen and each configuration number; and for each shard that the group served
  -- when it took the snapshot, the replies to every sequence of the shard's requests.
  pub group_replies-restore :
      (sg other : ShardGroup)
      → (sg' : ShardGroup) × (restore gob other (snapshot gob sg) ≡ some sg')
        × ((i : ℕ) → sg'.owned i ≡ sg.owned i)
        × ((i : ℕ) → sg'.frozen i ≡ sg.frozen i)
        × ((i : ℕ) → sg'.config_nums i ≡ sg.config_nums i)
        × ((i : ℕ) (ps : List Payload)
            → Serves sg i
            → AllRequests i ps
            → group_replies sg' ps ≡ group_replies sg ps)
  unfolding restore snapshot
  group_replies-restore sg other =
      let saved : ShardGroupSnapshot = record {
        shards = sg.shards;
        owned = sg.owned;
        frozen = sg.frozen;
        config_nums = sg.config_nums;
      } in
      let (s, decoded, same) = gob.decode-encode saved in
      let sg' : ShardGroup = record {
        gid = other.gid;
        shards = s.shards;
        owned = s.owned;
        frozen = s.frozen;
        config_nums = s.config_nums;
      } in
      (
        sg',
        ground (arith, decoded, gob.encode_nonempty saved),
        same.owned,
        same.frozen,
        same.config_nums,
        λ i ps h all.
            let h' : Serves sg' i = record {
              owned = same.owned i ∙ h.owned;
              thawed = same.frozen i ∙ h.thawed;
            } in
            group_replies-replies i sg' ps h' all
            ∙ replies-SameStore _ _ ps (same.shards i)
            ∙ sym (group_replies-replies i sg ps h all),
      )
