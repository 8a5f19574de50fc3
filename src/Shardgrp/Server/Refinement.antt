-- ===== src/Shardgrp/Server/Refinement.antt =====
-- internal/shardgrp/server.go against internal/kvsrv/server.go: on a shard that it serves, a group
-- answers as a KVServer that holds the shard's map.
use project_distributed_key.Base.{ℕ, ◌≡◌, refl, true, false, none, some, List, [], ◌∷◌, arith}
use project_distributed_key.Core.Kv.{PutArgs, GetArgs, Store}
use project_distributed_key.Core.Shard.{key2shard}
use project_distributed_key.Core.Command.{
  Payload, get_op, put_op, freeze_op, install_op, delete_op, Reply,
}
use project_distributed_key.Kvsrv.Server
use project_distributed_key.Kvsrv.Server.Snapshots.{replies}
use project_distributed_key.Shardgrp.Server.{ShardGroup, do_get, do_put, do_op, or_make, with_shard}

-- The group serves the shard.
pub record Serves (sg : ShardGroup) (shard : ℕ) : Type 0 where
  pub owned : sg.owned shard ≡ true
  pub thawed : sg.frozen shard ≡ false

abbrev pub shard_store : ShardGroup → ℕ → Store
shard_store sg i = or_make (sg.shards i)

pub do_get-get :
    (sg : ShardGroup) (a : GetArgs)
    → Serves sg (key2shard a.key)
    → do_get sg a ≡ (
      with_shard sg (key2shard a.key) (shard_store sg (key2shard a.key)),
      Server.get (shard_store sg (key2shard a.key)) a,
    )
unfolding do_get Server.get
do_get-get sg a h = ground arith

pub do_put-put :
    (sg : ShardGroup) (a : PutArgs)
    → Serves sg (key2shard a.key)
    → do_put sg a ≡ (
      with_shard sg (key2shard a.key) (Server.put (shard_store sg (key2shard a.key)) a).0,
      (Server.put (shard_store sg (key2shard a.key)) a).1,
    )
unfolding do_put Server.put
do_put-put sg a h = ground arith

-- The replies of a group to a sequence of operations, up to one that panics.
unfoldable pub group_replies : ShardGroup → List Payload → List Reply
group_replies sg [] = []
group_replies sg (p ∷ ps) = elim (do_op sg p) [
  | none ↦ []
  | some (sg', r) ↦ r ∷ group_replies sg' ps
]

-- A Get or a Put of a key of the shard.
abbrev IsRequest : ℕ → Payload → Type 0
IsRequest i (get_op a) = key2shard a.key ≡ i
IsRequest i (put_op a) = key2shard a.key ≡ i
IsRequest i _ = ⊥

abbrev pub AllRequests : ℕ → List Payload → Type 0
AllRequests i [] = Unit {0}
AllRequests i (p ∷ ps) = IsRequest i p × AllRequests i ps

Serves-with :
    (sg : ShardGroup) (i : ℕ) (m : Store)
    → Serves sg i
    → Serves (with_shard sg i m) i × (shard_store (with_shard sg i m) i ≡ m)
Serves-with sg i m h = (record { owned = h.owned; thawed = h.thawed }, ground arith)

-- While a group serves a shard, it answers any Gets and Puts of the shard's keys exactly as a
-- KVServer does that starts from the shard's map.
pub group_replies-replies :
    (i : ℕ) (sg : ShardGroup) (ps : List Payload)
    → Serves sg i
    → AllRequests i ps
    → group_replies sg ps ≡ replies (shard_store sg i) ps
unfolding group_replies replies do_op Server.do_op
group_replies-replies i sg [] h all = refl
group_replies-replies i sg (get_op a ∷ ps) h all =
    let m = shard_store sg i in
    let (kept, read) = Serves-with sg i m h in
    let later = group_replies-replies i (with_shard sg i m) ps kept all.1 in
    ground (arith, all.0, do_get-get sg a, later, read)
group_replies-replies i sg (put_op a ∷ ps) h all =
    let m = (Server.put (shard_store sg i) a).0 in
    let (kept, read) = Serves-with sg i m h in
    let later = group_replies-replies i (with_shard sg i m) ps kept all.1 in
    ground (arith, all.0, do_put-put sg a, later, read)
group_replies-replies i sg (freeze_op a ∷ ps) h all = absurd all.0
group_replies-replies i sg (install_op a ∷ ps) h all = absurd all.0
group_replies-replies i sg (delete_op a ∷ ps) h all = absurd all.0
