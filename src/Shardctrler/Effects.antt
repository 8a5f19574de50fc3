-- ===== src/Shardctrler/Effects.antt =====
-- internal/shardctrler/controller.go: what its calls never do.
use project_distributed_key.Base.{
  ℕ, ◌≡◌, ◌≢◌, refl, ◌∙◌, inl, inr, Option, none, some, List, arith, Bool-cases,
}
use project_distributed_key.Base.Keys.{GoString}
use project_distributed_key.Core.Shard.{InstallShardArgs, DeleteShardArgs, FreezeShardReply}
use project_distributed_key.Shardgrp.Server.{ShardGroup}
use project_distributed_key.Shardgrp.Clerk.{Attempt, group_freeze, group_install, group_delete}
use project_distributed_key.Shardctrler.{
  World, Schedule, Ending, finished, failed, stuck, call, is_ok, install, delete, and_then,
  after_freeze, hand_over,
}
use project_distributed_key.Shardctrler.Calls.{and_then-finished}

-- What no call touches: the metadata server.
call-store :
    {R : Type 0} (w : World) (g : Option ℕ) (f : ShardGroup → ShardGroup × Option R)
    → (call w g f).0.store ≡ w.store
call-store w none f = refl
call-store w (some g) f = refl

pub and_then-store :
    (w : World) (r : World × Ending) (f : World → World × Ending)
    → r.0.store ≡ w.store
    → ((u : World) → (f u).0.store ≡ u.store)
    → (and_then r f).0.store ≡ w.store
and_then-store w (u, finished) f first later = later u ∙ first
and_then-store w (u, failed) f first later = first
and_then-store w (u, stuck) f first later = first

pub install-store :
    (w : World) (g : Option ℕ) (args : InstallShardArgs) (ts : List Attempt)
    → (install w g args ts).0.store ≡ w.store
unfolding install
install-store w g args ts = call-store w g (group_install args ts)

delete-store :
    (w : World) (g : Option ℕ) (args : DeleteShardArgs) (ts : List Attempt)
    → (delete w g args ts).0.store ≡ w.store
unfolding delete
delete-store w g args ts = call-store w g (group_delete args ts)

pub install_nobody :
    (w w' : World) (args : InstallShardArgs) (ts : List Attempt)
    → install w none args ts ≢ (w', finished)
unfolding install
install_nobody w w' args ts e = ground arith

module _ (locate : List GoString → Option ℕ) (calls : Schedule) (src : Option ℕ)
    (shard num : ℕ) where
  after_freeze-store :
      (dst : Option ℕ) (w : World) (frozen : Option FreezeShardReply)
      → (after_freeze locate calls src dst shard num w frozen).0.store ≡ w.store
  unfolding after_freeze
  after_freeze-store dst w none = refl
  after_freeze-store dst w (some reply) =
      let args : InstallShardArgs = record {
        shard = shard;
        config_num = num;
        contents = reply.contents;
      } in
      let deleting : DeleteShardArgs = record { shard = shard; config_num = num } in
      elim (Bool-cases (is_ok reply.err)) [
        | inl ok ↦ rw ok (
            and_then-store w (install w dst args (calls.installs shard))
              (λ v. delete v src deleting (calls.deletes shard))
              (install-store w dst args (calls.installs shard))
              (λ u. delete-store u src deleting (calls.deletes shard)))
        | inr bad ↦ rw bad refl
      ]

  pub hand_over-store :
      (dst : Option ℕ) (w : World) → (hand_over locate calls src dst shard num w).0.store ≡ w.store
  unfolding hand_over
  hand_over-store dst w =
      let freeze =
        group_freeze (record { shard = shard; config_num = num }) (calls.freezes shard) in
      let frozen = call w src freeze in
      after_freeze-store dst frozen.0 frozen.1 ∙ call-store w src freeze

  after_freeze_nobody :
      (w w' : World) (frozen : Option FreezeShardReply)
      → after_freeze locate calls src none shard num w frozen ≢ (w', finished)
  unfolding after_freeze
  after_freeze_nobody w w' none e = ground arith
  after_freeze_nobody w w' (some reply) e =
      let args : InstallShardArgs = record {
        shard = shard;
        config_num = num;
        contents = reply.contents;
      } in
      let deleting : DeleteShardArgs = record { shard = shard; config_num = num } in
      elim (Bool-cases (is_ok reply.err)) [
        | inl ok ↦
            let (u, installed, _) =
              and_then-finished (install w none args (calls.installs shard))
                (λ v. delete v src deleting (calls.deletes shard)) w' (rw ok at e) in
            install_nobody w u args (calls.installs shard) installed
        | inr bad ↦ ground arith
      ]

  pub hand_over_nobody :
      (w w' : World) → hand_over locate calls src none shard num w ≢ (w', finished)
  unfolding hand_over
  hand_over_nobody w w' e =
      let freeze =
        group_freeze (record { shard = shard; config_num = num }) (calls.freezes shard) in
      let frozen = call w src freeze in after_freeze_nobody frozen.0 w' frozen.1 e
