-- ===== src/Shardctrler/Moves.antt =====
-- internal/shardctrler/controller.go: what a change of the configuration that ends well has done.
use project_distributed_key.Base.{
  ℕ, zero, suc, ◌+◌, ◌≤◌, ◌<◌, ◌≡◌, ◌≢◌, refl, ap, subst, inl, inr, Option, none, some, List, [],
  ◌∷◌, nat_beq, nat_beq_iff, arith, Bool-cases,
}
use project_distributed_key.Base.Keys.{GoString}
use project_distributed_key.Core.Shard.{ShardConfig}
use project_distributed_key.Shardgrp.Server.Refinement.{Serves}
use project_distributed_key.Shardctrler.{
  World, Schedule, finished, servers_of, move_one, move_all, shards_from,
}
use project_distributed_key.Shardctrler.Calls.{
  and_then-finished, Keeps, IsQuiet, install-Keeps, install-finished, hand_over-Serves,
  hand_over-Keeps, and_then-Keeps,
}
use project_distributed_key.Shardctrler.Effects.{
  and_then-store, install-store, hand_over-store, hand_over_nobody, install_nobody,
}

module _ (locate : List GoString → Option ℕ) (calls : Schedule) (current target : ShardConfig) where
  abbrev pub old_group : ℕ → Option ℕ
  old_group i = locate (servers_of current (current.shards i))

  abbrev pub new_group : ℕ → Option ℕ
  new_group i = locate (servers_of target (target.shards i))

  move_one-Keeps :
      (shard i : ℕ) (w : World)
      → IsQuiet calls i
      → shard ≢ i
      → Keeps w (move_one locate calls current target shard w).0 i
  unfolding move_one
  move_one-Keeps shard i w quiet apart g h =
      let over =
        hand_over-Keeps locate calls (old_group shard) (new_group shard) shard target.num i w quiet
          apart g h in
      let given =
        install-Keeps w (new_group shard)
          (record { shard = shard; config_num = target.num; contents = none })
          (calls.installs shard) i (quiet.installs shard) g h in
      elim (Bool-cases (nat_beq (current.shards shard) (target.shards shard))) [
        | inl same ↦ rw same h
        | inr moves ↦ elim (Bool-cases (nat_beq (current.shards shard) 0)) [
          | inl unassigned ↦ rw (moves, unassigned) given
          | inr assigned ↦ rw (moves, assigned) over
        ]
      ]

  move_one-Serves :
      (shard d : ℕ) (w w' : World)
      → current.shards shard ≢ target.shards shard
      → new_group shard ≡ some d
      → old_group shard ≢ some d
      → move_one locate calls current target shard w ≡ (w', finished)
      → Serves (w'.groups d) shard
  unfolding move_one
  move_one-Serves shard d w w' moves found apart e =
      elim (Bool-cases (nat_beq (current.shards shard) 0)) [
        | inl unassigned ↦
            install-finished w w' d
              (record { shard = shard; config_num = target.num; contents = none })
              (calls.installs shard) (rw⁻¹ found (ground arith))
        | inr assigned ↦
            hand_over-Serves locate calls (old_group shard) d shard target.num w w' apart
              (rw⁻¹ found (ground arith))
      ]

  move_all-Keeps :
      (k first i : ℕ) (w : World)
      → IsQuiet calls i
      → i < first
      → Keeps w (move_all locate calls current target (shards_from k first) w).0 i
  unfolding move_all shards_from
  move_all-Keeps zero first i w quiet past = λ g h. h
  move_all-Keeps (suc k) first i w quiet past =
      and_then-Keeps w (move_one locate calls current target first w)
        (move_all locate calls current target (shards_from k (first + 1))) i
        (move_one-Keeps first i w quiet (λ e. absurd (omega arith)))
        (λ u. move_all-Keeps k (first + 1) i u quiet (omega arith))

  pub move_all-Serves :
      (k first i d : ℕ) (w w' : World)
      → IsQuiet calls i
      → first ≤ i
      → i < first + k
      → current.shards i ≢ target.shards i
      → new_group i ≡ some d
      → old_group i ≢ some d
      → move_all locate calls current target (shards_from k first) w ≡ (w', finished)
      → Serves (w'.groups d) i
  unfolding move_all shards_from
  move_all-Serves zero first i d w w' quiet low high moves found apart e = absurd (omega arith)
  move_all-Serves (suc k) first i d w w' quiet low high moves found apart e =
      let (u, one, rest) = and_then-finished _ _ w' e in
      elim (Bool-cases (nat_beq first i)) [
        | inl this ↦
            let same : first ≡ i = (nat_beq_iff first i).0 this in
            let one' : move_one locate calls current target i w ≡ (u, finished) =
              subst (λ j. move_one locate calls current target j w ≡ (u, finished)) same one in
            let serves = move_one-Serves i d w u moves found apart one' in
            let end : (move_all locate calls current target (shards_from k (first + 1)) u).0 ≡ w' =
              ap (λ r. r.0) rest in
            subst (λ v. Serves (v.groups d) i) end
              (move_all-Keeps k (first + 1) i u quiet (omega arith) d serves)
        | inr later ↦
            move_all-Serves k (first + 1) i d u w' quiet (ground arith) (omega arith) moves found
              apart rest
      ]

  move_one-store :
      (i : ℕ) (w : World) → (move_one locate calls current target i w).0.store ≡ w.store
  unfolding move_one
  move_one-store i w =
      let over = hand_over-store locate calls (old_group i) i target.num (new_group i) w in
      let given =
        install-store w (new_group i)
          (record { shard = i; config_num = target.num; contents = none }) (calls.installs i) in
      ground (arith, over, given)

  -- No call reaches the metadata server.
  pub move_all-store :
      (js : List ℕ) (w : World) → (move_all locate calls current target js w).0.store ≡ w.store
  unfolding move_all
  move_all-store [] w = refl
  move_all-store (j ∷ js) w =
      and_then-store w (move_one locate calls current target j w)
        (move_all locate calls current target js) (move_one-store j w) (move_all-store js)

  move_one_nobody :
      (i : ℕ) (w w' : World)
      → current.shards i ≢ target.shards i
      → new_group i ≡ none
      → move_one locate calls current target i w ≢ (w', finished)
  unfolding move_one
  move_one_nobody i w w' moves nobody e =
      let over = hand_over_nobody locate calls (old_group i) i target.num w w' in
      let given =
        install_nobody w w' (record { shard = i; config_num = target.num; contents = none })
          (calls.installs i) in
      elim (Bool-cases (nat_beq (current.shards i) 0)) [
        | inl unassigned ↦ given (rw⁻¹ nobody (ground arith))
        | inr assigned ↦ over (rw⁻¹ nobody (ground arith))
      ]

  pub move_all_nobody :
      (k first i : ℕ) (w w' : World)
      → first ≤ i
      → i < first + k
      → current.shards i ≢ target.shards i
      → new_group i ≡ none
      → move_all locate calls current target (shards_from k first) w ≢ (w', finished)
  unfolding move_all shards_from
  move_all_nobody zero first i w w' low high moves nobody e = absurd (omega arith)
  move_all_nobody (suc k) first i w w' low high moves nobody e =
      let (u, one, rest) = and_then-finished _ _ w' e in
      elim (Bool-cases (nat_beq first i)) [
        | inl this ↦
            let same : first ≡ i = (nat_beq_iff first i).0 this in
            move_one_nobody i w u moves nobody
              (subst (λ j. move_one locate calls current target j w ≡ (u, finished)) same one)
        | inr later ↦
            move_all_nobody k (first + 1) i u w' (ground arith) (omega arith) moves nobody rest
      ]
