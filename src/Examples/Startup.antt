-- ===== src/Examples/Startup.antt =====
-- cmd/shardctrlrd at concrete inputs.
use project_distributed_key.Base.{
  ℕ, ◌+◌, ◌≤◌, ◌≡◌, ◌↔◌, refl, inl, inr, false, some, List, [], ◌∷◌, map, arith,
}
use project_distributed_key.Base.Keys.{GoString, int_key, str}
use project_distributed_key.Base.Text.{join, all_bytes}
use project_distributed_key.Dict
use project_distributed_key.Dict.{Dict}
use project_distributed_key.Core.Shard.{n_shards, ShardConfig}
use project_distributed_key.Shardctrler.RoundRobin.{keys}
use project_distributed_key.Shardctrler.RoundRobin.Balance.{Has, shards_of}
use project_distributed_key.Shardctrlrd.{parse_groups, differ, startup, target_of}
use project_distributed_key.Shardctrlrd.Flags.{Group, group_text, put_groups, parse_groups-join}
use project_distributed_key.Shardctrlrd.Changes.{differ_iff, startup_even}

abbrev first_group : Group
first_group = record { gid = 101; server = str "g1-0:9001"; others = str "g1-1:9001" ∷ [] }

abbrev second_group : Group
second_group = record { gid = 102; server = str "g2-0:9002"; others = [] }

parse_groups-join_example :
    parse_groups (join b';' (group_text first_group) (map group_text (second_group ∷ [])))
    ≡ some (put_groups (first_group ∷ second_group ∷ []) Dict.make)
unfolding all_bytes
parse_groups-join_example = parse_groups-join first_group (second_group ∷ []) (
  record { gid_fits = omega arith; server_plain = refl; others_plain = (refl, tt) },
  (record { gid_fits = omega arith; server_plain = refl; others_plain = tt }, tt),
)

unfoldable one_group : Dict ℕ (List GoString)
one_group = Dict.put Dict.make 101 (str "g1-0:9001" ∷ [])

unfoldable two_groups : Dict ℕ (List GoString)
two_groups = Dict.put one_group 102 (str "g2-0:9002" ∷ [])

differ_iff_example :
    (differ one_group two_groups ≡ false)
    ↔ ((gid : ℕ) → Dict.get one_group gid ≡ Dict.get two_groups gid)
unfolding one_group two_groups Dict.put Dict.make
differ_iff_example =
    differ_iff one_group two_groups ((λ h. h), tt)
      ((λ h. elim h [ inl e ↦ absurd (omega arith) | inr t ↦ t ]), ((λ h. h), tt))

abbrev config : ShardConfig
config = record { num = 4; shards = λ i. 101; groups = one_group }

startup_even_example :
    let target = target_of config two_groups in
    (target.num ≡ 5)
    × (target.groups ≡ two_groups)
    × ((i : ℕ) → Has (target.shards i) (keys two_groups.entries))
    × (shards_of target.shards 101 n_shards ≤ shards_of target.shards 102 n_shards + 1)
unfolding one_group two_groups Dict.put Dict.make startup differ
startup_even_example =
    startup_even config (target_of config two_groups) two_groups 101 102
      ((λ h. elim h [ inl e ↦ absurd (omega arith) | inr t ↦ t ]), ((λ h. h), tt)) (inr (inl refl))
      (inl refl) refl
