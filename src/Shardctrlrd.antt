-- ===== src/Shardctrlrd.antt =====
-- cmd/shardctrlrd/main.go: the flag of the groups, the test for a change of the groups, and the
-- assignment of the shards that the command asks the controller for.
pub mod Flags
pub mod Entries
pub mod Changes
pub mod Start
use project_distributed_key.Base.{
  ℕ, zero, suc, ◌+◌, ◌%◌, ◌≡◌, Bool, true, false, not, ◌&&◌, ◌||◌, Option, none, some, List, [],
  ◌∷◌, if◌then◌else◌, nat_beq, leb, length, get_elem?,
}
use project_distributed_key.Base.Keys.{GoString, string_key, int_key, ◌==◌, str}
use project_distributed_key.Base.Options.{◌>>=◌}
use project_distributed_key.Base.Text.{split}
use project_distributed_key.Base.Int.{ℤ, signed_key, atoi}
use project_distributed_key.Dict
use project_distributed_key.Dict.{Dict}
use project_distributed_key.Core.Shard.{ShardConfig}
use project_distributed_key.Shardctrler.RoundRobin.{keys, sort_ints, assign}

abbrev two_parts : List GoString → Option (GoString × GoString)
two_parts (a ∷ b ∷ []) = some (a, b)
two_parts _ = none

-- The loop of parseGroups over the parts.
unfoldable pub parse_parts :
    List GoString → Dict ℤ (List GoString) → Option (Dict ℤ (List GoString))
parse_parts [] groups = some groups
parse_parts (part ∷ parts) groups =
    let skipped = parse_parts parts groups in
    if part == []
    then skipped
    else (two_parts (split b'=' part) >>= λ sub.
        atoi sub.0 >>= λ gid. parse_parts parts (Dict.put groups gid (split b',' sub.1)))

-- parseGroups; `none` is an error.
unfoldable pub parse_groups : GoString → Option (Dict ℤ (List GoString))
parse_groups s = if s == [] then some Dict.make else parse_parts (split b';' s) Dict.make

-- if servers[i] != currServers[i] for some i, for lists of one length
unfoldable pub servers_differ : List GoString → List GoString → Bool
servers_differ [] servers' = false
servers_differ (s ∷ ss) [] = true
servers_differ (s ∷ ss) (t ∷ ts) = not (s == t) || servers_differ ss ts

-- One round of the comparison.
abbrev group_differs : Option (List GoString) → List GoString → Bool
group_differs none servers = true
group_differs (some current) servers =
    not (nat_beq (length current) (length servers)) || servers_differ servers current

unfoldable pub some_group_differs : Dict ℕ (List GoString) → List (ℕ × List GoString) → Bool
some_group_differs current [] = false
some_group_differs current ((gid, servers) ∷ rest) =
    group_differs (Dict.get current gid) servers || some_group_differs current rest

-- `differ`; the length of a map is the number of its entries.
unfoldable pub differ : Dict ℕ (List GoString) → Dict ℕ (List GoString) → Bool
differ current groups =
    not (nat_beq (length current.entries) (length groups.entries))
    || some_group_differs current groups.entries

unfoldable pub target_of : ShardConfig → Dict ℕ (List GoString) → ShardConfig
target_of current groups = record {
  num = current.num + 1;
  shards = assign (sort_ints (keys groups.entries));
  groups = groups;
}

-- What the command does at its start with what Query has returned: InitConfig, ChangeConfigTo, or
-- nothing. `none` is the configuration with the number -1.
pub data Startup : Type 0 where
  init : Startup
  change_to : ShardConfig → Startup
  up_to_date : Startup

unfoldable pub startup : Option ShardConfig → Dict ℕ (List GoString) → Startup
startup none groups = Startup.init
startup (some current) groups =
    if differ current.groups groups then change_to (target_of current groups) else up_to_date
