-- ===== src/Shardctrler/RoundRobin.antt =====
-- internal/shardctrler/controller.go, InitConfig, and cmd/shardctrlrd/main.go: the assignment of the
-- shards to the groups of a map, in turn.
pub mod Balance
use project_distributed_key.Base.{
  ℕ, ◌%◌, Option, none, some, List, [], ◌∷◌, if◌then◌else◌, leb, length, get_elem?,
}
use project_distributed_key.Base.Keys.{GoString}

abbrev pub keys : List (ℕ × List GoString) → List ℕ
keys [] = []
keys ((gid, servers) ∷ rest) = gid ∷ keys rest

-- sort.Ints
unfoldable pub insert_sorted : ℕ → List ℕ → List ℕ
insert_sorted n [] = n ∷ []
insert_sorted n (m ∷ ms) = if leb n m then n ∷ m ∷ ms else m ∷ insert_sorted n ms

unfoldable pub sort_ints : List ℕ → List ℕ
sort_ints [] = []
sort_ints (n ∷ ns) = insert_sorted n (sort_ints ns)

-- The gids of the map, sorted; shard i goes to the one at i%len(gids), and to 0 if there is none.
unfoldable pub assign : List ℕ → ℕ → ℕ
assign [] i = 0
assign (gid ∷ gids) i = elim (get_elem? (gid ∷ gids) (i % length (gid ∷ gids))) [
  | none ↦ 0
  | some g ↦ g
]
