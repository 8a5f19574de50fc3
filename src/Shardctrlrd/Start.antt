-- ===== src/Shardctrlrd/Start.antt =====
-- cmd/shardctrlrd/main.go: the start of the command, over the controller's Query, InitConfig and
-- ChangeConfigTo.
pub mod Done
use project_distributed_key.Base.{ℕ, Option, none, some, List}
use project_distributed_key.Base.Keys.{GoString}
use project_distributed_key.Dict.{Dict}
use project_distributed_key.Gob.{Gob}
use project_distributed_key.Core.Shard.{ShardConfig}
use project_distributed_key.Shardctrler.{
  World, Schedule, Ending, finished, failed, stuck, Queried, no_config, query_error, stored_config,
  query, init_config, change_config_to,
}
use project_distributed_key.Shardctrlrd.{Startup, init, change_to, up_to_date, startup}

module _ (locate : List GoString → Option ℕ) {Same : ShardConfig → ShardConfig → Type 0}
    (json : Gob GoString ShardConfig Same) (calls : Schedule) where
  unfoldable pub carry_out : Startup → Dict ℕ (List GoString) → World → World × Ending
  carry_out init groups w = init_config locate json calls groups w
  carry_out (change_to target) groups w = change_config_to locate json calls target w
  carry_out up_to_date groups w = (w, finished)

  -- `failed` is log.Fatalf. `queries` are the calls of Query.
  unfoldable pub start : Schedule → Dict ℕ (List GoString) → World → World × Ending
  start queries groups w =
      let (store, asked) = query locate json queries w.store in
      let w' = record w { store = store } in
      elim asked [
        | none ↦ (w', stuck)
        | some q ↦ elim q [
          | query_error ↦ (w', failed)
          | no_config ↦ carry_out (startup none groups) groups w'
          | stored_config current ↦ carry_out (startup (some current) groups) groups w'
        ]
      ]
