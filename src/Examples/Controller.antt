-- ===== src/Examples/Controller.antt =====
-- internal/shardctrler at concrete inputs: two groups, of which the first has every shard.
use project_distributed_key.Base.{
  ℕ, ◌≡◌, ◌≢◌, ◌⊎◌, refl, Option, none, some, List, [], ◌∷◌, arith, if◌then◌else◌, nat_beq, length,
  update, subst,
}
use project_distributed_key.Base.Keys.{GoString, string_key, int_key, str, bytes_beq, ◌==◌}
use project_distributed_key.Dict
use project_distributed_key.Dict.{Dict}
use project_distributed_key.Gob.{Gob}
use project_distributed_key.Core.Shard.{ShardConfig}
use project_distributed_key.Kvsrv.Server as Kv
use project_distributed_key.Kvsrv.Clerk as Clerk
use project_distributed_key.Shardgrp.Clerk as GroupClerk
use project_distributed_key.Shardgrp.Server as Group
use project_distributed_key.Shardgrp.Server.Refinement.{Serves}
use project_distributed_key.Shardctrler
use project_distributed_key.Shardctrler.{
  World, Schedule, finished, change_config_to, init_config, first_config,
}
use project_distributed_key.Shardctrlrd.{startup, differ, some_group_differs, target_of}
use project_distributed_key.Shardctrlrd.Start.{start, carry_out}
use project_distributed_key.Shardctrlrd.Start.Done.{start-Serves}
use project_distributed_key.Shardctrler.RoundRobin as RoundRobin
use project_distributed_key.Shardctrler.Calls.{IsQuiet}
use project_distributed_key.Shardctrler.Init.{init_config-Serves}
use project_distributed_key.Shardctrler.Change.{
  IsLocked, Stores, config_key, published, change_config_to-Serves, change_config_to_nobody,
  change_config_to_publishes,
}

abbrev locate : List GoString → Option ℕ
locate [] = none
locate (server ∷ rest) = if server == str "a" then some 1 else some 2

-- Configuration 1 moves shard 0 to the second group, configuration 2 leaves it unassigned.
abbrev config : ℕ → ShardConfig
config n = record {
  num = n;
  shards =
      if nat_beq n 0
      then (λ i. 1)
      else if nat_beq n 1
      then (update (λ i. 1) 0 2)
      else update (λ i. 1) 0 0;
  groups = Dict.put (Dict.put Dict.make 1 (str "a" ∷ [])) 2 (str "b" ∷ []);
}

abbrev from_bytes : GoString → Option ShardConfig
from_bytes [] = none
from_bytes (n ∷ rest) = some (config n)

-- These configurations, by their numbers.
abbrev json : Gob GoString ShardConfig (λ a b. a.num ≡ b.num)
json = record {
  len = length;
  encode = λ c. c.num ∷ [];
  decode = from_bytes;
  encode_nonempty = λ c. omega arith;
  decode-encode = λ c. (config c.num, refl, refl);
}

-- The InstallShard of each shard is executed twice, since its first reply is lost.
abbrev calls : Schedule
calls = record {
  reads = record { others = []; late = 0; outcome = Clerk.answered } ∷ [];
  writes = record { others = []; late = 0; outcome = Clerk.answered } ∷ [];
  freezes = λ i. record { others = []; outcome = GroupClerk.answered } ∷ [];
  installs = λ i.
      record { others = []; outcome = GroupClerk.reply_lost }
      ∷ record { others = []; outcome = GroupClerk.answered }
      ∷ [];
  deletes = λ i. record { others = []; outcome = GroupClerk.answered } ∷ [];
}

calls-IsLocked : IsLocked calls
unfolding Kv.run
calls-IsLocked = record { reads = ((λ s. refl), tt); writes = ((λ s. refl), tt) }

no_one : (i : ℕ) (g g' : Group.ShardGroup) → Group.run g [] ≡ some g' → Serves g i → Serves g' i
unfolding Group.run
no_one i g g' e h = let same : g ≡ g' = ground arith in subst (λ s. Serves s i) same h

calls-IsQuiet : (i : ℕ) → IsQuiet calls i
calls-IsQuiet i = record {
  freezes = λ j. (no_one i, tt);
  installs = λ j. (no_one i, (no_one i, tt));
  deletes = λ j. (no_one i, tt);
}

unfoldable world : World
world = record {
  groups = Group.new;
  store = Dict.put Dict.make config_key (record { value = 0 ∷ []; version = 1 });
}

world-Stores : Stores locate json calls world (config 0) 1
unfolding world Dict.get Dict.put Dict.make bytes_beq
world-Stores = record { value = 0 ∷ []; found = refl; decoded = refl }

unfoldable changed : World
changed = (change_config_to locate json calls (config 1) world).0

changed_well : change_config_to locate json calls (config 1) world ≡ (changed, finished)
unfolding changed change_config_to world Clerk.clerk_get Clerk.clerk_put Clerk.put_loop
    Clerk.call_put Clerk.before_call Kv.get Kv.put Kv.run Dict.get Dict.put Dict.make Dict.copy
    bytes_beq Shardctrler.shards_from Shardctrler.install Shardctrler.publish
    GroupClerk.group_install GroupClerk.call_all GroupClerk.call Group.run Group.new
    Group.do_install Shardctrler.move_all Shardctrler.move_one Shardctrler.hand_over
    Shardctrler.after_freeze Shardctrler.delete GroupClerk.group_freeze GroupClerk.group_delete
    Group.do_freeze Group.do_delete
changed_well = refl

change_config_to-Serves_example : Serves (changed.groups 2) 0
unfolding Dict.get Dict.put bytes_beq
change_config_to-Serves_example =
    change_config_to-Serves locate json calls (config 0) (config 1) 1 0 2 world changed world-Stores
      calls-IsLocked (calls-IsQuiet 0) (omega arith) changed_well (omega arith) (λ e. omega arith)
      refl (λ e. ground arith)

change_config_to_publishes_example :
    ((finished ≡ finished)
      × (Dict.get changed.store config_key ≡ published locate json calls (config 1) 1))
    ⊎ ((finished ≢ finished)
        × ((Dict.get changed.store config_key ≡ Dict.get world.store config_key)
            ⊎ (Dict.get changed.store config_key ≡ published locate json calls (config 1) 1)))
change_config_to_publishes_example =
    change_config_to_publishes locate json calls (config 0) (config 1) 1 world changed finished
      world-Stores calls-IsLocked (omega arith) changed_well

change_config_to_nobody_example :
    change_config_to locate json calls (config 2) world ≢ (world, finished)
unfolding Dict.get Dict.put Dict.make
change_config_to_nobody_example =
    change_config_to_nobody locate json calls (config 0) (config 2) 1 0 world world world-Stores
      calls-IsLocked (omega arith) (omega arith) (λ e. omega arith) refl

-- No configuration yet.
unfoldable empty_world : World
empty_world = record { groups = Group.new; store = Kv.new }

abbrev both_groups : Dict ℕ (List GoString)
both_groups = Dict.put (Dict.put Dict.make 1 (str "a" ∷ [])) 2 (str "b" ∷ [])

unfoldable initialized : World
initialized = (init_config locate json calls both_groups empty_world).0

initialized_well : init_config locate json calls both_groups empty_world ≡ (initialized, finished)
unfolding initialized init_config empty_world Kv.new Clerk.clerk_get Clerk.clerk_put Clerk.put_loop
    Clerk.call_put Clerk.before_call Kv.get Kv.put Kv.run Dict.get Dict.put Dict.make Dict.copy
    bytes_beq Shardctrler.shards_from Shardctrler.install Shardctrler.publish
    GroupClerk.group_install GroupClerk.call_all GroupClerk.call Group.run Group.new
    Group.do_install Shardctrler.install_all Shardctrler.install_one first_config RoundRobin.assign
    RoundRobin.sort_ints RoundRobin.insert_sorted
initialized_well = refl

init_config-Serves_example :
    Serves (initialized.groups 2) 3
    × (Dict.get initialized.store config_key
        ≡ some (record { value = json.encode (first_config both_groups); version = 1 }))
unfolding empty_world Kv.new Dict.get Dict.put Dict.make first_config RoundRobin.assign
    RoundRobin.sort_ints RoundRobin.insert_sorted bytes_beq
init_config-Serves_example =
    init_config-Serves locate json calls both_groups empty_world initialized 3 2 refl calls-IsLocked
      (calls-IsQuiet 3) refl initialized_well (omega arith) (λ e. omega arith) refl

-- The flag of the command names a third group in place of the second one.
unfoldable flag_groups : Dict ℕ (List GoString)
flag_groups = Dict.put (Dict.put Dict.make 1 (str "a" ∷ [])) 3 (str "c" ∷ [])

unfoldable started : World
started = (start locate json calls calls flag_groups world).0

started_well : start locate json calls calls flag_groups world ≡ (started, finished)
unfolding started start carry_out startup differ some_group_differs target_of flag_groups
    Shardctrler.query change_config_to world Clerk.clerk_get Clerk.clerk_put Clerk.put_loop
    Clerk.call_put Clerk.before_call Kv.get Kv.put Kv.run Dict.get Dict.put Dict.make Dict.copy
    bytes_beq Shardctrler.shards_from Shardctrler.install Shardctrler.publish
    GroupClerk.group_install GroupClerk.call_all GroupClerk.call Group.run Group.new
    Group.do_install Shardctrler.move_all Shardctrler.move_one Shardctrler.hand_over
    Shardctrler.after_freeze Shardctrler.delete GroupClerk.group_freeze GroupClerk.group_delete
    Group.do_freeze Group.do_delete RoundRobin.assign RoundRobin.sort_ints RoundRobin.insert_sorted
started_well = refl

start-Serves_example :
    (Dict.get started.store config_key
      ≡ published locate json calls (target_of (config 0) flag_groups) 1)
    × Serves (started.groups 2) 1
unfolding flag_groups target_of differ some_group_differs Dict.get Dict.put Dict.make bytes_beq
    RoundRobin.assign RoundRobin.sort_ints RoundRobin.insert_sorted
start-Serves_example =
    start-Serves locate json calls calls world started (config 0) 1 flag_groups 1 2 world-Stores
      calls-IsLocked calls-IsLocked (calls-IsQuiet 1) refl started_well (omega arith)
      (λ e. omega arith) refl (λ e. ground arith)
