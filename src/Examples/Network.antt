-- ===== src/Examples/Network.antt =====
-- internal/transport at concrete inputs.
use project_distributed_key.Base.{
  ℕ, ◌≡◌, refl, Bool, true, false, not, ◌&&◌, none, some, List, [], ◌∷◌, ◌++◌, if◌then◌else◌,
}
use project_distributed_key.Base.Keys.{GoString, string_key, str, ◌==◌, bytes_beq}
use project_distributed_key.Base.Text.{decimal}
use project_distributed_key.Dict
use project_distributed_key.Core.Kv.{PutArgs}
use project_distributed_key.Kvsrv.Server.{put, new}
use project_distributed_key.Kvsrv.Clerk.{call_put}
use project_distributed_key.Transport.Local.{
  LocalNetwork, Args, vote_args, call, partition, heal, register, new_local_network,
  get_caller_addr, sender,
}
use project_distributed_key.Transport.Local.Partitions.{is_pair, partition_isolates}
use project_distributed_key.Transport.Env.{EnvFile, missing, lines, translate_addr}
use project_distributed_key.Transport.Pool as Pool
use project_distributed_key.Transport.Pool.{Link}
use project_distributed_key.Transport.Pool.Outcomes.{outcome_of, call-Agrees}

-- Three peers, n0 to n2.
unfoldable net : LocalNetwork ℕ
net =
    register
      (register (register new_local_network (str "n0") (str "Raft") 0) (str "n1") (str "Raft") 1)
      (str "n2") (str "Raft") 2

abbrev any_method : ℕ → GoString → Bool
any_method peer name = true

abbrev from_two : Args
from_two = vote_args (record { term = 1; candidate_id = 2; last_log_index = 0; last_log_term = 0 })

partition_isolates_example :
    let p = str "n" ++ decimal 2 in
    let q = str "n" ++ decimal 0 in
    (call any_method false (partition net p q) q (str "Raft.RequestVote") from_two ≡ none)
    × (call any_method false (partition net q p) q (str "Raft.RequestVote") from_two ≡ none)
    × ((peer : GoString)
        → call any_method false (partition net p q) peer (str "Raft.RequestVote") from_two ≡ (
            if not (get_caller_addr peer from_two == [])
              && is_pair p q (get_caller_addr peer from_two) peer
            then none
            else call any_method false net peer (str "Raft.RequestVote") from_two))
    × ((peer : GoString)
        → call any_method false
            (heal (partition net p q) p q)
            peer
            (str "Raft.RequestVote")
            from_two
          ≡ call any_method false (heal net p q) peer (str "Raft.RequestVote") from_two)
unfolding sender bytes_beq
partition_isolates_example =
    partition_isolates any_method false net [] b'n' 2 0 (str "Raft.RequestVote") from_two refl refl

abbrev write : PutArgs
write = record { key = str "a"; value = str "x"; version = 0 }

abbrev link : Link
link = record { dial = λ addr. some 1; exchange = Pool.answer_lost }

abbrev no_env : GoString → GoString
no_env key = []

abbrev dirs : List EnvFile
dirs = missing ∷ lines (str "# addresses" ∷ [] ∷ str " MAP_n0 = 10.0.0.1:9000 " ∷ []) ∷ []

mapped_addr : translate_addr no_env dirs (str "n0") ≡ str "10.0.0.1:9000"
unfolding translate_addr Dict.get Dict.put Dict.make bytes_beq
mapped_addr = refl

unmapped_addr : translate_addr no_env dirs (str "n1") ≡ str "n1"
unfolding translate_addr Dict.get Dict.put Dict.make bytes_beq
unmapped_addr = refl

call-Agrees_example :
    let called =
      Pool.call
        (λ t. put t write)
        (translate_addr no_env dirs)
        Pool.new_grpc_network
        (str "kv")
        link
        link
        new in
    (called.1
      ≡ (call_put
          (outcome_of (translate_addr no_env dirs) Pool.new_grpc_network (str "kv") link link)
          new
          write).0)
    × (called.2
        ≡ (call_put
            (outcome_of (translate_addr no_env dirs) Pool.new_grpc_network (str "kv") link link)
            new
            write).1)
call-Agrees_example =
    call-Agrees (translate_addr no_env dirs) write Pool.new_grpc_network (str "kv") link link new
