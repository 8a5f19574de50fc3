-- ===== src/Shardkv/Routing.antt =====
-- internal/shardkv/client.go: where and when an answer comes from, and which answers there are.
use project_distributed_key.Base.{
  ℕ, ◌≡◌, ◌≢◌, refl, sym, subst, ◌∙◌, ap, ◌⊎◌, false, inl, inr, Option, some, List, [], ◌∷◌,
  nat_beq, arith, update, Option-cases, Bool-cases,
}
use project_distributed_key.Base.Keys.{GoString}
use project_distributed_key.Core.Kv.{Err, PutArgs, GetArgs, GetReply}
use project_distributed_key.Core.Shard.{ShardConfig, key2shard}
use project_distributed_key.Shardgrp.Server.{ShardGroup, do_get}
use project_distributed_key.Shardgrp.Server.Refinement.{Serves}
use project_distributed_key.Shardgrp.Clerk.{group_get, group_put}
use project_distributed_key.Shardgrp.Clerk.Answers.{Met, group_get-Met, do_get-Serves}
use project_distributed_key.Shardctrler.{servers_of}
use project_distributed_key.Shardkv.{Round, refresh, final_get, final_put, get, put}

-- A moment of the run of a Get at which a group's answer is the last: the group that the client's
-- configuration of that round names for the key's shard, as an attempt of the round meets it. The
-- rounds before were idle, or ended with an answer that is not final. The initial `groups` change
-- only by what the schedule says.
abbrev pub Moment :
    (List GoString → Option ℕ)
    → GetArgs
    → List Round
    → ShardConfig
    → (ℕ → ShardGroup)
    → ShardGroup
    → Type 0
Moment locate args [] config groups now = ⊥
Moment locate args (round ∷ rounds) config groups now =
    let gid = config.shards (key2shard args.key) in
    ((gid ≡ 0) × Moment locate args rounds (refresh round config) groups now)
    ⊎ ((gid ≢ 0)
        × (g : ℕ) × (locate (servers_of config gid) ≡ some g)
        × (met : ShardGroup) × Met (λ sg. do_get sg args) round.attempts (groups g) met
        × ((now ≡ met)
            ⊎ ((final_get (do_get met args).1.err ≡ false)
                × Moment locate args rounds (refresh round config)
                    (update groups g (do_get met args).0) now)))

-- A Get that returns was answered by the group that the client's configuration named for the key's
-- shard, in one of its rounds and at one of the attempts of that round, whatever came before. That
-- group served the shard at that moment, however stale the configuration, and the answer is what
-- its state machine says of the key.
pub get-Serves :
    (locate : List GoString → Option ℕ) (args : GetArgs) (rounds : List Round)
    (config : ShardConfig) (groups groups' : ℕ → ShardGroup) (reply : GetReply)
    → get locate args rounds config groups ≡ (groups', some reply)
    → (now : ShardGroup) × Moment locate args rounds config groups now
      × Serves now (key2shard args.key)
      × (reply ≡ (do_get now args).1)
unfolding get
get-Serves locate args [] config groups groups' reply e = absurd (ground arith)
get-Serves locate args (round ∷ rounds) config groups groups' reply e =
    let gid = config.shards (key2shard args.key) in
    elim (Bool-cases (nat_beq gid 0)) [
      | inl unassigned ↦
          let (now, moment, serves, answer) =
            get-Serves locate args rounds (refresh round config) groups groups' reply
              (ground arith) in
          (now, inl (ground arith, moment), serves, answer)
      | inr assigned ↦ elim (Option-cases (locate (servers_of config gid))) [
        | inl nobody ↦ absurd (ground arith)
        | inr (g, found) ↦
            let called = group_get args round.attempts (groups g) in
            let given : gid ≢ 0 = ground arith in
            elim (Option-cases called.1) [
              | inl waiting ↦ absurd (ground arith)
              | inr (r, got) ↦
                  let (met, attempt, left, said) =
                    group_get-Met args round.attempts (groups g) called.0 r
                      (ap (λ o. (called.0, o)) got) in
                  let err : r.err ≡ (do_get met args).1.err = ap (λ (x : GetReply). x.err) said in
                  elim (Bool-cases (final_get r.err)) [
                    | inl final ↦
                        let same : r ≡ reply = ground arith in
                        (
                          met,
                          inr (given, g, found, met, attempt, inl refl),
                          do_get-Serves met args (ground arith),
                          sym same ∙ said,
                        )
                    | inr retry ↦
                        let (now, moment, serves, answer) =
                          get-Serves locate args rounds (refresh round config)
                            (update groups g called.0) groups' reply (ground arith) in
                        let on =
                          subst
                            (λ sg.
                              Moment locate args rounds (refresh round config) (update groups g sg)
                                now)
                            left moment in
                        let again : final_get (do_get met args).1.err ≡ false =
                          ap final_get (sym err) ∙ retry in
                        (now, inr (given, g, found, met, attempt, inr (again, on)), serves, answer)
                  ]
            ]
      ]
    ]

-- A Put that returns says OK, ErrVersion or ErrNoKey. It never says that its outcome is in doubt.
pub put_never_maybe :
    (locate : List GoString → Option ℕ) (args : PutArgs) (rounds : List Round)
    (config : ShardConfig) (groups groups' : ℕ → ShardGroup) (e : Err)
    → put locate args rounds config groups ≡ (groups', some e)
    → (e ≡ Err.ok) ⊎ (e ≡ Err.err_version) ⊎ (e ≡ Err.err_no_key)
unfolding put
put_never_maybe locate args [] config groups groups' e h = absurd (ground arith)
put_never_maybe locate args (round ∷ rounds) config groups groups' e h =
    let gid = config.shards (key2shard args.key) in
    elim (Bool-cases (nat_beq gid 0)) [
      | inl unassigned ↦
          put_never_maybe locate args rounds (refresh round config) groups groups' e (ground arith)
      | inr assigned ↦ elim (Option-cases (locate (servers_of config gid))) [
        | inl nobody ↦ absurd (ground arith)
        | inr (g, found) ↦
            let called = group_put args round.attempts (groups g) in
            elim (Option-cases called.1) [
              | inl waiting ↦ absurd (ground arith)
              | inr (r, got) ↦ elim (Bool-cases (final_put r.err)) [
                | inl final ↦ let same : r.err ≡ e = ground arith in ground arith
                | inr retry ↦
                    put_never_maybe locate args rounds (refresh round config)
                      (update groups g called.0) groups' e (ground arith)
              ]
            ]
      ]
    ]
