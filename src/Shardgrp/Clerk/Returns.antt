-- ===== src/Shardgrp/Clerk/Returns.antt =====
-- internal/shardgrp/client.go: when the loops of a clerk end.
use project_distributed_key.Base.{
  ◌<◌, ◌≡◌, refl, ◌⊎◌, inl, inr, false, some, List, [], ◌∷◌, arith, Option-cases, Bool-cases,
  lt→ltb,
}
use project_distributed_key.Base.Keys.{string_key}
use project_distributed_key.Core.Kv.{Err, PutArgs, PutReply, GetArgs, GetReply}
use project_distributed_key.Core.Shard.{n_shards}
use project_distributed_key.Core.Command.{
  Payload, get_op, put_op, freeze_op, install_op, delete_op, Reply, freeze_rep, install_rep,
  delete_rep,
}
use project_distributed_key.Shardgrp.Server.{
  ShardGroup, do_op, do_get, do_put, do_freeze, do_install, do_delete, run,
}
use project_distributed_key.Shardgrp.Handlers.{no_get, no_put}
use project_distributed_key.Shardgrp.Clerk.{
  Outcome, dropped, reply_lost, wrong_leader, deposed, answered, Attempt, is_wrong_leader, call,
  call_all, group_get, group_put,
}

-- The shard of a migration request is one of the arrays'.
abbrev IsInRange : Payload → Type 0
IsInRange (get_op a) = Unit {0}
IsInRange (put_op a) = Unit {0}
IsInRange (freeze_op a) = a.shard < n_shards
IsInRange (install_op a) = a.shard < n_shards
IsInRange (delete_op a) = a.shard < n_shards

abbrev pub AllInRange : List Payload → Type 0
AllInRange [] = Unit {0}
AllInRange (p ∷ ps) = IsInRange p × AllInRange ps

abbrev pub OthersInRange : List Attempt → Type 0
OthersInRange [] = Unit {0}
OthersInRange (t ∷ ts) = AllInRange t.others × OthersInRange ts

abbrev IsAnswered : Outcome → Type 0
IsAnswered answered = Unit {0}
IsAnswered _ = ⊥

-- Some attempt reaches the leader, and its reply the clerk.
abbrev pub SomeAnswered : List Attempt → Type 0
SomeAnswered [] = ⊥
SomeAnswered (t ∷ ts) = IsAnswered t.outcome ⊎ SomeAnswered ts

do_op_total :
    (sg : ShardGroup) (p : Payload) → IsInRange p → (r : ShardGroup × Reply) × (do_op sg p ≡ some r)
unfolding do_op
do_op_total sg (get_op a) h = (_, refl)
do_op_total sg (put_op a) h = (_, refl)
do_op_total sg (freeze_op a) h =
    (((do_freeze sg a).0, freeze_rep (do_freeze sg a).1), rw (lt→ltb a.shard n_shards h) refl)
do_op_total sg (install_op a) h =
    (((do_install sg a).0, install_rep (do_install sg a).1), rw (lt→ltb a.shard n_shards h) refl)
do_op_total sg (delete_op a) h =
    (((do_delete sg a).0, delete_rep (do_delete sg a).1), rw (lt→ltb a.shard n_shards h) refl)

run_total :
    (ps : List Payload) (sg : ShardGroup)
    → AllInRange ps
    → (sg' : ShardGroup) × (run sg ps ≡ some sg')
unfolding run
run_total [] sg h = (sg, refl)
run_total (p ∷ ps) sg (h, hs) =
    let ((sg1, rep), one) = do_op_total sg p h in
    let (sg', rest) = run_total ps sg1 hs in (sg', rw (one, run) rest)

module _ {R : Type 0} (execute : ShardGroup → ShardGroup × R) (not_leader : R) (err : R → Err) where
  call_answered :
      (o : Outcome) (sg : ShardGroup)
      → IsAnswered o
      → (call execute not_leader err o sg).1 ≡ some (execute sg).1
  unfolding call
  call_answered dropped sg h = absurd h
  call_answered reply_lost sg h = absurd h
  call_answered wrong_leader sg h = absurd h
  call_answered deposed sg h = absurd h
  call_answered answered sg h = refl

  call_all_returns :
      (ts : List Attempt) (sg : ShardGroup)
      → ((g : ShardGroup) → is_wrong_leader (err (execute g).1) ≡ false)
      → OthersInRange ts
      → SomeAnswered ts
      → (reply : R) × ((call_all execute not_leader err ts sg).1 ≡ some reply)
  unfolding call_all
  call_all_returns [] sg final others h = absurd h
  call_all_returns (t ∷ ts) sg final (these, others) h =
      let (now, ran) = run_total t.others sg these in
      let called = call execute not_leader err t.outcome now in
      elim (Option-cases called.1) [
        | inl silent ↦ elim h [
          | inl here ↦ absurd (ground (arith, call_answered t.outcome now here))
          | inr there ↦
              let (reply, e) = call_all_returns ts called.0 final others there in
              (reply, rw (ran, call_all) (rw silent e))
        ]
        | inr (r, got) ↦ elim (Bool-cases (is_wrong_leader (err r))) [
          | inl wrong ↦ elim h [
            | inl here ↦ absurd (ground (arith, call_answered t.outcome now here, final now))
            | inr there ↦
                let (reply, e) = call_all_returns ts called.0 final others there in
                (reply, rw (ran, call_all) (rw got (rw wrong e)))
          ]
          | inr right ↦ (r, rw (ran, call_all) (rw got (rw right refl)))
        ]
      ]

do_get_final : (sg : ShardGroup) (args : GetArgs) → is_wrong_leader (do_get sg args).1.err ≡ false
unfolding do_get
do_get_final sg args = ground arith

do_put_final : (sg : ShardGroup) (args : PutArgs) → is_wrong_leader (do_put sg args).1.err ≡ false
unfolding do_put
do_put_final sg args = ground arith

-- A clerk's Get and Put return once some attempt reaches the leader and is answered, whatever became
-- of the attempts before and whatever other clients do, as long as their requests name shards that
-- there are.
pub group_clerk_returns :
    (look : GetArgs) (write : PutArgs) (ts : List Attempt) (sg : ShardGroup)
    → OthersInRange ts
    → SomeAnswered ts
    → ((reply : GetReply) × ((group_get look ts sg).1 ≡ some reply))
      × ((reply : PutReply) × ((group_put write ts sg).1 ≡ some reply))
unfolding group_get group_put
group_clerk_returns look write ts sg others h = (
  call_all_returns (λ g. do_get g look) no_get (λ r. r.err) ts sg (λ g. do_get_final g look) others
      h,
  call_all_returns (λ g. do_put g write) no_put (λ r. r.err) ts sg (λ g. do_put_final g write)
      others h,
)
