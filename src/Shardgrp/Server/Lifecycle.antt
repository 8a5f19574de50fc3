-- ===== src/Shardgrp/Server/Lifecycle.antt =====
-- internal/shardgrp/server.go: who owns a shard, and which configuration numbers are accepted.
use project_distributed_key.Base.{
  ℕ, ◌≡◌, ◌≢◌, refl, false, ◌&&◌, Option, none, some, List, [], ◌∷◌, arith, inl, inr, Option-cases,
  subst, Bool-cases, ltb,
}
use project_distributed_key.Core.Kv.{Err, GetArgs, PutArgs}
use project_distributed_key.Core.Shard.{
  n_shards, key2shard, FreezeShardArgs, InstallShardArgs, DeleteShardArgs,
}
use project_distributed_key.Core.Command.{
  Payload, get_op, put_op, freeze_op, install_op, delete_op, Reply, get_rep, put_rep, freeze_rep,
  install_rep, delete_rep,
}
use project_distributed_key.Core.Command
use project_distributed_key.Shardgrp.Server.{
  ShardGroup, new, do_get, do_put, do_freeze, do_install, do_delete, do_op, run, in_range,
}

-- `P` of the group and the reply that an operation returns, if it does not panic.
abbrev pub After : (ShardGroup → Reply → Type 0) → Option (ShardGroup × Reply) → Type 0
After P none = Unit {0}
After P (some (sg, r)) = P sg r

abbrev pub err_of : Reply → Err
err_of Command.Reply.nil = Err.unset
err_of (get_rep r) = r.err
err_of (put_rep r) = r.err
err_of (freeze_rep r) = r.err
err_of (install_rep r) = r.err
err_of (delete_rep r) = r.err

-- A shard is not both owned and frozen.
abbrev pub IsExclusive : ShardGroup → Type 0
IsExclusive sg = (i : ℕ) → (sg.owned i && sg.frozen i) ≡ false

pub After-in_range :
    (P : ShardGroup → Reply → Type 0) (i : ℕ) {sg : ShardGroup} {r : Reply}
    → P sg r
    → After P (in_range i (sg, r))
After-in_range P i h = elim (Bool-cases (ltb i n_shards)) [ inl e ↦ rw e h | inr e ↦ rw e tt ]

do_get-IsExclusive : (sg : ShardGroup) (a : GetArgs) → IsExclusive sg → IsExclusive (do_get sg a).0
unfolding do_get
do_get-IsExclusive sg a h i = ground (arith, h i)

do_put-IsExclusive : (sg : ShardGroup) (a : PutArgs) → IsExclusive sg → IsExclusive (do_put sg a).0
unfolding do_put
do_put-IsExclusive sg a h i = ground (arith, h i)

do_freeze-IsExclusive :
    (sg : ShardGroup) (a : FreezeShardArgs) → IsExclusive sg → IsExclusive (do_freeze sg a).0
unfolding do_freeze
do_freeze-IsExclusive sg a h i = ground (arith, h i)

do_install-IsExclusive :
    (sg : ShardGroup) (a : InstallShardArgs) → IsExclusive sg → IsExclusive (do_install sg a).0
unfolding do_install
do_install-IsExclusive sg a h i = ground (arith, h i)

do_delete-IsExclusive :
    (sg : ShardGroup) (a : DeleteShardArgs) → IsExclusive sg → IsExclusive (do_delete sg a).0
unfolding do_delete
do_delete-IsExclusive sg a h i = ground (arith, h i)

do_op-IsExclusive :
    (sg : ShardGroup) (p : Payload) → IsExclusive sg → After (λ sg' r. IsExclusive sg') (do_op sg p)
unfolding do_op
do_op-IsExclusive sg (get_op a) h = do_get-IsExclusive sg a h
do_op-IsExclusive sg (put_op a) h = do_put-IsExclusive sg a h
do_op-IsExclusive sg (freeze_op a) h =
    After-in_range (λ sg' _. IsExclusive sg') a.shard (do_freeze-IsExclusive sg a h)
do_op-IsExclusive sg (install_op a) h =
    After-in_range (λ sg' _. IsExclusive sg') a.shard (do_install-IsExclusive sg a h)
do_op-IsExclusive sg (delete_op a) h =
    After-in_range (λ sg' _. IsExclusive sg') a.shard (do_delete-IsExclusive sg a h)

-- A property that every operation keeps holds after a run.
pub run_induction :
    (P : ShardGroup → Type 0)
    → ((sg : ShardGroup) (p : Payload) → P sg → After (λ sg' r. P sg') (do_op sg p))
    → (sg : ShardGroup) (ps : List Payload) {end : ShardGroup} → P sg
    → run sg ps ≡ some end
    → P end
unfolding run
run_induction P keep sg [] {end} h e = let same : sg ≡ end = cc in subst P same h
run_induction P keep sg (p ∷ ps) {end} h e = elim (Option-cases (do_op sg p)) [
  | inl panicked ↦ ground arith
  | inr ((sg', r), stepped) ↦
      run_induction P keep sg' ps (subst (After (λ s _. P s)) stepped (keep sg p h)) (ground arith)
]

-- From a new group, whatever the operations, no shard is both owned and frozen.
pub run-IsExclusive :
    (gid : ℕ) (ps : List Payload) (sg : ShardGroup) → run (new gid) ps ≡ some sg → IsExclusive sg
run-IsExclusive gid ps sg e =
    run_induction IsExclusive do_op-IsExclusive (new gid) ps (unfold new in λ i. refl) e

-- So no reply is ErrFrozen: a frozen shard is refused by the ownership test before it.
pub never_err_frozen :
    (gid : ℕ) (ps : List Payload) (sg : ShardGroup) (p : Payload)
    → run (new gid) ps ≡ some sg
    → After (λ _ r. err_of r ≢ Err.err_frozen) (do_op sg p)
unfolding do_op do_get do_put do_freeze do_install do_delete
never_err_frozen gid ps sg (get_op a) e =
    let h = run-IsExclusive gid ps sg e (key2shard a.key) in ground (arith, h)
never_err_frozen gid ps sg (put_op a) e =
    let h = run-IsExclusive gid ps sg e (key2shard a.key) in ground (arith, h)
never_err_frozen gid ps sg (freeze_op a) e = ground arith
never_err_frozen gid ps sg (install_op a) e = ground arith
never_err_frozen gid ps sg (delete_op a) e = ground arith
