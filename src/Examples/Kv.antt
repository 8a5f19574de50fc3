-- ===== src/Examples/Kv.antt =====
-- internal/kvsrv at concrete inputs.
use project_distributed_key.Base.{
  ◌+◌, ◌≡◌, refl, true, false, Option, none, some, List, [], ◌∷◌, arith, inl, inr,
}
use project_distributed_key.Base.Keys.{string_key, str, bytes_beq}
use project_distributed_key.Dict
use project_distributed_key.Gob.{Gob}
use project_distributed_key.Core.Kv.{Err, PutArgs, Store}
use project_distributed_key.Core.Command.{Payload, get_op, put_op}
use project_distributed_key.Kvsrv.Server.{new, put, run, SameStore, snapshot, restore}
use project_distributed_key.Kvsrv.Server.Cas.{
  version_of, put_ok, successes, new-IsFresh, put_ok_iff, version_of-run, put_exclusive,
}
use project_distributed_key.Kvsrv.Server.Snapshots.{replies, replies-restore}
use project_distributed_key.Kvsrv.Clerk
use project_distributed_key.Kvsrv.Clerk.{
  Outcome, dropped, reply_lost, answered, answered_twice, Attempt, clerk_put, put_loop,
}
use project_distributed_key.Kvsrv.Clerk.Effects.{applied}
use project_distributed_key.Kvsrv.Clerk.Contract.{Explained, clerk_put-Explained}
use project_distributed_key.Kvsrv.Clerk.Resend.{put_loop_returns, resent_misreported}

abbrev create : PutArgs
create = record { key = str "a"; value = str "x"; version = 0 }

abbrev rewrite : PutArgs
rewrite = record { key = str "a"; value = str "y"; version = 1 }

put_creates : (put new create).1.err ≡ Err.ok
unfolding put new Dict.get Dict.make
put_creates = refl

put_ok_iff_example :
    (put_ok new create ≡ true → version_of new (str "a") ≡ 0)
    × (version_of new (str "a") ≡ 0 → put_ok new create ≡ true)
put_ok_iff_example = put_ok_iff new create new-IsFresh

version_of-run_example :
    version_of (run new (put_op create ∷ put_op rewrite ∷ [])) (str "a")
    ≡ version_of new (str "a") + successes (str "a") new (put_op create ∷ put_op rewrite ∷ [])
unfolding version_of new Dict.get Dict.make
version_of-run_example =
    version_of-run (str "a") new (put_op create ∷ put_op rewrite ∷ []) (omega arith)

put_exclusive_example :
    put_ok (run (put new create).0 (get_op (record { key = str "a" }) ∷ [])) create ≡ false
unfolding put_ok put new Dict.get Dict.make
put_exclusive_example =
    put_exclusive new create create (get_op (record { key = str "a" }) ∷ []) refl refl refl
      (omega arith)

-- The encoding that keeps the store itself.
abbrev whole : Gob (Option Store) Store SameStore
whole = record {
  len = elim [ none ↦ 0 | some s ↦ 1 ];
  encode = λ s. some s;
  decode = λ b. b;
  encode_nonempty = λ s. omega arith;
  decode-encode = λ s. (s, refl, λ k. refl);
}

replies-restore_example :
    (t : Store) × (restore whole (snapshot whole new) ≡ some t)
    × ((ps : List Payload) → replies t ps ≡ replies new ps)
replies-restore_example = replies-restore whole new

abbrev lost_then_answered : List Attempt
lost_then_answered =
    record { others = []; late = 0; outcome = reply_lost }
    ∷ record { others = []; late = 0; outcome = answered }
    ∷ []

-- The retried Put is ambiguous to its client.
retried_is_maybe : (clerk_put create lost_then_answered new).1 ≡ some Err.err_maybe
unfolding clerk_put put_loop Clerk.call_put Clerk.before_call Clerk.arrive_late run put new Dict.get
    Dict.put Dict.make bytes_beq
retried_is_maybe = refl

-- So is one whose first request arrives only after its call has failed.
abbrev delayed_then_answered : List Attempt
delayed_then_answered =
    record { others = []; late = 0; outcome = dropped }
    ∷ record { others = []; late = 1; outcome = answered }
    ∷ []

delayed_is_maybe : (clerk_put create delayed_then_answered new).1 ≡ some Err.err_maybe
unfolding clerk_put put_loop Clerk.call_put Clerk.before_call Clerk.arrive_late run put new Dict.get
    Dict.put Dict.make bytes_beq
delayed_is_maybe = refl

clerk_put-Explained_example :
    Explained
      (clerk_put create delayed_then_answered new).1
      (applied create delayed_then_answered new)
unfolding version_of new Dict.get Dict.make
clerk_put-Explained_example =
    clerk_put-Explained create delayed_then_answered new (tt, (tt, tt)) (omega arith)

put_loop_returns_example : (e : Err) × ((put_loop false create lost_then_answered new).1 ≡ some e)
put_loop_returns_example = put_loop_returns false create lost_then_answered new (inr (inl tt))

resent_misreported_example :
    ((clerk_put create (record { others = []; late = 0; outcome = answered_twice } ∷ []) new).1
      ≡ some Err.err_version)
    × (applied create (record { others = []; late = 0; outcome = answered_twice } ∷ []) new ≡ 1)
unfolding put_ok put new Dict.get Dict.make
resent_misreported_example = resent_misreported new create [] refl (omega arith)
