-- ===== src/Kvsrv/Clerk/Moments.antt =====
-- internal/kvsrv/client.go: at which moment of the schedule a clerk's result was true, while no one
-- else writes the key.
use project_distributed_key.Base.{
  ℕ, zero, suc, ◌≡◌, ◌≢◌, refl, ◌∙◌, ◌⊎◌, inl, inr, Bool, true, false, Option, some, List, [], ◌∷◌,
  arith, Option-cases,
}
use project_distributed_key.Base.Keys.{GoString, string_key, same_refl}
use project_distributed_key.Dict
use project_distributed_key.Dict.{get-put}
use project_distributed_key.Core.Kv.{
  Err, PutArgs, PutReply, GetArgs, GetReply, VersionedValue, Store, next_version,
}
use project_distributed_key.Kvsrv.Server
use project_distributed_key.Kvsrv.Server.{put, run}
use project_distributed_key.Kvsrv.Clerk.{
  Outcome, dropped, reply_lost, answered, answered_twice, lost_twice, Attempt, call_put, put_loop,
  clerk_put, clerk_get, reported, arrive_late, before_call,
}

-- Other clients leave the key as it is.
abbrev pub KeepsKey : GoString → List Attempt → Type 0
KeepsKey k [] = Unit {0}
KeepsKey k (t ∷ ts) = ((s : Store) → Dict.get (run s t.others) k ≡ Dict.get s k) × KeepsKey k ts

-- A Get is answered with what the store holds when the clerk returns.
pub clerk_get-answer :
    (args : GetArgs) (ts : List Attempt) (s s' : Store) (reply : GetReply)
    → clerk_get args ts s ≡ (s', some reply)
    → reply ≡ Server.get s' args
unfolding clerk_get
clerk_get-answer args [] s s' reply e = absurd (ground arith)
clerk_get-answer args (t ∷ ts) s s' reply e =
    ground (arith, clerk_get-answer args ts (run s t.others) s' reply)

pub clerk_get-key :
    (k : GoString) (args : GetArgs) (ts : List Attempt) (s : Store)
    → KeepsKey k ts
    → Dict.get (clerk_get args ts s).0 k ≡ Dict.get s k
unfolding clerk_get
clerk_get-key k args [] s keeps = refl
clerk_get-key k args (t ∷ ts) s (here, keeps) =
    ground (arith, here s, clerk_get-key k args ts (run s t.others) keeps)

-- What a Put writes.
abbrev pub written : PutArgs → Option VersionedValue
written args = some (record { value = args.value; version = next_version args.version })

put-cases :
    (s : Store) (args : PutArgs)
    → (((put s args).1.err ≡ Err.ok) × (Dict.get (put s args).0 args.key ≡ written args))
      ⊎ (((put s args).1.err ≢ Err.ok) × (Dict.get (put s args).0 args.key ≡ Dict.get s args.key))
unfolding put
put-cases s args = ground (
  arith,
  same_refl args.key,
  get-put s args.key args.key (record { value = args.value; version = 1 }),
  get-put s args.key args.key (record { value = args.value; version = next_version args.version }),
)

abbrev now : PutArgs → Store → Option VersionedValue
now args s = Dict.get s args.key

-- Before and after a Put: the key reads as before, or as the Put has written it.
abbrev Settles : PutArgs → Store → Store → Type 0
Settles args s s' = (now args s' ≡ now args s) ⊎ (now args s' ≡ written args)

put-Settles : (s : Store) (args : PutArgs) → Settles args s (put s args).0
put-Settles s args = elim (put-cases s args) [ inl (_, new) ↦ inr new | inr (_, old) ↦ inl old ]

Settles-trans :
    (args : PutArgs) (s t u : Store) → Settles args s t → Settles args t u → Settles args s u
Settles-trans args s t u (inl a) (inl b) = inl (b ∙ a)
Settles-trans args s t u (inr a) (inl b) = inr (b ∙ a)
Settles-trans args s t u a (inr b) = inr b

-- OK means that the key reads as written.
abbrev AnswerHolds : PutArgs → Store → PutReply → Type 0
AnswerHolds args s reply = reply.err ≡ Err.ok → now args s ≡ written args

put-AnswerHolds : (s : Store) (args : PutArgs) → AnswerHolds args (put s args).0 (put s args).1
put-AnswerHolds s args ok = elim (put-cases s args) [
  | inl (_, new) ↦ new
  | inr (bad, _) ↦ absurd (bad ok)
]

call_put-Settles : (o : Outcome) (s : Store) (args : PutArgs) → Settles args s (call_put o s args).0
unfolding call_put
call_put-Settles dropped s args = inl refl
call_put-Settles reply_lost s args = put-Settles s args
call_put-Settles answered s args = put-Settles s args
call_put-Settles answered_twice s args =
    Settles-trans args s (put s args).0 (put (put s args).0 args).0 (put-Settles s args)
      (put-Settles (put s args).0 args)
call_put-Settles lost_twice s args =
    Settles-trans args s (put s args).0 (put (put s args).0 args).0 (put-Settles s args)
      (put-Settles (put s args).0 args)

call_put-AnswerHolds :
    (o : Outcome) (s : Store) (args : PutArgs) (reply : PutReply)
    → (call_put o s args).1 ≡ some reply
    → AnswerHolds args (call_put o s args).0 reply
unfolding call_put
call_put-AnswerHolds dropped s args reply e ok = absurd (ground arith)
call_put-AnswerHolds reply_lost s args reply e ok = absurd (ground arith)
call_put-AnswerHolds answered s args reply e ok = put-AnswerHolds s args (ground arith)
call_put-AnswerHolds answered_twice s args reply e ok =
    put-AnswerHolds (put s args).0 args (ground arith)
call_put-AnswerHolds lost_twice s args reply e ok = absurd (ground arith)

reported_ok : (retried : Bool) (e : Err) → reported retried e ≡ Err.ok → e ≡ Err.ok
reported_ok true Err.err_version h = absurd (ground arith)
reported_ok false Err.err_version h = h
reported_ok retried Err.unset h = h
reported_ok retried Err.ok h = refl
reported_ok retried Err.err_no_key h = h
reported_ok retried Err.err_maybe h = h
reported_ok retried Err.err_wrong_leader h = h
reported_ok retried Err.err_wrong_group h = h
reported_ok retried Err.err_frozen h = h

arrive_late-Settles : (n : ℕ) (s : Store) (args : PutArgs) → Settles args s (arrive_late n args s)
unfolding arrive_late
arrive_late-Settles zero s args = inl refl
arrive_late-Settles (suc n) s args =
    Settles-trans args s (put s args).0 (arrive_late n args (put s args).0) (put-Settles s args)
      (arrive_late-Settles n (put s args).0 args)

before_call-Settles :
    (retried : Bool) (args : PutArgs) (t : Attempt) (s : Store)
    → Settles args (run s t.others) (before_call retried args t s)
unfolding before_call
before_call-Settles false args t s = inl refl
before_call-Settles true args t s = arrive_late-Settles t.late (run s t.others) args

put_loop-Settles :
    (retried : Bool) (args : PutArgs) (ts : List Attempt) (s : Store)
    → KeepsKey args.key ts
    → Settles args s (put_loop retried args ts s).0
      × ((put_loop retried args ts s).1 ≡ some Err.ok
          → now args (put_loop retried args ts s).0 ≡ written args)
unfolding put_loop
put_loop-Settles retried args [] s keeps = (inl refl, λ e. absurd (ground arith))
put_loop-Settles retried args (t ∷ ts) s (here, keeps) =
    let s0 = run s t.others in
    let s1 = before_call retried args t s in
    let called = call_put t.outcome s1 args in
    let met = Settles-trans args s s0 s1 (inl (here s)) (before_call-Settles retried args t s) in
    let settled = Settles-trans args s s1 called.0 met (call_put-Settles t.outcome s1 args) in
    elim (Option-cases called.1) [
      | inl silent ↦
          let (later, answer) = put_loop-Settles true args ts called.0 keeps in
          rw (silent, put_loop)
            (Settles-trans args s called.0 (put_loop true args ts called.0).0 settled later, answer)
      | inr (reply, got) ↦
          rw (got, put_loop)
            (
              settled,
              λ e.
                  call_put-AnswerHolds t.outcome s1 args reply got
                    (reported_ok retried reply.err (ground arith)),
            )
    ]

-- While no one else writes the key: whatever the network does, the key reads as before the call, or as
-- the Put has written it; and if the clerk returns OK, as written.
pub clerk_put-Settles :
    (args : PutArgs) (ts : List Attempt) (s : Store)
    → KeepsKey args.key ts
    → ((Dict.get (clerk_put args ts s).0 args.key ≡ Dict.get s args.key)
        ⊎ (Dict.get (clerk_put args ts s).0 args.key ≡ written args))
      × ((clerk_put args ts s).1 ≡ some Err.ok
          → Dict.get (clerk_put args ts s).0 args.key ≡ written args)
unfolding clerk_put
clerk_put-Settles args ts s keeps = put_loop-Settles false args ts s keeps
