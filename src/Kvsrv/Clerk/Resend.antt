-- ===== src/Kvsrv/Clerk/Resend.antt =====
-- internal/kvsrv/client.go: the Put loop returns once a call is answered; and what it reports when
-- the transport below it sent the request twice within one call.
use project_distributed_key.Base.{
  ◌+◌, ◌<◌, ◌^◌, ◌≡◌, ◌≢◌, inl, inr, none, Option-cases, Bool, true, ◌⊎◌, some, List, [], ◌∷◌,
  arith,
}
use project_distributed_key.Base.Keys.{same_refl, string_key}
use project_distributed_key.Core.Kv.{Err, PutArgs, Store}
use project_distributed_key.Kvsrv.Server.{put, run}
use project_distributed_key.Kvsrv.Server.Cas.{put_ok, put_ok→version, version_of-put}
use project_distributed_key.Kvsrv.Clerk.{
  Outcome, dropped, reply_lost, answered, answered_twice, lost_twice, Attempt, call_put, put_loop,
  clerk_put, reported, before_call,
}
use project_distributed_key.Kvsrv.Clerk.Effects.{
  applied, applied_from, applied_before, applied_by, put_stale,
}

abbrev IsAnswer : Outcome → Type 0
IsAnswer answered = Unit {0}
IsAnswer answered_twice = Unit {0}
IsAnswer _ = ⊥

abbrev pub SomeAnswer : List Attempt → Type 0
SomeAnswer [] = ⊥
SomeAnswer (t ∷ ts) = IsAnswer t.outcome ⊎ SomeAnswer ts

answer_ends : (o : Outcome) (s : Store) (a : PutArgs) → IsAnswer o → (call_put o s a).1 ≢ none
unfolding call_put
answer_ends dropped s a h e = h
answer_ends reply_lost s a h e = h
answer_ends answered s a h e = cc
answer_ends answered_twice s a h e = cc
answer_ends lost_twice s a h e = h

-- The Put loop ends with a result when some call in its schedule is answered.
pub put_loop_returns :
    (retried : Bool) (a : PutArgs) (ts : List Attempt) (s : Store)
    → SomeAnswer ts
    → (e : Err) × ((put_loop retried a ts s).1 ≡ some e)
unfolding put_loop
put_loop_returns retried a [] s h = absurd h
put_loop_returns retried a (t ∷ ts) s h =
    elim (Option-cases (call_put t.outcome (before_call retried a t s) a).1) [
      | inl silent ↦
          rw (silent, put_loop)
            (put_loop_returns true a ts (call_put t.outcome (before_call retried a t s) a).0
              (elim h [
                | inl now ↦ absurd (answer_ends t.outcome (before_call retried a t s) a now silent)
                | inr later ↦ later
              ]))
      | inr (r, heard) ↦ (reported retried r.err, rw (heard, put_loop))
    ]

-- A first call that the transport sends twice: the Put took effect, and the clerk reports
-- ErrVersion, which the client reads as "not done".
pub resent_misreported :
    (s : Store) (a : PutArgs) (ts : List Attempt)
    → put_ok s a ≡ true
    → a.version + 1 < 2 ^ 64
    → ((clerk_put a (record { others = []; late = 0; outcome = answered_twice } ∷ ts) s).1
        ≡ some Err.err_version)
      × (applied a (record { others = []; late = 0; outcome = answered_twice } ∷ ts) s ≡ 1)
unfolding clerk_put put_loop call_put before_call run applied applied_from applied_before applied_by
resent_misreported s a ts took small =
    let named = put_ok→version s a took in
    let stale =
      put_stale (put s a).0 a (ground (arith, version_of-put s a a.key, same_refl a.key)) in
    (ground (arith, stale.2), ground (arith, stale.0))
