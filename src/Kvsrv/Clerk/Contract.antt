-- ===== src/Kvsrv/Clerk/Contract.antt =====
-- internal/kvsrv/client.go: what the error that Clerk.Put returns says of the store.
use project_distributed_key.Base.{
  ℕ, ◌+◌, ◌<◌, ◌≤◌, ◌^◌, ◌≡◌, refl, sym, subst, Bool, true, false, ◌⊎◌, inl, inr, Option, none,
  some, List, [], ◌∷◌, length, arith, Bool-cases,
}
use native.Mathlib.Nat.{zero-add}
use project_distributed_key.Base.Keys.{string_key}
use project_distributed_key.Core.Kv.{Err, PutArgs, Store}
use project_distributed_key.Kvsrv.Server.{put, run}
use project_distributed_key.Kvsrv.Server.Cas.{
  version_of, put_ok, is_ok, put_ok→version, version_of-put,
}
use project_distributed_key.Kvsrv.Clerk.{
  Outcome, dropped, reply_lost, answered, answered_twice, lost_twice, Attempt, call_put, put_loop,
  clerk_put, reported, before_call,
}
use project_distributed_key.Kvsrv.Clerk.Effects.{
  one_if, applied_by, applied_before, applied_from, applied, call_stale, run_grows, before_stale,
  put_moves, before-cases,
}

-- A bound on the operations that the attempts let through.
abbrev pub traffic : List Attempt → ℕ
traffic [] = 0
traffic (t ∷ ts) = length t.others + 2 + traffic ts

abbrev IsSingle : Outcome → Type 0
IsSingle answered_twice = ⊥
IsSingle lost_twice = ⊥
IsSingle _ = Unit {0}

abbrev pub AllSingle : List Attempt → Type 0
AllSingle [] = Unit {0}
AllSingle (t ∷ ts) = IsSingle t.outcome × AllSingle ts

-- What each result says of the number of times that the Put took effect.
abbrev pub Explained : Option Err → ℕ → Type 0
Explained (some Err.ok) n = n ≡ 1
Explained (some Err.err_version) n = n ≡ 0
Explained (some Err.err_no_key) n = n ≡ 0
Explained _ n = n ≤ 1

-- An attempt from the call on: the rest of the loop, and how many times the Put takes effect.
module _ (a : PutArgs) (ts : List Attempt) (o : Outcome) where
  abbrev loop_at : Bool → Store → Store × Option Err
  loop_at retried s = elim (call_put o s a).1 [
    | none ↦ put_loop true a ts (call_put o s a).0
    | some reply ↦ ((call_put o s a).0, some (reported retried reply.err))
  ]

  abbrev applied_at : Store → ℕ
  applied_at s = elim (call_put o s a).1 [
    | none ↦ applied_by o s a + applied_from true a ts (call_put o s a).0
    | some reply ↦ applied_by o s a
  ]

-- The loop changes nothing any more, and ends in ErrMaybe.
abbrev Spent : Option Err → ℕ → Type 0
Spent result n = (n ≡ 0) × ((result ≡ none) ⊎ (result ≡ some Err.err_maybe))

loop_at-Spent :
    (a : PutArgs) (ts : List Attempt) (o : Outcome) (s : Store)
    → a.version < version_of s a.key
    → Spent (put_loop true a ts s).1 (applied_from true a ts s)
    → Spent (loop_at a ts o true s).1 (applied_at a ts o s)
loop_at-Spent a ts o s h later =
    let (nothing, same, answer) = call_stale o s a h in ground (arith, nothing, same, answer, later)

-- So it is once the version has passed the Put's.
spent :
    (a : PutArgs) (ts : List Attempt) (s : Store)
    → a.version < version_of s a.key
    → version_of s a.key + traffic ts < 2 ^ 64
    → Spent (put_loop true a ts s).1 (applied_from true a ts s)
unfolding applied_from put_loop
spent a [] s h b = (refl, inl refl)
spent a (t ∷ ts) s h b =
    let grown = run_grows a.key s t.others (omega arith) in
    let s' = run s t.others in
    let (idle, met) = before_stale true a t s (omega arith) in
    let here =
      loop_at-Spent a ts t.outcome s' (omega arith) (spent a ts s' (omega arith) (omega arith)) in
    subst
      (λ m.
        Spent (loop_at a ts t.outcome true m).1
          (applied_before true a t s + applied_at a ts t.outcome m))
      (sym met) (rw (idle, zero-add) here)

-- What one call of a network that never sends twice does, as far as the contract needs it.
call_single :
    (o : Outcome) (s : Store) (a : PutArgs)
    → IsSingle o
    → ((call_put o s a).1 ≡ none × (applied_by o s a ≡ 0) × (call_put o s a).0 ≡ s)
      ⊎ ((call_put o s a).1 ≡ none
          × (applied_by o s a ≡ one_if (put_ok s a))
          × (call_put o s a).0 ≡ (put s a).0)
      ⊎ (((call_put o s a).1 ≡ some (put s a).1) × (applied_by o s a ≡ one_if (put_ok s a)))
unfolding call_put applied_by
call_single dropped s a h = inl (refl, refl, refl)
call_single reply_lost s a h = inr (inl (refl, refl, refl))
call_single answered s a h = inr (inr (refl, refl))
call_single answered_twice s a h = absurd h
call_single lost_twice s a h = absurd h

reported-Explained :
    (retried : Bool) (e : Err) → Explained (some (reported retried e)) (one_if (is_ok e))
reported-Explained retried Err.unset = omega arith
reported-Explained retried Err.ok = refl
reported-Explained retried Err.err_no_key = refl
reported-Explained true Err.err_version = omega arith
reported-Explained false Err.err_version = refl
reported-Explained retried Err.err_maybe = omega arith
reported-Explained retried Err.err_wrong_leader = omega arith
reported-Explained retried Err.err_wrong_group = omega arith
reported-Explained retried Err.err_frozen = omega arith

module _ (a : PutArgs) (ts : List Attempt) (s : Store) where
  abbrev Later : Type 0
  Later = Explained (put_loop true a ts (put s a).0).1 (applied_from true a ts (put s a).0)

  -- The reply to a Put was lost: the loop goes on with `retried` set.
  lost-Explained :
      version_of s a.key + 2 + traffic ts < 2 ^ 64
      → Later
      → Explained
          (put_loop true a ts (put s a).0).1
          (one_if (put_ok s a) + applied_from true a ts (put s a).0)
  lost-Explained b later = elim (Bool-cases (put_ok s a)) [
    | inl took ↦
        let now = put_ok→version s a took in
        let moved = put_moves s a took (omega arith) in
        let (nothing, ending) = spent a ts (put s a).0 (omega arith) (omega arith) in
        rw (took, nothing) (elim ending [ inl e ↦ rw e (omega arith) | inr e ↦ rw e (omega arith) ])
    | inr refused ↦ rw (refused, zero-add) later
  ]

loop_at-Explained :
    (retried : Bool) (a : PutArgs) (ts : List Attempt) (o : Outcome) (s : Store)
    → IsSingle o
    → version_of s a.key + 2 + traffic ts < 2 ^ 64
    → ((s' : Store)
        → version_of s' a.key + traffic ts < 2 ^ 64
        → Explained (put_loop true a ts s').1 (applied_from true a ts s'))
    → Explained (loop_at a ts o retried s).1 (applied_at a ts o s)
loop_at-Explained retried a ts o s single b later = elim (call_single o s a single) [
  | inl (no_reply, nothing, same) ↦
      rw (no_reply, loop_at, applied_at) (rw (nothing, same, zero-add) (later s (omega arith)))
  | inr (inl (no_reply, once, moved)) ↦
      rw (no_reply, loop_at, applied_at)
        (rw (once, moved)
          (lost-Explained a ts s (omega arith)
            (later (put s a).0 (ground (arith, version_of-put s a a.key)))))
  | inr (inr (reply, once)) ↦
      rw (reply, loop_at, applied_at)
        (rw once (unfold put_ok in reported-Explained retried (put s a).1.err))
]

explained :
    (retried : Bool) (a : PutArgs) (ts : List Attempt) (s : Store)
    → AllSingle ts
    → version_of s a.key + traffic ts < 2 ^ 64
    → Explained (put_loop retried a ts s).1 (applied_from retried a ts s)
unfolding applied_from put_loop
explained retried a [] s single b = omega arith
explained retried a (t ∷ ts) s single b =
    let s' = run s t.others in
    let met = before_call retried a t s in
    let grown = run_grows a.key s t.others (omega arith) in
    elim (before-cases retried a t s (omega arith)) [
      | inl (idle, still) ↦
          subst
            (λ m.
              Explained (loop_at a ts t.outcome retried m).1
                (applied_before retried a t s + applied_at a ts t.outcome m))
            (sym still)
            (rw (idle, zero-add)
              (loop_at-Explained retried a ts t.outcome s' single.0 (omega arith)
                (λ u. explained true a ts u single.1)))
      | inr (again, once, moved, was) ↦
          let here =
            loop_at-Spent a ts t.outcome met (omega arith)
              (spent a ts met (omega arith) (omega arith)) in
          subst
            (λ r.
              Explained (loop_at a ts t.outcome r met).1
                (applied_before retried a t s + applied_at a ts t.outcome met))
            (sym again)
            (rw (once, here.0)
              (elim here.1 [ inl e ↦ rw e (omega arith) | inr e ↦ rw e (omega arith) ]))
    ]

-- A network that sends a request once per call, but may deliver it later, or again, once the call has
-- failed: OK means that the Put took effect exactly once, ErrVersion and ErrNoKey that it did not,
-- and in every other case (ErrMaybe, or still retrying) it took effect at most once, up to the
-- moment at which the clerk returns; whatever other clients do, while the version stays below 2^64.
pub clerk_put-Explained :
    (a : PutArgs) (ts : List Attempt) (s : Store)
    → AllSingle ts
    → version_of s a.key + traffic ts < 2 ^ 64
    → Explained (clerk_put a ts s).1 (applied a ts s)
unfolding clerk_put applied
clerk_put-Explained a ts s single b = explained false a ts s single b
