-- ===== src/Kvsrv/Clerk/Effects.antt =====
-- internal/kvsrv/client.go: how many times a clerk's Put takes effect, and what the requests of failed
-- calls can still do.
use project_distributed_key.Base.{
  ℕ, zero, suc, ◌+◌, ◌<◌, ◌≤◌, ◌^◌, ◌≡◌, refl, sym, Bool, true, false, ◌⊎◌, inl, inr, Option, none,
  some, List, [], ◌∷◌, if◌then◌else◌, length, arith, Bool-cases,
}
use native.Mathlib.Nat.{zero-add}
use project_distributed_key.Base.Keys.{GoString, string_key, same_refl}
use project_distributed_key.Core.Kv.{Err, PutArgs, PutReply, Store}
use project_distributed_key.Core.Command.{Payload, get_op, put_op, freeze_op, install_op, delete_op}
use project_distributed_key.Kvsrv.Server.{put, run}
use project_distributed_key.Kvsrv.Server.Cas.{
  version_of, put_ok, put_ok→version, version_of-put, version_of-run, successes,
}
use project_distributed_key.Kvsrv.Clerk.{
  Outcome, dropped, reply_lost, answered, answered_twice, lost_twice, Attempt, call_put,
  arrive_late, before_call,
}

abbrev pub one_if : Bool → ℕ
one_if b = if b then 1 else 0

-- How many times this clerk's Put took effect in one call, and in all its attempts.
unfoldable pub applied_by : Outcome → Store → PutArgs → ℕ
applied_by dropped s a = 0
applied_by reply_lost s a = one_if (put_ok s a)
applied_by answered s a = one_if (put_ok s a)
applied_by answered_twice s a = one_if (put_ok s a) + one_if (put_ok (put s a).0 a)
applied_by lost_twice s a = one_if (put_ok s a) + one_if (put_ok (put s a).0 a)

unfoldable pub late_applied : ℕ → PutArgs → Store → ℕ
late_applied zero a s = 0
late_applied (suc n) a s = one_if (put_ok s a) + late_applied n a (put s a).0

unfoldable pub applied_before : Bool → PutArgs → Attempt → Store → ℕ
applied_before false a t s = 0
applied_before true a t s = late_applied t.late a (run s t.others)

unfoldable pub applied_from : Bool → PutArgs → List Attempt → Store → ℕ
applied_from retried args [] s = 0
applied_from retried args (t ∷ ts) s =
    let now = before_call retried args t s in
    let called = call_put t.outcome now args in
    let here = applied_by t.outcome now args in
    applied_before retried args t s
    + elim called.1 [ none ↦ here + applied_from true args ts called.0 | some reply ↦ here ]

unfoldable pub applied : PutArgs → List Attempt → Store → ℕ
applied args ts s = applied_from false args ts s

-- A Put of an older version changes nothing and is answered by a version error.
pub put_stale :
    (s : Store) (a : PutArgs)
    → a.version < version_of s a.key
    → (put_ok s a ≡ false) × ((put s a).0 ≡ s) × ((put s a).1.err ≡ Err.err_version)
unfolding put put_ok version_of
put_stale s a h = ground arith

successes-le : (k : GoString) (s : Store) (ps : List Payload) → successes k s ps ≤ length ps
unfolding successes
successes-le k s [] = omega arith
successes-le k s (put_op a ∷ ps) = ground (arith, successes-le k (put s a).0 ps)
successes-le k s (get_op a ∷ ps) = omega (arith, successes-le k s ps)
successes-le k s (freeze_op a ∷ ps) = omega (arith, successes-le k s ps)
successes-le k s (install_op a ∷ ps) = omega (arith, successes-le k s ps)
successes-le k s (delete_op a ∷ ps) = omega (arith, successes-le k s ps)

abbrev pub Answer : Option PutReply → Err → Type 0
Answer r e = (r ≡ none) ⊎ ((p : PutReply) × (r ≡ some p) × (p.err ≡ e))

pub call_stale :
    (o : Outcome) (s : Store) (a : PutArgs)
    → a.version < version_of s a.key
    → (applied_by o s a ≡ 0) × ((call_put o s a).0 ≡ s) × Answer (call_put o s a).1 Err.err_version
unfolding applied_by call_put
call_stale dropped s a h = (refl, refl, inl refl)
call_stale reply_lost s a h = ground (arith, put_stale s a h)
call_stale answered s a h =
    let p = put_stale s a h in (ground arith, p.1, inr ((put s a).1, refl, p.2))
call_stale answered_twice s a h =
    let p = put_stale s a h in rw p.1 (ground (arith, p.0), p.1, inr ((put s a).1, refl, p.2))
call_stale lost_twice s a h = let p = put_stale s a h in rw p.1 (ground (arith, p.0), p.1, inl refl)

-- Other clients' operations leave the version where it was or move it on.
pub run_grows :
    (k : GoString) (s : Store) (ps : List Payload)
    → version_of s k + length ps < 2 ^ 64
    → (version_of s k ≤ version_of (run s ps) k)
      × (version_of (run s ps) k ≤ version_of s k + length ps)
run_grows k s ps h = omega (arith, version_of-run k s ps h, successes-le k s ps)

-- Requests that are late change nothing once the version has passed the Put's.
late_stale :
    (n : ℕ) (a : PutArgs) (s : Store)
    → a.version < version_of s a.key
    → (late_applied n a s ≡ 0) × (arrive_late n a s ≡ s)
unfolding late_applied arrive_late
late_stale zero a s h = (refl, refl)
late_stale (suc n) a s h =
    let (refused, same, _) = put_stale s a h in rw (same, refused, zero-add) (late_stale n a s h)

pub before_stale :
    (retried : Bool) (a : PutArgs) (t : Attempt) (s : Store)
    → a.version < version_of (run s t.others) a.key
    → (applied_before retried a t s ≡ 0) × (before_call retried a t s ≡ run s t.others)
unfolding applied_before before_call
before_stale false a t s h = (refl, refl)
before_stale true a t s h = late_stale t.late a (run s t.others) h

put_refused : (s : Store) (a : PutArgs) → put_ok s a ≡ false → (put s a).0 ≡ s
unfolding put put_ok
put_refused s a h = ground arith

pub put_moves :
    (s : Store) (a : PutArgs)
    → put_ok s a ≡ true
    → version_of s a.key + 1 < 2 ^ 64
    → version_of (put s a).0 a.key ≡ a.version + 1
put_moves s a took b =
    let now = put_ok→version s a took in ground (arith, version_of-put s a a.key, same_refl a.key)

-- Of the requests that are late one at most takes effect, and then the version has passed the Put's.
late-cases :
    (n : ℕ) (a : PutArgs) (s : Store)
    → version_of s a.key + 1 < 2 ^ 64
    → ((late_applied n a s ≡ 0) × (arrive_late n a s ≡ s))
      ⊎ ((late_applied n a s ≡ 1)
          × (version_of (arrive_late n a s) a.key ≡ a.version + 1)
          × (a.version ≡ version_of s a.key))
unfolding late_applied arrive_late
late-cases zero a s b = inl (refl, refl)
late-cases (suc n) a s b = elim (Bool-cases (put_ok s a)) [
  | inl took ↦
      let moved = put_moves s a took b in
      let (none_more, same) = late_stale n a (put s a).0 (omega arith) in
      inr (rw (took, none_more) refl, rw same moved, sym (put_ok→version s a took))
  | inr refused ↦ rw (refused, put_refused s a refused, zero-add) (late-cases n a s b)
]

pub before-cases :
    (retried : Bool) (a : PutArgs) (t : Attempt) (s : Store)
    → version_of (run s t.others) a.key + 1 < 2 ^ 64
    → ((applied_before retried a t s ≡ 0) × (before_call retried a t s ≡ run s t.others))
      ⊎ ((retried ≡ true)
          × (applied_before retried a t s ≡ 1)
          × (version_of (before_call retried a t s) a.key ≡ a.version + 1)
          × (a.version ≡ version_of (run s t.others) a.key))
unfolding applied_before before_call
before-cases false a t s b = inl (refl, refl)
before-cases true a t s b = elim (late-cases t.late a (run s t.others) b) [
  | inl idle ↦ inl idle
  | inr (once, moved, was) ↦ inr (refl, once, moved, was)
]
