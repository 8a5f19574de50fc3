-- ===== src/Kvsrv/Server/Cas.antt =====
-- internal/kvsrv/server.go: Put is a compare-and-swap on the key's version.
use project_distributed_key.Base.{
  ℕ, ◌+◌, ◌<◌, ◌^◌, ◌≡◌, ◌↔◌, Bool, true, false, ◌&&◌, Option, none, some, List, [], suc, length,
  ◌∷◌, arith, if◌then◌else◌,
}
use project_distributed_key.Base.Keys.{GoString, string_key, ◌==◌, bytes_beq_iff}
use project_distributed_key.Dict
use project_distributed_key.Dict.{get-put, get-make}
use project_distributed_key.Core.Kv.{Err, PutArgs, VersionedValue, Store, next_version}
use project_distributed_key.Core.Command.{Payload, get_op, put_op, freeze_op, install_op, delete_op}
use project_distributed_key.Kvsrv.Server.{new, put, do_op, run}

abbrev pub version_or : Option VersionedValue → ℕ
version_or none = 0
version_or (some v) = v.version

-- The version that a Put of the key must name: 0 for a key that is not there.
unfoldable pub version_of : Store → GoString → ℕ
version_of s k = version_or (Dict.get s k)

abbrev pub is_ok : Err → Bool
is_ok Err.ok = true
is_ok _ = false

unfoldable pub put_ok : Store → PutArgs → Bool
put_ok s a = is_ok (put s a).1.err

-- A stored version is never 0, which names an absent key.
abbrev pub Fresh : Option VersionedValue → Type 0
Fresh none = Unit {0}
Fresh (some v) = 0 < v.version

abbrev pub IsFresh : Store → Type 0
IsFresh s = (k : GoString) → Fresh (Dict.get s k)

pub new-IsFresh : IsFresh new
unfolding new
new-IsFresh k = ground (arith, get-make {V = VersionedValue} k)

-- A Put that succeeds named the version that the store holds.
pub put_ok→version : (s : Store) (a : PutArgs) → put_ok s a ≡ true → version_of s a.key ≡ a.version
unfolding put_ok put version_of
put_ok→version s a h = ground arith

-- From versions that are never 0 for a key that is there: a Put succeeds exactly when it names the
-- version that the store holds (0 for no key).
pub put_ok_iff :
    (s : Store) (a : PutArgs) → IsFresh s → (put_ok s a ≡ true) ↔ (version_of s a.key ≡ a.version)
unfolding put_ok put version_of
put_ok_iff s a h = ground (arith, h a.key)

-- After a Put, its key reads as the new value at the next version if the Put succeeded, and every
-- key reads as before if not; all other keys read as before in both cases.
pub get-put_lem :
    (s : Store) (a : PutArgs) (k : GoString)
    → Dict.get (put s a).0 k ≡ (
        if put_ok s a && a.key == k
        then some (record { value = a.value; version = next_version (version_of s a.key) })
        else Dict.get s k)
unfolding put_ok put version_of
get-put_lem s a k = ground (
  arith,
  get-put s a.key k (record { value = a.value; version = 1 }),
  get-put s a.key k (record { value = a.value; version = next_version (version_of s a.key) }),
)

-- Reading the versions alone: a successful Put moves its key's version on, all else stays.
pub version_of-put :
    (s : Store) (a : PutArgs) (k : GoString)
    → version_of (put s a).0 k
      ≡ (if put_ok s a && a.key == k then next_version (version_of s k) else version_of s k)
unfolding version_of
version_of-put s a k = ground (arith, get-put_lem s a k, bytes_beq_iff a.key k)

pub put-IsFresh :
    (s : Store) (a : PutArgs) → IsFresh s → a.version + 1 < 2 ^ 64 → IsFresh (put s a).0
put-IsFresh s a h small k = ground (arith, h k, get-put_lem s a k, put_ok_iff s a h)

-- How many of the operations are Puts of the key that succeed.
unfoldable pub successes : GoString → Store → List Payload → ℕ
successes k s [] = 0
successes k s (put_op a ∷ ps) =
    let rest = successes k (put s a).0 ps in if put_ok s a && a.key == k then suc rest else rest
successes k s (p ∷ ps) = successes k s ps

-- Until it reaches 2^64, a key's version counts the Puts of it that have succeeded.
pub version_of-run :
    (k : GoString) (s : Store) (ps : List Payload)
    → version_of s k + length ps < 2 ^ 64
    → version_of (run s ps) k ≡ version_of s k + successes k s ps
unfolding run successes do_op
version_of-run k s [] h = omega arith
version_of-run k s (put_op a ∷ ps) h =
    ground (arith, version_of-put s a k, version_of-run k (put s a).0 ps)
version_of-run k s (get_op a ∷ ps) h = omega (arith, version_of-run k s ps (omega arith))
version_of-run k s (freeze_op a ∷ ps) h = omega (arith, version_of-run k s ps (omega arith))
version_of-run k s (install_op a ∷ ps) h = omega (arith, version_of-run k s ps (omega arith))
version_of-run k s (delete_op a ∷ ps) h = omega (arith, version_of-run k s ps (omega arith))

-- Of two Puts of one key that name one version, the second is refused if the first succeeded,
-- whatever operations come between them, as long as the version stays below 2^64.
pub put_exclusive :
    (s : Store) (a b : PutArgs) (between : List Payload)
    → put_ok s a ≡ true
    → a.key ≡ b.key
    → a.version ≡ b.version
    → a.version + length between + 1 < 2 ^ 64
    → put_ok (run (put s a).0 between) b ≡ false
put_exclusive s a b between ok same_key same_version small = ground (
  arith,
  put_ok→version s a ok,
  version_of-put s a b.key,
  version_of-run b.key (put s a).0 between,
  put_ok→version (run (put s a).0 between) b,
  (bytes_beq_iff a.key b.key).1 same_key,
)
