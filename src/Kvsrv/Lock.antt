-- ===== src/Kvsrv/Lock.antt =====
-- internal/kvsrv/lock.go. The loops of Acquire and Release as the phases between their calls of the
-- clerk, and a metadata server with any number of clients that use one lock. A Put that has been
-- sent may reach the server at any time, any number of times or never, also after its client has
-- gone on, and the clerk may return any error for it.
pub mod Invariant
pub mod Exclusion
use project_distributed_key.Base.{
  ℕ, zero, suc, ◌≡◌, ◌≢◌, Bool, true, false, ◌&&◌, ◌||◌, Option, none, some, List, [], ◌∷◌,
  if◌then◌else◌, update, get_elem?,
}
use project_distributed_key.Base.Keys.{GoString, string_key, ◌==◌}
use project_distributed_key.Core.Kv.{Err, PutArgs, GetArgs, GetReply, Store}
use project_distributed_key.Kvsrv.Server.{new, get, put}

-- What a client is doing: `acquire_put v` waits for the answer of a Put at the version `v`.
pub data Phase : Type 0 where
  idle acquire_get acquire_check holding release_get release_check : Phase
  acquire_put release_put : ℕ → Phase

-- The phases that wait for a Get, and those that wait for a Put.
abbrev pub reads : Phase → Bool
reads acquire_get = true
reads acquire_check = true
reads release_get = true
reads release_check = true
reads _ = false

abbrev pub writes : Phase → Bool
writes (acquire_put v) = true
writes (release_put v) = true
writes _ = false

abbrev is_ok : Err → Bool
is_ok Err.ok = true
is_ok _ = false

abbrev is_no_key : Err → Bool
is_no_key Err.err_no_key = true
is_no_key _ = false

abbrev ok_or_maybe : Err → Bool
ok_or_maybe Err.ok = true
ok_or_maybe Err.err_maybe = true
ok_or_maybe _ = false

module _ (lock_name : GoString) (client_id : GoString) where
  -- What follows the answer of a Get.
  unfoldable pub after_get : Phase → GetReply → Phase
  after_get acquire_get r =
      if is_no_key r.err
      then acquire_put 0
      else if is_ok r.err
      then (if r.value == client_id
          then holding
          else if r.value == []
          then acquire_put r.version
          else acquire_get)
      else acquire_get
  after_get acquire_check r = if is_ok r.err && r.value == client_id then holding else acquire_get
  after_get release_get r =
      if is_ok r.err then (if r.value == client_id then release_put r.version else idle) else idle
  after_get release_check r =
      if is_no_key r.err || (is_ok r.err && r.value == []) then idle else release_get
  after_get phase r = phase

  -- What follows the answer of a Put.
  unfoldable pub after_put : Phase → Err → Phase
  after_put (acquire_put v) e = if ok_or_maybe e then acquire_check else acquire_get
  after_put (release_put v) e = if ok_or_maybe e then release_check else release_get
  after_put phase e = phase

  -- The Put that is sent on entering a phase.
  unfoldable pub request : Phase → Option PutArgs
  request (acquire_put v) = some (record { key = lock_name; value = client_id; version = v })
  request (release_put v) = some (record { key = lock_name; value = []; version = v })
  request phase = none

pub record System : Type 0 where
  pub store : Store
  pub phases : ℕ → Phase
  pub sent : List (ℕ × PutArgs)

abbrev pub send : ℕ → Option PutArgs → List (ℕ × PutArgs) → List (ℕ × PutArgs)
send i none sent = sent
send i (some args) sent = (i, args) ∷ sent

unfoldable pub start_system : System
start_system = record { store = new; phases = λ i. idle; sent = [] }

module _ (lock_name : GoString) (client_id : ℕ → GoString) where
  abbrev pub enter : System → ℕ → Phase → System
  enter s i phase = record s {
    phases = update s.phases i phase;
    sent = send i (request lock_name (client_id i) phase) s.sent;
  }

  pub data Step (s : System) : System → Type 0 where
    acquire : (i : ℕ) → s.phases i ≡ idle → Step s (enter s i acquire_get)
    release : (i : ℕ) → s.phases i ≡ holding → Step s (enter s i release_get)
    read :
        (i : ℕ)
        → reads (s.phases i) ≡ true
        → Step s (
            enter s i (
              after_get lock_name
                (client_id i)
                (s.phases i)
                (get s.store (record { key = lock_name }))))
    answer :
        (i : ℕ) (e : Err)
        → writes (s.phases i) ≡ true
        → Step s (enter s i (after_put lock_name (client_id i) (s.phases i) e))
    deliver :
        (n i : ℕ) (args : PutArgs)
        → get_elem? s.sent n ≡ some (i, args)
        → Step s (record s { store = (put s.store args).0 })
    elsewhere :
        (args : PutArgs) → args.key ≢ lock_name → Step s (record s { store = (put s.store args).0 })

  -- A run from the start, with the number of its steps.
  pub data Reach : ℕ → System → Type 0 where
    here : Reach 0 start_system
    next : {n : ℕ} {s : System} (s' : System) → Reach n s → Step s s' → Reach (suc n) s'
