-- ===== src/Kvsrv/Lock/Invariant.antt =====
-- internal/kvsrv/lock.go: what every run of the lock's clients keeps true. A holder's name is the
-- lock's value, and a Put that can still succeed asks for a free lock or frees its sender's.
use project_distributed_key.Base.{
  ℕ, zero, suc, ◌≤◌, ◌≡◌, ◌≢◌, ◌⊎◌, inl, inr, Bool, true, false, Option, none, some, List, [],
  get_elem?, arith,
}
use project_distributed_key.Base.Keys.{GoString, string_key, bytes_beq_iff}
use project_distributed_key.Dict
use project_distributed_key.Dict.{get-make}
use project_distributed_key.Core.Kv.{Err, PutArgs, Store, VersionedValue}
use project_distributed_key.Kvsrv.Server.{new, get}
use project_distributed_key.Kvsrv.Server.Cas.{version_or, Fresh}
use project_distributed_key.Kvsrv.Lock.{
  Phase, holding, release_get, release_check, release_put, reads, writes, after_get, after_put,
  request, System, send,
}

abbrev pub value_or : Option VersionedValue → GoString
value_or none = []
value_or (some v) = v.value

abbrev pub is_holding : Phase → Bool
is_holding holding = true
is_holding _ = false

abbrev pub is_releasing : Phase → Bool
is_releasing release_get = true
is_releasing (release_put v) = true
is_releasing release_check = true
is_releasing _ = false

-- What is true of a client whose lock reads as `current`.
pub record Client (client_id : GoString) (current : Option VersionedValue) (phase : Phase)
    : Type 0 where
  pub holds : is_holding phase ≡ true → value_or current ≡ client_id

-- A Put that has been sent is out of date, or asks for a free lock, or frees its client's.
pub record Sent (lock_name client_id : GoString) (current : Option VersionedValue) (phase : Phase)
    (args : PutArgs) : Type 0 where
  pub key : args.key ≡ lock_name
  pub past : args.version ≤ version_or current
  pub live :
      args.version ≡ version_or current
      → ((args.value ≡ client_id) × (value_or current ≡ []))
        ⊎ ((args.value ≡ []) × (value_or current ≡ client_id) × (is_releasing phase ≡ true))

module _ (lock_name : GoString) (client_id : ℕ → GoString) where
  abbrev pub current : System → Option VersionedValue
  current s = Dict.get s.store lock_name

  pub record Inv (n : ℕ) (s : System) : Type 0 where
    pub few : version_or (current s) ≤ n
    pub fresh : Fresh (current s)
    pub clients : (i : ℕ) → Client (client_id i) (current s) (s.phases i)
    pub puts :
        (m i : ℕ) (args : PutArgs)
        → get_elem? s.sent m ≡ some (i, args)
        → Sent lock_name (client_id i) (current s) (s.phases i) args

-- One client's answer to a Get: it holds the lock only if it read its own name, and what it sends
-- names the version that it read.
pub after_get-Client :
    (lock_name client_id : GoString) (s : Store) (phase : Phase)
    → reads phase ≡ true
    → Client client_id
        (Dict.get s lock_name)
        (after_get lock_name client_id phase (get s (record { key = lock_name })))
unfolding after_get get
after_get-Client lock_name client_id s phase r = record {
  holds = λ h. ground (arith, bytes_beq_iff (value_or (Dict.get s lock_name)) client_id);
}

pub after_get-Sent :
    (lock_name client_id : GoString) (s : Store) (phase : Phase) (args : PutArgs)
    → client_id ≢ []
    → reads phase ≡ true
    → Sent lock_name client_id (Dict.get s lock_name) phase args
    → Sent lock_name client_id
        (Dict.get s lock_name)
        (after_get lock_name client_id phase (get s (record { key = lock_name })))
        args
unfolding after_get get
after_get-Sent lock_name client_id s phase args named r old = record {
  key = old.key;
  past = old.past;
  live = λ e. ground (
    arith,
    old.live e,
    named,
    bytes_beq_iff (value_or (Dict.get s lock_name)) client_id,
    bytes_beq_iff (value_or (Dict.get s lock_name)) [],
  );
}

pub after_get-request :
    (lock_name client_id : GoString) (s : Store) (phase : Phase) (args : PutArgs)
    → reads phase ≡ true
    → request lock_name client_id
        (after_get lock_name client_id phase (get s (record { key = lock_name })))
      ≡ some args
    → Sent lock_name client_id
        (Dict.get s lock_name)
        (after_get lock_name client_id phase (get s (record { key = lock_name })))
        args
unfolding after_get get request
after_get-request lock_name client_id s phase args r e = record {
  key = ground arith;
  past = ground arith;
  live = λ same. ground (
    arith,
    bytes_beq_iff (value_or (Dict.get s lock_name)) client_id,
    bytes_beq_iff (value_or (Dict.get s lock_name)) [],
  );
}

pub after_put-quiet :
    (lock_name client_id : GoString) (phase : Phase) (e : Err)
    → writes phase ≡ true
    → (is_holding (after_put lock_name client_id phase e) ≡ false)
      × (is_releasing (after_put lock_name client_id phase e) ≡ is_releasing phase)
      × (request lock_name client_id (after_put lock_name client_id phase e) ≡ none)
unfolding after_put request
after_put-quiet lock_name client_id phase e w = ground arith

pub send-cases :
    (i : ℕ) (r : Option PutArgs) (sent : List (ℕ × PutArgs)) (m j : ℕ) (args : PutArgs)
    → get_elem? (send i r sent) m ≡ some (j, args)
    → ((m' : ℕ) × (get_elem? sent m' ≡ some (j, args))) ⊎ ((i ≡ j) × (r ≡ some args))
send-cases i none sent m j args e = inl (m, e)
send-cases i (some new) sent zero j args e = inr (ground arith)
send-cases i (some new) sent (suc m) j args e = inl (m, e)

pub holding_only : (p : Phase) → is_holding p ≡ true → is_releasing p ≡ false
holding_only p h = ground arith
