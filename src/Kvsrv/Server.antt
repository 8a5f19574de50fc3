-- ===== src/Kvsrv/Server.antt =====
-- internal/kvsrv/server.go. A handler takes the store, which the mutex guards, and returns it with
-- the reply; the proofs are in the modules below.
pub mod Cas
pub mod Snapshots
use project_distributed_key.Base.{
  ℕ, ◌≡◌, Bool, true, false, not, Option, none, some, List, [], ◌∷◌, if◌then◌else◌, nat_beq,
}
use project_distributed_key.Base.Keys.{GoString, string_key}
use project_distributed_key.Dict
use project_distributed_key.Gob.{Gob}
use project_distributed_key.Core.Kv.{
  Err, PutArgs, PutReply, GetArgs, GetReply, VersionedValue, Store, next_version,
}
use project_distributed_key.Core.Command.{Payload, get_op, put_op, Reply, get_rep, put_rep}
use project_distributed_key.Core.Command

unfoldable pub new : Store
new = Dict.make

abbrev found : Option VersionedValue → GetReply
found none = record { err = Err.err_no_key; value = []; version = 0 }
found (some v) = record { err = Err.ok; value = v.value; version = v.version }

unfoldable pub get : Store → GetArgs → GetReply
get store args = found (Dict.get store args.key)

abbrev refuse : Store → Err → Store × PutReply
refuse store e = (store, record { err = e })

abbrev install : Store → PutArgs → ℕ → Store × PutReply
install store args version = (
  Dict.put store args.key (record { value = args.value; version = version }),
  record { err = Err.ok },
)

abbrev create : Store → PutArgs → Option VersionedValue → Store × PutReply
create store args none = install store args 1
create store args (some current) = refuse store Err.err_version

abbrev replace : Store → PutArgs → Option VersionedValue → Store × PutReply
replace store args none = refuse store Err.err_no_key
replace store args (some current) =
    if not (nat_beq current.version args.version)
    then refuse store Err.err_version
    else install store args (next_version current.version)

unfoldable pub put : Store → PutArgs → Store × PutReply
put store args =
    let current = Dict.get store args.key in
    if nat_beq args.version 0 then create store args current else replace store args current

-- StateMachine.DoOp; the `default` branch replies nil.
unfoldable pub do_op : Store → Payload → Store × Reply
do_op store (get_op args) = (store, get_rep (get store args))
do_op store (put_op args) = let (store', reply) = put store args in (store', put_rep reply)
do_op store _ = (store, Command.Reply.nil)

-- The store after a sequence of operations.
unfoldable pub run : Store → List Payload → Store
run store [] = store
run store (p ∷ ps) = run (do_op store p).0 ps

abbrev pub SameStore : Store → Store → Type 0
SameStore s t = (k : GoString) → Dict.get s k ≡ Dict.get t k

module _ {B : Type 0} (gob : Gob B Store SameStore) where
  unfoldable pub snapshot : Store → B
  snapshot store = gob.encode store

  -- `none` is the panic on bytes that do not decode.
  unfoldable pub restore : B → Option Store
  restore bytes = if nat_beq (gob.len bytes) 0 then some Dict.make else gob.decode bytes
