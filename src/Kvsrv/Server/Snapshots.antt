-- ===== src/Kvsrv/Server/Snapshots.antt =====
-- internal/kvsrv/server.go: what Snapshot saves and Restore brings back.
use project_distributed_key.Base.{◌≡◌, refl, ap, some, List, [], ◌∷◌, arith}
use project_distributed_key.Base.Keys.{string_key}
use project_distributed_key.Gob.{Gob}
use project_distributed_key.Core.Kv.{PutArgs, Store}
use project_distributed_key.Core.Command.{
  Payload, get_op, put_op, freeze_op, install_op, delete_op, Reply,
}
use project_distributed_key.Kvsrv.Server.{get, put, do_op, SameStore, snapshot, restore}
use project_distributed_key.Kvsrv.Server.Cas.{get-put_lem, put_ok, version_of}

-- The replies to a sequence of operations.
unfoldable pub replies : Store → List Payload → List Reply
replies s [] = []
replies s (p ∷ ps) = (do_op s p).1 ∷ replies (do_op s p).0 ps

put-reply_cong : (s t : Store) (a : PutArgs) → SameStore s t → (put s a).1 ≡ (put t a).1
unfolding put
put-reply_cong s t a h = ground (arith, h a.key)

put-SameStore : (s t : Store) (a : PutArgs) → SameStore s t → SameStore (put s a).0 (put t a).0
unfolding put_ok version_of
put-SameStore s t a h k =
    ground (arith, get-put_lem s a k, get-put_lem t a k, h k, h a.key, put-reply_cong s t a h)

do_op-SameStore :
    (s t : Store) (p : Payload)
    → SameStore s t
    → ((do_op s p).1 ≡ (do_op t p).1) × SameStore (do_op s p).0 (do_op t p).0
unfolding do_op get
do_op-SameStore s t (get_op a) h = (ground (arith, h a.key), h)
do_op-SameStore s t (put_op a) h =
    (ap Reply.put_rep (put-reply_cong s t a h), put-SameStore s t a h)
do_op-SameStore s t (freeze_op a) h = (refl, h)
do_op-SameStore s t (install_op a) h = (refl, h)
do_op-SameStore s t (delete_op a) h = (refl, h)

-- Stores that hold the same values under the same keys answer every sequence of operations alike.
pub replies-SameStore :
    (s t : Store) (ps : List Payload) → SameStore s t → replies s ps ≡ replies t ps
unfolding replies
replies-SameStore s t [] h = refl
replies-SameStore s t (p ∷ ps) h =
    let one = do_op-SameStore s t p h in
    cc (one.0, replies-SameStore (do_op s p).0 (do_op t p).0 ps one.1)

module _ {B : Type 0} (gob : Gob B Store SameStore) where
  -- What Restore makes of a Snapshot exists, and answers every sequence of operations as the
  -- server that took the snapshot would.
  pub replies-restore :
      (s : Store)
      → (t : Store) × (restore gob (snapshot gob s) ≡ some t)
        × ((ps : List Payload) → replies t ps ≡ replies s ps)
  unfolding restore snapshot
  replies-restore s =
      let (t, decoded, same) = gob.decode-encode s in
      (t, ground (arith, gob.encode_nonempty s), λ ps. replies-SameStore t s ps same)
