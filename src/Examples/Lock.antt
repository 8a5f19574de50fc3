-- ===== src/Examples/Lock.antt =====
-- internal/kvsrv/lock.go: a client that acquires a free lock.
use project_distributed_key.Base.{ℕ, ◌≡◌, refl, [], ◌∷◌, arith}
use project_distributed_key.Base.Keys.{GoString, string_key, str, bytes_beq}
use project_distributed_key.Dict
use project_distributed_key.Core.Kv.{Err, PutArgs}
use project_distributed_key.Kvsrv.Server.{new, get, put}
use project_distributed_key.Kvsrv.Lock.{
  acquire_get, System, enter, after_get, after_put, request, start_system, Reach, here, next,
  acquire, read, deliver, answer,
}
use project_distributed_key.Kvsrv.Lock.Exclusion.{one_holder}

abbrev lock_name : GoString
lock_name = str "config_lock"

abbrev client_id : ℕ → GoString
client_id i = i ∷ []

abbrev look : System → ℕ → System
look s i =
    enter lock_name client_id s i
      (after_get lock_name (client_id i) (s.phases i) (get s.store (record { key = lock_name })))

unfoldable begun : System
begun = enter lock_name client_id start_system 0 acquire_get

unfoldable asking : System
asking = look begun 0

abbrev ask : PutArgs
ask = record { key = lock_name; value = client_id 0; version = 0 }

unfoldable taken : System
taken = record asking { store = (put asking.store ask).0 }

unfoldable told : System
told = enter lock_name client_id taken 0 (after_put lock_name (client_id 0) (taken.phases 0) Err.ok)

unfoldable held : System
held = look told 0

held-Reach : Reach lock_name client_id 5 held
unfolding held told taken asking begun start_system request after_get get Dict.get new Dict.make
    after_put
held-Reach =
    next held
      (next told
        (next taken (next asking (next begun here (acquire 0 refl)) (read 0 refl))
          (deliver 0 0 ask refl))
        (answer 0 Err.ok refl))
      (read 0 refl)

one_holder_example : ◌≡◌ {A = ℕ} 0 0
unfolding held told taken asking begun after_get after_put get Dict.get start_system new Dict.make
    put Dict.put bytes_beq
one_holder_example =
    one_holder lock_name client_id 5 held 0 0 (λ k l e. ground arith) (λ k e. ground arith)
      (omega arith) held-Reach refl refl
