-- ===== src/Examples/Submit.antt =====
-- internal/rsm over the state machine of internal/kvsrv, at concrete inputs.
use project_distributed_key.Base.{
  ℕ, ◌≡◌, refl, false, none, some, [], ◌∷◌, arith, if◌then◌else◌, nat_beq, get_elem?,
}
use project_distributed_key.Base.Keys.{string_key, int_key, str}
use project_distributed_key.Dict
use project_distributed_key.Dict.{get-make}
use project_distributed_key.Core.Kv.{Err, Store}
use project_distributed_key.Core.Command.{put_op, put_rep, Reply, Op, op}
use project_distributed_key.Core.Raft.{command_msg}
use project_distributed_key.Kvsrv.Server.{new, put, do_op}
use project_distributed_key.Rsm as Replicated
use project_distributed_key.Rsm.{
  StateMachine, SubResult, on_message, offer, register, unregister, receive,
}
use project_distributed_key.Rsm.History.{
  Applied, Trace, Reach, here, next, message, submit, start_trace,
}
use project_distributed_key.Rsm.Replies.{receive-Applied}
use project_distributed_key.Rsm.Missed.{apply_all, shadowed_submit_unheard}

-- The metadata server, without snapshots.
abbrev machine : StateMachine Store
machine = record { do_op = do_op; snapshot = λ s. []; restore = λ b. none }

abbrev write : Op
write = record { id = 7; payload = put_op (record { key = str "a"; value = str "x"; version = 0 }) }

unfoldable idle : Trace Store
idle = start_trace new

unfoldable waiting : Trace Store
waiting = record {
  rsm = register idle.rsm 1 0;
  applied = [];
  made = 1;
  index_of = λ ch. if◌then◌else◌ (nat_beq 0 ch) 1 0;
}

abbrev done : Reply
done = put_rep (record { err = Err.ok })

unfoldable answered : Trace Store
answered = record waiting {
  rsm = record waiting.rsm {
    sm = (do_op waiting.rsm.sm write.payload).0;
    last_applied = 1;
    channels = offer waiting.rsm.channels 0 (record { id = some 7; rep = done });
  };
  applied = record { index = 1; done = write; rep = done } ∷ [];
}

answered-Reach : Reach machine idle answered
unfolding answered waiting idle start_trace Replicated.new on_message new Dict.get Dict.put
    Dict.make do_op put offer register
answered-Reach =
    next answered (next waiting here (submit 1))
      (message false (command_msg (op write) 1) answered.rsm none refl)

receive-Applied_example :
    (n : ℕ) × (x : Applied) × (get_elem? answered.applied n ≡ some x)
    × (x.index ≡ answered.index_of 0)
    × (x.done.id ≡ 7)
    × (x.rep ≡ done)
unfolding answered waiting idle start_trace Replicated.new receive offer register Dict.get Dict.put
    Dict.make
receive-Applied_example = receive-Applied machine new answered 7 0 done answered-Reach refl

shadowed_submit_unheard_example :
    (receive
      (apply_all machine (unregister (register (register idle.rsm 1 0) 1 1) 1) ((write, 1) ∷ []))
      7
      1).1
    ≡ none
unfolding idle start_trace Replicated.new
shadowed_submit_unheard_example =
    shadowed_submit_unheard machine idle.rsm 1 0 1 7 ((write, 1) ∷ []) (get-make {V = SubResult} 1)
      (λ i e. ground (arith, get-make {V = ℕ} i))
