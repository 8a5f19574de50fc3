-- ===== src/Rsm.antt =====
-- internal/rsm/rsm.go. A channel of capacity 1 is a number, and a map holds what is in it. Submit is
-- its locked sections: `register` after Raft's Start has given the index, `receive` and `tick` for
-- the two cases of its select, `unregister` when it returns.
pub mod History
pub mod Replies
pub mod Missed
pub mod Restart
use project_distributed_key.Base.{
  ℕ, ◌+◌, ◌≡◌, Bool, true, false, not, ◌||◌, Option, none, some, List, [], ◌∷◌, if◌then◌else◌,
  nat_beq, ltb, leb,
}
use project_distributed_key.Base.Keys.{GoString, int_key, ◌==◌}
use project_distributed_key.Base.Options.{◌>>=◌}
use project_distributed_key.Dict
use project_distributed_key.Dict.{Dict}
use project_distributed_key.Core.Command.{Payload, Reply, Op, vacant, op}
use project_distributed_key.Core.Command
use project_distributed_key.Core.Raft.{ApplyMsg, command_msg, snapshot_msg}

-- core.StateMachine; `none` is a panic of Restore.
pub record StateMachine (S : Type 0) : Type 0 where
  pub do_op : S → Payload → S × Reply
  pub snapshot : S → GoString
  pub restore : GoString → Option S

-- An id of `none` is the code's -1.
pub record SubResult : Type 0 where
  pub id : Option ℕ
  pub rep : Reply

pub record Rsm (S : Type 0) : Type 0 where
  pub sm : S
  pub last_applied : ℕ
  pub notify : Dict ℕ ℕ  -- index of the log to channel
  pub channels : Dict ℕ SubResult

unfoldable pub new : {S : Type 0} → S → Rsm S
new s = record { sm = s; last_applied = 0; notify = Dict.make; channels = Dict.make }

-- select { case ch <- res: default: }
unfoldable pub offer : Dict ℕ SubResult → ℕ → SubResult → Dict ℕ SubResult
offer channels ch res = elim (Dict.get channels ch) [
  | none ↦ Dict.put channels ch res
  | some waiting ↦ channels
]

abbrev pub lost : SubResult
lost = record { id = none; rep = Command.Reply.nil }

-- The loops that tell every Submit which the test picks that its operation is lost.
unfoldable pub wake : (ℕ → Bool) → List (ℕ × ℕ) → Dict ℕ SubResult → Dict ℕ SubResult
wake concerned [] channels = channels
wake concerned ((idx, ch) ∷ rest) channels =
    wake concerned rest (if concerned idx then offer channels ch lost else channels)

module _ {S : Type 0} (machine : StateMachine S) where
  abbrev answer : Dict ℕ SubResult → Option ℕ → SubResult → Dict ℕ SubResult
  answer channels none res = channels
  answer channels (some ch) res = offer channels ch res

  -- One round of `reader`, and the snapshot that it gives to Raft. `full` is the test of the size of
  -- Raft's state.
  unfoldable pub on_message : Bool → Rsm S → ApplyMsg → Option (Rsm S × Option (ℕ × GoString))
  on_message full r (command_msg vacant idx) = some (r, none)
  on_message full r (command_msg (op o) idx) =
      let (sm, rep) = machine.do_op r.sm o.payload in
      some (
        record r {
          sm = sm;
          last_applied = idx;
          channels =
              answer r.channels (Dict.get r.notify idx) (record { id = some o.id; rep = rep });
        },
        if full then some (idx, machine.snapshot sm) else none,
      )
  on_message full r (snapshot_msg snapshot term idx) =
      if ltb r.last_applied idx
      then (machine.restore snapshot >>= λ sm. some (
        record r {
          sm = sm;
          last_applied = idx;
          channels = wake (λ i. leb i idx) r.notify.entries r.channels;
        },
        none,
      ))
      else some (r, none)

-- The end of `reader`, when applyCh is closed.
unfoldable pub on_close : {S : Type 0} → Rsm S → Rsm S
on_close r = record r { channels = wake (λ i. true) r.notify.entries r.channels }

-- ch is a channel that make has just given.
unfoldable pub register : {S : Type 0} → Rsm S → ℕ → ℕ → Rsm S
register r index ch = record r { notify = Dict.put r.notify index ch }

unfoldable pub unregister : {S : Type 0} → Rsm S → ℕ → Rsm S
unregister r index = record r { notify = Dict.remove r.notify index }

-- What Submit returns; `none` waits on.
pub data Submitted : Type 0 where
  replied : Reply → Submitted
  failed : Submitted

unfoldable pub receive : {S : Type 0} → Rsm S → ℕ → ℕ → Rsm S × Option Submitted
receive r id ch = elim (Dict.get r.channels ch) [
  | none ↦ (r, none)
  | some res ↦ (
    record r { channels = Dict.remove r.channels ch },
    some
        (elim res.id [ none ↦ failed | some i ↦ if nat_beq i id then replied res.rep else failed ]),
  )
]

unfoldable pub tick : ℕ → ℕ → Bool → Option Submitted
tick term current_term is_leader =
    if not is_leader || not (nat_beq current_term term) then some failed else none
