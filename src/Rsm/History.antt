-- ===== src/Rsm/History.antt =====
-- internal/rsm/rsm.go: the reader with the history of what it has applied, and what a channel can
-- hold.
use project_distributed_key.Base.{
  ℕ, suc, ◌<◌, ◌≡◌, refl, sym, subst, ◌∙◌, ap, ◌⊎◌, inl, inr, Bool, Option, some, List, [], ◌∷◌,
  nat_beq_iff, update, arith, Option-cases, Bool-cases, ltb, leb, get_elem?,
}
use project_distributed_key.Base.Keys.{GoString, int_key}
use project_distributed_key.Dict
use project_distributed_key.Dict.{Dict, get-put}
use project_distributed_key.Core.Command.{Reply, Op, vacant, op}
use project_distributed_key.Core.Raft.{ApplyMsg, command_msg, snapshot_msg}
use project_distributed_key.Rsm.{
  StateMachine, SubResult, Rsm, new, offer, lost, wake, on_message, on_close, register, unregister,
  receive, answer,
}

-- An operation that the reader has applied.
pub record Applied : Type 0 where
  pub index : ℕ
  pub done : Op
  pub rep : Reply

-- The RSM with its history: what was applied, newest first, and the index for which each channel was
-- made.
pub record Trace (S : Type 0) : Type 0 where
  pub rsm : Rsm S
  pub applied : List Applied
  pub made : ℕ
  pub index_of : ℕ → ℕ

module _ {S : Type 0} (machine : StateMachine S) where
  abbrev record_applied : S → ApplyMsg → List Applied → List Applied
  record_applied s (command_msg (op o) idx) l =
      record { index = idx; done = o; rep = (machine.do_op s o.payload).1 } ∷ l
  record_applied s _ l = l

  pub data Step (a : Trace S) : Trace S → Type 0 where
    message :
        (full : Bool) (msg : ApplyMsg) (r : Rsm S) (snapshot : Option (ℕ × GoString))
        → on_message machine full a.rsm msg ≡ some (r, snapshot)
        → Step a (record a { rsm = r; applied = record_applied a.rsm.sm msg a.applied })
    close : Step a (record a { rsm = on_close a.rsm })
    submit :
        (index : ℕ)
        → Step a (record a {
          rsm = register a.rsm index a.made;
          made = suc a.made;
          index_of = update a.index_of a.made index;
        })
    take : (id ch : ℕ) → Step a (record a { rsm = (receive a.rsm id ch).0 })
    leave : (index : ℕ) → Step a (record a { rsm = unregister a.rsm index })

  pub data Reach (a : Trace S) : Trace S → Type 0 where
    here : Reach a a
    next : {b : Trace S} (b' : Trace S) → Reach a b → Step b b' → Reach a b'

unfoldable pub start_trace : {S : Type 0} → S → Trace S
start_trace s = record { rsm = new s; applied = []; made = 0; index_of = λ ch. 0 }

-- The result came from an applied operation of that id at that index.
abbrev From : List Applied → ℕ → SubResult → Type 0
From applied index res =
    (id : ℕ)
    → res.id ≡ some id
    → (n : ℕ) × (x : Applied) × (get_elem? applied n ≡ some x)
      × (x.index ≡ index)
      × (x.done.id ≡ id)
      × (x.rep ≡ res.rep)

pub record Inv {S : Type 0} (a : Trace S) : Type 0 where
  pub waits :
      (index ch : ℕ)
      → Dict.get a.rsm.notify index ≡ some ch
      → (a.index_of ch ≡ index) × (ch < a.made)
  pub used :
      (ch id : ℕ) (res : SubResult)
      → Dict.get a.rsm.channels ch ≡ some res
      → res.id ≡ some id
      → ch < a.made
  pub from :
      (ch : ℕ) (res : SubResult)
      → Dict.get a.rsm.channels ch ≡ some res
      → From a.applied (a.index_of ch) res

-- What is in a channel after an offer was in it before or is what was offered.
offer-cases :
    (channels : Dict ℕ SubResult) (ch i : ℕ) (new res : SubResult)
    → Dict.get (offer channels ch new) i ≡ some res
    → (Dict.get channels i ≡ some res) ⊎ ((ch ≡ i) × (new ≡ res))
unfolding offer
offer-cases channels ch i new res e = ground (arith, get-put channels ch i new, nat_beq_iff ch i)

pub wake-cases :
    (concerned : ℕ → Bool) (waiting : List (ℕ × ℕ)) (channels : Dict ℕ SubResult) (i : ℕ)
    (res : SubResult)
    → Dict.get (wake concerned waiting channels) i ≡ some res
    → (Dict.get channels i ≡ some res) ⊎ (lost ≡ res)
unfolding wake
wake-cases concerned [] channels i res e = inl e
wake-cases concerned ((idx, ch) ∷ rest) channels i res e = elim (Bool-cases (concerned idx)) [
  | inl told ↦ elim (wake-cases concerned rest (offer channels ch lost) i res (ground arith)) [
    | inl before ↦ elim (offer-cases channels ch i lost res before) [
      | inl old ↦ inl old
      | inr (_, same) ↦ inr same
    ]
    | inr same ↦ inr same
  ]
  | inr untold ↦ wake-cases concerned rest channels i res (ground arith)
]

From-grows :
    (applied : List Applied) (index : ℕ) (res : SubResult) (x : Applied)
    → From applied index res
    → From (x ∷ applied) index res
From-grows applied index res x f id e =
    let (n, y, at, place, name, same) = f id e in (suc n, y, at, place, name, same)

-- Channels in which no more than losses are new.
pub quiet-Inv :
    {S : Type 0} {a : Trace S} (sm : S) (last : ℕ) (channels : Dict ℕ SubResult)
    → Inv a
    → ((ch : ℕ) (res : SubResult)
        → Dict.get channels ch ≡ some res
        → (Dict.get a.rsm.channels ch ≡ some res) ⊎ (lost ≡ res))
    → Inv (record a { rsm = record a.rsm { sm = sm; last_applied = last; channels = channels } })
quiet-Inv {a = a} sm last channels inv few = record {
  waits = inv.waits;
  used = λ ch id res e i. elim (few ch res e) [
    | inl old ↦ inv.used ch id res old i
    | inr same ↦ absurd (ground arith)
  ];
  from = λ ch res e. elim (few ch res e) [
    | inl old ↦ inv.from ch res old
    | inr same ↦ λ id i. absurd (ground arith)
  ];
}

answer-Inv :
    {S : Type 0} {a : Trace S} (machine : StateMachine S) (sm : S) (idx : ℕ) (o : Op) (rep : Reply)
    → Inv a
    → Inv (record a {
      rsm = record a.rsm {
        sm = sm;
        last_applied = idx;
        channels =
            answer machine a.rsm.channels
              (Dict.get a.rsm.notify idx)
              (record { id = some o.id; rep = rep });
      };
      applied = record { index = idx; done = o; rep = rep } ∷ a.applied;
    })
answer-Inv {a = a} machine sm idx o rep inv =
    let x : Applied = record { index = idx; done = o; rep = rep } in
    let result : SubResult = record { id = some o.id; rep = rep } in
    elim (Option-cases (Dict.get a.rsm.notify idx)) [
      | inl nobody ↦ rw nobody (record {
        waits = inv.waits;
        used = inv.used;
        from = λ ch res e. From-grows a.applied (a.index_of ch) res x (inv.from ch res e);
      })
      | inr (w, waiter) ↦
          let (mine, known) = inv.waits idx w waiter in
          rw waiter (record {
            waits = inv.waits;
            used = λ ch id res e i. elim (offer-cases a.rsm.channels w ch result res e) [
              | inl old ↦ inv.used ch id res old i
              | inr (there, same) ↦ omega arith
            ];
            from = λ ch res e. elim (offer-cases a.rsm.channels w ch result res e) [
              | inl old ↦ From-grows a.applied (a.index_of ch) res x (inv.from ch res old)
              | inr (there, same) ↦
                  λ id i. (0, x, refl, sym mine ∙ ap a.index_of there, ground arith, ground arith)
            ];
          })
    ]

pub message-Inv :
    {S : Type 0} {a : Trace S} (machine : StateMachine S) (full : Bool) (msg : ApplyMsg) (r : Rsm S)
    (snapshot : Option (ℕ × GoString))
    → Inv a
    → on_message machine full a.rsm msg ≡ some (r, snapshot)
    → Inv (record a { rsm = r; applied = record_applied machine a.rsm.sm msg a.applied })
unfolding on_message
message-Inv {a = a} machine full (command_msg vacant idx) r snapshot inv e =
    let same : a.rsm ≡ r = ground arith in subst (λ r'. Inv (record a { rsm = r' })) same inv
message-Inv {a = a} machine full (command_msg (op o) idx) r snapshot inv e =
    let (sm, rep) = machine.do_op a.rsm.sm o.payload in
    let same : record a.rsm {
      sm = sm;
      last_applied = idx;
      channels =
          answer machine a.rsm.channels (Dict.get a.rsm.notify idx)
            (record { id = some o.id; rep = rep });
    }
        ≡ r =
      ground arith in
    subst
      (λ r'.
        Inv (record a {
          rsm = r';
          applied = record { index = idx; done = o; rep = rep } ∷ a.applied;
        }))
      same (answer-Inv machine sm idx o rep inv)
message-Inv {a = a} machine full (snapshot_msg image term idx) r snapshot inv e =
    elim (Bool-cases (ltb a.rsm.last_applied idx)) [
      | inl newer ↦ elim (Option-cases (machine.restore image)) [
        | inl panicked ↦ absurd (ground arith)
        | inr (sm, restored) ↦
            let channels = wake (λ i. leb i idx) a.rsm.notify.entries a.rsm.channels in
            let same : record a.rsm { sm = sm; last_applied = idx; channels = channels } ≡ r =
              ground arith in
            subst (λ r'. Inv (record a { rsm = r' })) same
              (quiet-Inv sm idx channels inv
                (wake-cases (λ i. leb i idx) a.rsm.notify.entries a.rsm.channels))
      ]
      | inr stale ↦
          let same : a.rsm ≡ r = ground arith in subst (λ r'. Inv (record a { rsm = r' })) same inv
    ]
