-- ===== src/Shardgrp/Clerk/Answers.antt =====
-- internal/shardgrp/client.go: what a clerk returns.
use project_distributed_key.Base.{
  ◌<◌, ◌^◌, ◌≡◌, refl, true, false, some, List, [], ◌∷◌, arith, Option-cases, Bool-cases, inl, inr,
  ◌⊎◌, sym, ◌∙◌,
}
use project_distributed_key.Base.Keys.{string_key, same_refl}
use project_distributed_key.Dict.{get-put}
use project_distributed_key.Core.Kv.{Err, PutArgs, GetArgs, GetReply, next_version}
use project_distributed_key.Core.Shard.{key2shard}
use project_distributed_key.Shardgrp.Server.{ShardGroup, do_get, do_put, run, or_make}
use project_distributed_key.Shardgrp.Server.Refinement.{Serves}
use project_distributed_key.Shardgrp.Clerk.{
  Outcome, dropped, reply_lost, wrong_leader, deposed, answered, Attempt, call, call_all, group_put,
  group_get, is_wrong_leader,
}

-- What other clients do before each attempt keeps a property of the group.
abbrev pub AllOthers : (ShardGroup → Type 0) → List Attempt → Type 0
AllOthers P [] = Unit {0}
AllOthers P (t ∷ ts) =
    ((g now : ShardGroup) → run g t.others ≡ some now → P g → P now) × AllOthers P ts

-- The group as it is met by a request of the schedule that is executed and answered. Each one before
-- has been executed or not, and other clients have had their turns.
abbrev pub Met :
    {R : Type 0} → (ShardGroup → ShardGroup × R) → List Attempt → ShardGroup → ShardGroup → Type 0
Met execute [] sg now = ⊥
Met execute (t ∷ ts) sg now =
    (next : ShardGroup) × (run sg t.others ≡ some next)
    × (((t.outcome ≡ answered) × (now ≡ next))
        ⊎ ((left : ShardGroup) × ((left ≡ next) ⊎ (left ≡ (execute next).0))
            × Met execute ts left now))

module _ {R : Type 0} (execute : ShardGroup → ShardGroup × R) (not_leader : R) (err : R → Err) where
  call-answer :
      (o : Outcome) (sg : ShardGroup) (reply : R)
      → is_wrong_leader (err not_leader) ≡ true
      → (call execute not_leader err o sg).1 ≡ some reply
      → is_wrong_leader (err reply) ≡ false
      → (call execute not_leader err o sg).0 ≡ (execute sg).0 × (reply ≡ (execute sg).1)
  unfolding call
  call-answer dropped sg reply w e right = absurd (ground arith)
  call-answer reply_lost sg reply w e right = absurd (ground arith)
  call-answer wrong_leader sg reply w e right = absurd (ground arith)
  call-answer deposed sg reply w e right = absurd (ground arith)
  call-answer answered sg reply w e right = (refl, ground arith)

  call-cases :
      (o : Outcome) (sg : ShardGroup)
      → ((call execute not_leader err o sg).0 ≡ sg)
        ⊎ ((call execute not_leader err o sg).0 ≡ (execute sg).0)
  unfolding call
  call-cases dropped sg = inl refl
  call-cases reply_lost sg = inr refl
  call-cases wrong_leader sg = inl refl
  call-cases deposed sg = inr refl
  call-cases answered sg = inr refl

  call-answered :
      (o : Outcome) (sg : ShardGroup) (reply : R)
      → is_wrong_leader (err not_leader) ≡ true
      → (call execute not_leader err o sg).1 ≡ some reply
      → is_wrong_leader (err reply) ≡ false
      → o ≡ answered
  unfolding call
  call-answered dropped sg reply w e right = absurd (ground arith)
  call-answered reply_lost sg reply w e right = absurd (ground arith)
  call-answered wrong_leader sg reply w e right = absurd (ground arith)
  call-answered deposed sg reply w e right = absurd (ground arith)
  call-answered answered sg reply w e right = refl

  -- What a clerk returns, and leaves behind, is the group's state machine as a request meets it that
  -- is answered.
  pub call_all-Met :
      (ts : List Attempt) (sg sg' : ShardGroup) (reply : R)
      → is_wrong_leader (err not_leader) ≡ true
      → call_all execute not_leader err ts sg ≡ (sg', some reply)
      → (now : ShardGroup) × Met execute ts sg now
        × (sg' ≡ (execute now).0)
        × (reply ≡ (execute now).1)
  unfolding call_all
  call_all-Met [] sg sg' reply w e = absurd (ground arith)
  call_all-Met (t ∷ ts) sg sg' reply w e = elim (Option-cases (run sg t.others)) [
    | inl panicked ↦ absurd (ground arith)
    | inr (next, ran) ↦
        let called = call execute not_leader err t.outcome next in
        let later : call_all execute not_leader err ts called.0 ≡ (sg', some reply)
            → (now : ShardGroup) × Met execute (t ∷ ts) sg now
              × (sg' ≡ (execute now).0)
              × (reply ≡ (execute now).1) =
          λ e'.
            let (now, met, state, answer) = call_all-Met ts called.0 sg' reply w e' in
            (now, (next, ran, inr (called.0, call-cases t.outcome next, met)), state, answer) in
        elim (Option-cases called.1) [
          | inl nothing ↦ later (ground arith)
          | inr (r, got) ↦ elim (Bool-cases (is_wrong_leader (err r))) [
            | inl wrong ↦ later (ground arith)
            | inr right ↦
                let same : r ≡ reply = ground arith in
                let left : called.0 ≡ sg' = ground arith in
                let (state, answer) = call-answer t.outcome next r w got right in
                (
                  next,
                  (next, ran, inl (call-answered t.outcome next r w got right, refl)),
                  sym left ∙ state,
                  sym same ∙ answer,
                )
          ]
        ]
  ]

  call-keeps :
      (P : ShardGroup → Type 0) (o : Outcome) (sg : ShardGroup)
      → ((g : ShardGroup) → P g → P (execute g).0)
      → P sg
      → P (call execute not_leader err o sg).0
  unfolding call
  call-keeps P dropped sg keeps h = h
  call-keeps P reply_lost sg keeps h = keeps sg h
  call-keeps P wrong_leader sg keeps h = h
  call-keeps P deposed sg keeps h = keeps sg h
  call-keeps P answered sg keeps h = keeps sg h

  -- What the request and the other clients keep, a whole call keeps.
  pub call_all-keeps :
      (P : ShardGroup → Type 0) (ts : List Attempt) (sg : ShardGroup)
      → ((g : ShardGroup) → P g → P (execute g).0)
      → AllOthers P ts
      → P sg
      → P (call_all execute not_leader err ts sg).0
  unfolding call_all
  call_all-keeps P [] sg keeps others h = h
  call_all-keeps P (t ∷ ts) sg keeps (these, others) h = elim (Option-cases (run sg t.others)) [
    | inl panicked ↦ rw (panicked, call_all) h
    | inr (now, ran) ↦
        let after = these sg now ran h in
        let called = call execute not_leader err t.outcome now in
        let here = call-keeps P t.outcome now keeps after in
        let later = call_all-keeps P ts called.0 keeps others here in
        rw (ran, call_all)
          (elim (Option-cases called.1) [
            | inl nothing ↦ rw nothing later
            | inr (r, got) ↦ elim (Bool-cases (is_wrong_leader (err r))) [
              | inl wrong ↦ rw got (rw wrong later)
              | inr right ↦ rw got (rw right here)
            ]
          ])
  ]

-- A Get in particular.
pub group_get-Met :
    (args : GetArgs) (ts : List Attempt) (sg sg' : ShardGroup) (reply : GetReply)
    → group_get args ts sg ≡ (sg', some reply)
    → (now : ShardGroup) × Met (λ g. do_get g args) ts sg now
      × (sg' ≡ (do_get now args).0)
      × (reply ≡ (do_get now args).1)
unfolding group_get
group_get-Met args ts sg sg' reply e =
    call_all-Met (λ g. do_get g args)
      (record { err = Err.err_wrong_leader; value = []; version = 0 }) (λ r. r.err) ts sg sg' reply
      refl e

-- A value, or the news that there is none, comes only from a group that served the key's shard.
pub do_get-Serves :
    (sg : ShardGroup) (args : GetArgs)
    → ((do_get sg args).1.err ≡ Err.ok) ⊎ ((do_get sg args).1.err ≡ Err.err_no_key)
    → Serves sg (key2shard args.key)
unfolding do_get
do_get-Serves sg args e = record { owned = ground arith; thawed = ground arith }

-- A Put that took effect while its reply was lost: the clerk sends it again, and returns the
-- ErrVersion of the second time as it is, which says that the Put was not done.
pub group_put_misreported :
    (args : PutArgs) (sg : ShardGroup)
    → (do_put sg args).1.err ≡ Err.ok
    → args.version < 2 ^ 64
    → (group_put args
        (record { others = []; outcome = reply_lost }
          ∷ record { others = []; outcome = answered }
          ∷ [])
        sg).1
      ≡ some (record { err = Err.err_version })
unfolding group_put call_all call run do_put
group_put_misreported args sg ok small =
    let m = or_make (sg.shards (key2shard args.key)) in
    ground (
      arith,
      get-put m args.key args.key (record { value = args.value; version = 1 }),
      get-put m args.key args.key
          (record { value = args.value; version = next_version args.version }),
      same_refl args.key,
    )
