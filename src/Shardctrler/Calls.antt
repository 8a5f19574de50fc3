-- ===== src/Shardctrler/Calls.antt =====
-- internal/shardctrler/controller.go: what its calls do to the groups that serve a shard.
use project_distributed_key.Base.{
  ℕ, ◌≡◌, ◌≢◌, refl, sym, ◌∙◌, ap, subst, ◌⊎◌, inl, inr, Option, none, some, List, nat_beq,
  nat_beq_iff, arith, Option-cases, Bool-cases,
}
use project_distributed_key.Base.Keys.{GoString}
use project_distributed_key.Core.Kv.{Err}
use project_distributed_key.Core.Shard.{
  FreezeShardArgs, InstallShardArgs, DeleteShardArgs, FreezeShardReply, InstallShardReply,
}
use project_distributed_key.Shardgrp.Server.{ShardGroup, do_freeze, do_install, do_delete}
use project_distributed_key.Shardgrp.Server.Refinement.{Serves}
use project_distributed_key.Shardgrp.Handlers.{no_freeze, no_install, no_delete}
use project_distributed_key.Shardgrp.Clerk.{Attempt, group_freeze, group_install, group_delete}
use project_distributed_key.Shardgrp.Clerk.Answers.{AllOthers, call_all-Met, call_all-keeps}
use project_distributed_key.Shardctrler.{
  World, Schedule, Ending, finished, failed, stuck, call, ending, is_ok, install, delete, and_then,
  after_freeze, hand_over,
}

-- One step of two that end well.
pub and_then-finished :
    (r : World × Ending) (f : World → World × Ending) (w : World)
    → and_then r f ≡ (w, finished)
    → (u : World) × (r ≡ (u, finished)) × (f u ≡ (w, finished))
and_then-finished (u, finished) f w e = (u, refl, e)
and_then-finished (u, failed) f w e = absurd (ground arith)
and_then-finished (u, stuck) f w e = absurd (ground arith)

pub Ending-cases :
    (r : World × Ending)
    → ((u : World) × (r ≡ (u, finished)))
      ⊎ ((r.1 ≢ finished) × ((f : World → World × Ending) → and_then r f ≡ r))
Ending-cases (u, finished) = inl (u, refl)
Ending-cases (u, failed) = inr (λ e. ground arith, λ f. refl)
Ending-cases (u, stuck) = inr (λ e. ground arith, λ f. refl)

-- What the calls for other shards, and other clients, leave of the groups that serve a shard.
abbrev pub Keeps : World → World → ℕ → Type 0
Keeps w w' i = (g : ℕ) → Serves (w.groups g) i → Serves (w'.groups g) i

-- While the calls of a schedule run, no one but this controller makes a group stop serving shard i.
pub record IsQuiet (calls : Schedule) (i : ℕ) : Type 0 where
  pub freezes : (j : ℕ) → AllOthers (λ sg. Serves sg i) (calls.freezes j)
  pub installs : (j : ℕ) → AllOthers (λ sg. Serves sg i) (calls.installs j)
  pub deletes : (j : ℕ) → AllOthers (λ sg. Serves sg i) (calls.deletes j)

call-Keeps :
    {R : Type 0} (w : World) (g : Option ℕ) (f : ShardGroup → ShardGroup × Option R) (i : ℕ)
    → ((sg : ShardGroup) → Serves sg i → Serves (f sg).0 i)
    → Keeps w (call w g f).0 i
call-Keeps w none f i keeps d h = h
call-Keeps w (some g) f i keeps d h = elim (Bool-cases (nat_beq g d)) [
  | inl same ↦ let e : g ≡ d = (nat_beq_iff g d).0 same in rw same (keeps (w.groups g) (rw e h))
  | inr other ↦ rw other h
]

-- The requests for one shard leave every other one.
do_freeze-Serves :
    (sg : ShardGroup) (args : FreezeShardArgs) (i : ℕ)
    → args.shard ≢ i
    → Serves sg i
    → Serves (do_freeze sg args).0 i
unfolding do_freeze
do_freeze-Serves sg args i apart h = record { owned = ground arith; thawed = ground arith }

do_install-Serves :
    (sg : ShardGroup) (args : InstallShardArgs) (i : ℕ)
    → Serves sg i
    → Serves (do_install sg args).0 i
unfolding do_install
do_install-Serves sg args i h = record { owned = ground arith; thawed = ground arith }

do_delete-Serves :
    (sg : ShardGroup) (args : DeleteShardArgs) (i : ℕ)
    → args.shard ≢ i
    → Serves sg i
    → Serves (do_delete sg args).0 i
unfolding do_delete
do_delete-Serves sg args i apart h = record { owned = ground arith; thawed = ground arith }

pub install-Keeps :
    (w : World) (g : Option ℕ) (args : InstallShardArgs) (ts : List Attempt) (i : ℕ)
    → AllOthers (λ sg. Serves sg i) ts
    → Keeps w (install w g args ts).0 i
unfolding install group_install
install-Keeps w g args ts i quiet = call-Keeps w g (group_install args ts) i (λ sg h.
    call_all-keeps (λ t. do_install t args) no_install (λ r. r.err) (λ t. Serves t i) ts sg
      (λ t k. do_install-Serves t args i k) quiet h)

delete-Keeps :
    (w : World) (g : Option ℕ) (args : DeleteShardArgs) (ts : List Attempt) (i : ℕ)
    → args.shard ≢ i
    → AllOthers (λ sg. Serves sg i) ts
    → Keeps w (delete w g args ts).0 i
unfolding delete group_delete
delete-Keeps w g args ts i apart quiet = call-Keeps w g (group_delete args ts) i (λ sg h.
    call_all-keeps (λ t. do_delete t args) no_delete (λ r. r.err) (λ t. Serves t i) ts sg
      (λ t k. do_delete-Serves t args i apart k) quiet h)

freeze-Keeps :
    (w : World) (g : Option ℕ) (args : FreezeShardArgs) (ts : List Attempt) (i : ℕ)
    → args.shard ≢ i
    → AllOthers (λ sg. Serves sg i) ts
    → Keeps w (call w g (group_freeze args ts)).0 i
unfolding group_freeze
freeze-Keeps w g args ts i apart quiet = call-Keeps w g (group_freeze args ts) i (λ sg h.
    call_all-keeps (λ t. do_freeze t args) no_freeze (λ r. r.err) (λ t. Serves t i) ts sg
      (λ t k. do_freeze-Serves t args i apart k) quiet h)

do_install_ok :
    (sg : ShardGroup) (args : InstallShardArgs)
    → (do_install sg args).1.err ≡ Err.ok
    → Serves (do_install sg args).0 args.shard
unfolding do_install
do_install_ok sg args e = record { owned = ground arith; thawed = ground arith }

pub ending-finished : (o : Option Err) → ending o ≡ finished → o ≡ some Err.ok
ending-finished none e = absurd (ground arith)
ending-finished (some Err.unset) e = absurd (ground arith)
ending-finished (some Err.ok) e = refl
ending-finished (some Err.err_no_key) e = absurd (ground arith)
ending-finished (some Err.err_version) e = absurd (ground arith)
ending-finished (some Err.err_maybe) e = absurd (ground arith)
ending-finished (some Err.err_wrong_leader) e = absurd (ground arith)
ending-finished (some Err.err_wrong_group) e = absurd (ground arith)
ending-finished (some Err.err_frozen) e = absurd (ground arith)

group_install_ok :
    (args : InstallShardArgs) (ts : List Attempt) (sg sg' : ShardGroup) (reply : InstallShardReply)
    → group_install args ts sg ≡ (sg', some reply)
    → reply.err ≡ Err.ok
    → Serves sg' args.shard
unfolding group_install
group_install_ok args ts sg sg' reply e ok =
    let (now, _, state, answer) =
      call_all-Met (λ t. do_install t args) no_install (λ r. r.err) ts sg sg' reply refl e in
    rw state (do_install_ok now args (ap (λ r. r.err) (sym answer) ∙ ok))

pub install-finished :
    (w w' : World) (d : ℕ) (args : InstallShardArgs) (ts : List Attempt)
    → install w (some d) args ts ≡ (w', finished)
    → Serves (w'.groups d) args.shard
unfolding install
install-finished w w' d args ts e =
    let r = group_install args ts (w.groups d) in
    elim (Option-cases r.1) [
      | inl silent ↦ absurd (ground arith)
      | inr (reply, got) ↦
          let well = ending-finished (some reply.err) (ground arith) in
          let serves =
            group_install_ok args ts (w.groups d) r.0 reply (ground arith) (ground arith) in
          let here : w'.groups d ≡ r.0 = ground arith in rw here serves
    ]

delete_elsewhere :
    (w : World) (src : Option ℕ) (d : ℕ) (args : DeleteShardArgs) (ts : List Attempt)
    → src ≢ some d
    → (delete w src args ts).0.groups d ≡ w.groups d
unfolding delete
delete_elsewhere w none d args ts apart = refl
delete_elsewhere w (some s) d args ts apart =
    let differ : s ≢ d = λ same. apart (ap (λ x. some x) same) in ground arith

pub and_then-Keeps :
    (w : World) (r : World × Ending) (f : World → World × Ending) (i : ℕ)
    → Keeps w r.0 i
    → ((u : World) → Keeps u (f u).0 i)
    → Keeps w (and_then r f).0 i
and_then-Keeps w (u, finished) f i first later g h = later u g (first g h)
and_then-Keeps w (u, failed) f i first later g h = first g h
and_then-Keeps w (u, stuck) f i first later g h = first g h

module _ (locate : List GoString → Option ℕ) (calls : Schedule) where
  after_freeze-Serves :
      (src : Option ℕ) (d shard num : ℕ) (w w' : World) (frozen : Option FreezeShardReply)
      → src ≢ some d
      → after_freeze locate calls src (some d) shard num w frozen ≡ (w', finished)
      → Serves (w'.groups d) shard
  unfolding after_freeze
  after_freeze-Serves src d shard num w w' none apart e = absurd (ground arith)
  after_freeze-Serves src d shard num w w' (some reply) apart e =
      let args : InstallShardArgs = record {
        shard = shard;
        config_num = num;
        contents = reply.contents;
      } in
      let deleting : DeleteShardArgs = record { shard = shard; config_num = num } in
      elim (Bool-cases (is_ok reply.err)) [
        | inl ok ↦
            let (u, installed, deleted) =
              and_then-finished (install w (some d) args (calls.installs shard))
                (λ v. delete v src deleting (calls.deletes shard)) w' (rw ok at e) in
            let serves = install-finished w u d args (calls.installs shard) installed in
            let same = delete_elsewhere u src d deleting (calls.deletes shard) apart in
            let end : (delete u src deleting (calls.deletes shard)).0.groups d ≡ w'.groups d =
              ap (λ r. r.0.groups d) deleted in
            subst (λ sg. Serves sg shard) (sym same ∙ end) serves
        | inr bad ↦ absurd (ground arith)
      ]

  after_freeze-Keeps :
      (src dst : Option ℕ) (shard num i : ℕ) (w : World) (frozen : Option FreezeShardReply)
      → IsQuiet calls i
      → shard ≢ i
      → Keeps w (after_freeze locate calls src dst shard num w frozen).0 i
  unfolding after_freeze
  after_freeze-Keeps src dst shard num i w none quiet apart g h = h
  after_freeze-Keeps src dst shard num i w (some reply) quiet apart g h =
      let args : InstallShardArgs = record {
        shard = shard;
        config_num = num;
        contents = reply.contents;
      } in
      let deleting : DeleteShardArgs = record { shard = shard; config_num = num } in
      elim (Bool-cases (is_ok reply.err)) [
        | inl ok ↦ rw ok (
            and_then-Keeps w (install w dst args (calls.installs shard))
              (λ v. delete v src deleting (calls.deletes shard)) i
              (install-Keeps w dst args (calls.installs shard) i (quiet.installs shard))
              (λ u. delete-Keeps u src deleting (calls.deletes shard) i apart (quiet.deletes shard))
              g h)
        | inr bad ↦ rw bad h
      ]

  pub hand_over-Serves :
      (src : Option ℕ) (d shard num : ℕ) (w w' : World)
      → src ≢ some d
      → hand_over locate calls src (some d) shard num w ≡ (w', finished)
      → Serves (w'.groups d) shard
  unfolding hand_over
  hand_over-Serves src d shard num w w' apart e =
      let frozen =
        call w src
          (group_freeze (record { shard = shard; config_num = num }) (calls.freezes shard)) in
      after_freeze-Serves src d shard num frozen.0 w' frozen.1 apart e

  pub hand_over-Keeps :
      (src dst : Option ℕ) (shard num i : ℕ) (w : World)
      → IsQuiet calls i
      → shard ≢ i
      → Keeps w (hand_over locate calls src dst shard num w).0 i
  unfolding hand_over
  hand_over-Keeps src dst shard num i w quiet apart g h =
      let freeze : FreezeShardArgs = record { shard = shard; config_num = num } in
      let frozen = call w src (group_freeze freeze (calls.freezes shard)) in
      after_freeze-Keeps src dst shard num i frozen.0 frozen.1 quiet apart g
        (freeze-Keeps w src freeze (calls.freezes shard) i apart (quiet.freezes shard) g h)
