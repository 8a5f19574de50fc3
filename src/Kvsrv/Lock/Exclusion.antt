-- ===== src/Kvsrv/Lock/Exclusion.antt =====
-- internal/kvsrv/lock.go: mutual exclusion.
use project_distributed_key.Base.{
  ℕ, suc, ◌+◌, ◌^◌, ◌<◌, ◌≡◌, ◌≢◌, refl, sym, subst, ◌∙◌, ap, inl, inr, true, some, [], update,
  update-elim, get_elem?, arith, Bool-cases, nat_beq, nat_beq_iff,
}
use project_distributed_key.Base.Keys.{GoString, string_key, bytes_beq_iff}
use project_distributed_key.Dict
use project_distributed_key.Dict.{get-make}
use project_distributed_key.Core.Kv.{PutArgs, Store, VersionedValue, next_version}
use project_distributed_key.Kvsrv.Server.{new, put}
use project_distributed_key.Kvsrv.Server.Cas.{
  version_or, put_ok, version_of, get-put_lem, put_ok→version,
}
use project_distributed_key.Kvsrv.Lock.{
  Phase, acquire_get, holding, release_get, request, System, enter, start_system, Step, acquire,
  release, read, answer, deliver, elsewhere, Reach, here, next,
}
use project_distributed_key.Kvsrv.Lock.Invariant.{
  is_holding, is_releasing, Client, Sent, current, Inv, after_get-Client, after_get-Sent,
  after_get-request, after_put-quiet, send-cases, holding_only,
}

module _ (lock_name : GoString) (client_id : ℕ → GoString) where
  abbrev SentBy : System → ℕ → Phase → PutArgs → Type 0
  SentBy s i phase args = Sent lock_name (client_id i) (current lock_name client_id s) phase args

  -- A client that goes to another phase while the store stays.
  enter-Inv :
      {n : ℕ} {s : System} (i : ℕ) (phase : Phase)
      → Inv lock_name client_id n s
      → Client (client_id i) (current lock_name client_id s) phase
      → ((args : PutArgs) → SentBy s i (s.phases i) args → SentBy s i phase args)
      → ((args : PutArgs)
          → request lock_name (client_id i) phase ≡ some args
          → SentBy s i phase args)
      → Inv lock_name client_id (suc n) (enter lock_name client_id s i phase)
  enter-Inv {n} {s} i phase inv client kept asked =
      let phases = update s.phases i phase in
      let now : phases i ≡ phase = ground arith in
      let moved : (j : ℕ) (args : PutArgs)
          → SentBy s j (s.phases j) args
          → SentBy s j (phases j) args =
        λ j args old. elim (Bool-cases (nat_beq i j)) [
          | inl this ↦
              subst (λ k. SentBy s k (s.phases k) args → SentBy s k (phases k) args)
                ((nat_beq_iff i j).0 this) (λ x. rw now (kept args x)) old
          | inr another ↦ rw another old
        ] in
      record {
        few = omega (arith, inv.few);
        fresh = inv.fresh;
        clients =
            update-elim (λ k. Client (client_id k) (current lock_name client_id s)) s.phases i phase
              client inv.clients;
        puts = λ m j args e.
            elim (send-cases i (request lock_name (client_id i) phase) s.sent m j args e) [
              | inl (m', before) ↦ moved j args (inv.puts m' j args before)
              | inr (same, sends) ↦
                  subst (λ k. SentBy s k (phases k) args) same (rw now (asked args sends))
            ];
      }

  -- A store in which the lock reads as before.
  same-Inv :
      {n : ℕ} {s : System} (store : Store)
      → Inv lock_name client_id n s
      → Dict.get store lock_name ≡ Dict.get s.store lock_name
      → Inv lock_name client_id (suc n) (record s { store = store })
  same-Inv {n} {s} store inv same = record {
    few = rw same (omega (arith, inv.few));
    fresh = rw same inv.fresh;
    clients = λ i. rw same (inv.clients i);
    puts = λ m i args e. rw same (inv.puts m i args e);
  }

  deliver-Inv :
      {n : ℕ} {s : System} (m i : ℕ) (args : PutArgs)
      → Inv lock_name client_id n s
      → ((k l : ℕ) → client_id k ≡ client_id l → k ≡ l)
      → ((k : ℕ) → client_id k ≢ [])
      → suc n < 2 ^ 64
      → get_elem? s.sent m ≡ some (i, args)
      → put_ok s.store args ≡ true
      → Inv lock_name client_id (suc n) (record s { store = (put s.store args).0 })
  unfolding version_of
  deliver-Inv {n} {s} m i args inv distinct named small e ok =
      let mine = inv.puts m i args e in
      let hit = (bytes_beq_iff args.key lock_name).1 mine.key in
      let version : version_or (Dict.get s.store args.key) ≡ args.version =
        put_ok→version s.store args ok in
      let version' : version_or (current lock_name client_id s) ≡ args.version =
        ap (λ k. version_or (Dict.get s.store k)) (sym mine.key) ∙ version in
      let few = inv.few in
      let new_version : next_version (version_of s.store args.key) ≡ args.version + 1 =
        omega arith in
      let after : Dict.get (put s.store args).0 lock_name
          ≡ some (record { value = args.value; version = args.version + 1 }) =
        ground (arith, get-put_lem s.store args lock_name) in
      let unheld : (k : ℕ) → is_holding (s.phases k) ≡ true → ⊥ = λ k h.
        elim (mine.live (sym version')) [
          | inl (_, free) ↦ named k (sym ((inv.clients k).holds h) ∙ free)
          | inr (_, own, releasing) ↦
              let same = distinct i k (sym own ∙ (inv.clients k).holds h) in
              let not_so = holding_only (s.phases k) h in
              let so = subst (λ l. is_releasing (s.phases l) ≡ true) same releasing in ground arith
        ] in
      let now : version_or (Dict.get (put s.store args).0 lock_name) ≡ args.version + 1 =
        rw after refl in
      record {
        few = omega arith;
        fresh = rw after (omega arith);
        clients = λ k. record { holds = λ h. absurd (unheld k h) };
        puts = λ m' j args' e'.
            let old = inv.puts m' j args' e' in
            record {
              key = old.key;
              past = omega (arith, old.past);
              live = λ again. absurd (omega (arith, old.past));
            };
      }

  -- A Put of another key.
  elsewhere-Inv :
      {n : ℕ} {s : System} (args : PutArgs)
      → Inv lock_name client_id n s
      → args.key ≢ lock_name
      → Inv lock_name client_id (suc n) (record s { store = (put s.store args).0 })
  elsewhere-Inv {n} {s} args inv apart =
      same-Inv (put s.store args).0 inv
        (ground (arith, get-put_lem s.store args lock_name, bytes_beq_iff args.key lock_name))

  Step-Inv :
      {n : ℕ} {s s' : System}
      → ((k l : ℕ) → client_id k ≡ client_id l → k ≡ l)
      → ((k : ℕ) → client_id k ≢ [])
      → suc n < 2 ^ 64
      → Inv lock_name client_id n s
      → Step lock_name client_id s s'
      → Inv lock_name client_id (suc n) s'
  unfolding request
  Step-Inv {s = s} distinct named small inv (acquire i idle_) =
      enter-Inv i acquire_get inv (record { holds = λ h. absurd (ground arith) })
        (λ args old. record {
          key = old.key;
          past = old.past;
          live = λ e. ground (arith, old.live e);
        })
        (λ args asks. absurd (ground arith))
  Step-Inv {s = s} distinct named small inv (release i held) =
      enter-Inv i release_get inv (record { holds = λ h. absurd (ground arith) })
        (λ args old. record {
          key = old.key;
          past = old.past;
          live = λ e. ground (arith, old.live e);
        })
        (λ args asks. absurd (ground arith))
  Step-Inv {s = s} distinct named small inv (read i r) =
      enter-Inv i _ inv (after_get-Client lock_name (client_id i) s.store (s.phases i) r)
        (λ args. after_get-Sent lock_name (client_id i) s.store (s.phases i) args (named i) r)
        (λ args. after_get-request lock_name (client_id i) s.store (s.phases i) args r)
  Step-Inv {s = s} distinct named small inv (answer i e w) =
      let (unheld, releasing, quiet) = after_put-quiet lock_name (client_id i) (s.phases i) e w in
      enter-Inv i _ inv (record { holds = λ h. absurd (ground arith) })
        (λ args old. record {
          key = old.key;
          past = old.past;
          live = λ e'. ground (arith, old.live e');
        })
        (λ args asks. absurd (ground arith))
  Step-Inv {s = s} distinct named small inv (deliver m i args e) =
      elim (Bool-cases (put_ok s.store args)) [
        | inl ok ↦ deliver-Inv m i args inv distinct named small e ok
        | inr refused ↦
            same-Inv (put s.store args).0 inv (ground (arith, get-put_lem s.store args lock_name))
      ]
  Step-Inv distinct named small inv (elsewhere args apart) = elsewhere-Inv args inv apart

  Reach-Inv :
      {n : ℕ} {s : System}
      → ((k l : ℕ) → client_id k ≡ client_id l → k ≡ l)
      → ((k : ℕ) → client_id k ≢ [])
      → n < 2 ^ 64
      → Reach lock_name client_id n s
      → Inv lock_name client_id n s
  unfolding start_system new
  Reach-Inv distinct named small here =
      let empty = get-make {V = VersionedValue} lock_name in
      record {
        few = rw empty (omega arith);
        fresh = rw empty tt;
        clients = λ i. record { holds = λ h. absurd (ground arith) };
        puts = λ m i args e. absurd (ground arith);
      }
  Reach-Inv distinct named small (next s' r step) =
      Step-Inv distinct named small (Reach-Inv distinct named (omega arith) r) step

-- Two clients never hold the lock at once: clients with different names that are not empty, in a
-- run from an empty server of fewer than 2^64 steps, in which only they write the lock's key.
pub one_holder :
    (lock_name : GoString) (client_id : ℕ → GoString) (n : ℕ) (s : System) (i j : ℕ)
    → ((k l : ℕ) → client_id k ≡ client_id l → k ≡ l)
    → ((k : ℕ) → client_id k ≢ [])
    → n < 2 ^ 64
    → Reach lock_name client_id n s
    → s.phases i ≡ holding
    → s.phases j ≡ holding
    → i ≡ j
one_holder lock_name client_id n s i j distinct named small r holds holds' =
    let inv = Reach-Inv lock_name client_id distinct named small r in
    let mine = (inv.clients i).holds (ground arith) in
    let others = (inv.clients j).holds (ground arith) in distinct i j (sym mine ∙ others)
