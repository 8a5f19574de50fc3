-- ===== src/Shardctrlrd/Changes.antt =====
-- cmd/shardctrlrd/main.go: when the command finds a change of the groups, and what it then asks for.
use project_distributed_key.Base.{
  ℕ, ◌+◌, ◌≤◌, ◌≡◌, ◌↔◌, refl, sym, ap, subst, ◌∙◌, inl, inr, false, some, List, [], ◌∷◌, arith,
  nat_beq, length, Bool-cases, Option-cases,
}
use project_distributed_key.Base.Keys.{GoString, int_key, bytes_beq_iff, string_key}
use project_distributed_key.Dict
use project_distributed_key.Dict.{Dict}
use project_distributed_key.Core.Shard.{n_shards, ShardConfig}
use project_distributed_key.Shardctrler.RoundRobin.{keys}
use project_distributed_key.Shardctrler.RoundRobin.Balance.{
  Has, Distinct, shards_of, sorted_assign_even,
}
use project_distributed_key.Shardctrlrd.{
  servers_differ, some_group_differs, differ, target_of, startup, change_to,
}
use project_distributed_key.Shardctrlrd.Entries.{
  Entries, lookup, lookup-cons, without, lookup-without, Has-lookup, without-Distinct,
  length-without,
}

-- Every entry of the second list is in the first.
abbrev Matches : Entries → Entries → Type 0
Matches a [] = Unit {0}
Matches a ((k, v) ∷ rest) = (lookup a k ≡ some v) × Matches a rest

Matches-without : (a b : Entries) (k : ℕ) → Matches a b → ¬ Has k (keys b) → Matches (without a k) b
Matches-without a [] k m fresh = tt
Matches-without a ((j, v) ∷ b) k (found, m) fresh =
    let apart : nat_beq k j ≡ false = elim (Bool-cases (nat_beq k j)) [
      | inl same ↦ absurd (fresh (inl (ground arith)))
      | inr other ↦ other
    ] in
    (ground (arith, lookup-without a k j), Matches-without a b k m (λ h. fresh (inr h)))

Matches-length-le :
    (a b : Entries) → Distinct (keys a) → Distinct (keys b) → Matches a b → length b ≤ length a
Matches-length-le a [] da db m = omega arith
Matches-length-le a ((k, v) ∷ b) da (fresh, db) (found, m) =
    let less = length-without a k da (Has-lookup a k v found) in
    let ih =
      Matches-length-le (without a k) b (without-Distinct a k da) db
        (Matches-without a b k m fresh) in
    omega arith

-- If the two are as long, they read alike.
Matches-lookup :
    (a b : Entries)
    → Distinct (keys a)
    → Distinct (keys b)
    → Matches a b
    → length a ≡ length b
    → (i : ℕ) → lookup a i ≡ lookup b i
Matches-lookup [] [] da db m e i = refl
Matches-lookup (x ∷ a) [] da db m e i = absurd (omega arith)
Matches-lookup a ((k, v) ∷ b) da (fresh, db) (found, m) e i =
    let less = length-without a k da (Has-lookup a k v found) in
    let ih =
      Matches-lookup (without a k) b (without-Distinct a k da) db (Matches-without a b k m fresh)
        (omega arith) i in
    elim (Bool-cases (nat_beq k i)) [
      | inl same ↦
          let at : k ≡ i = ground arith in
          let here : lookup a i ≡ some v = sym (ap (lookup a) at) ∙ found in
          ground (arith, lookup-cons k i v b)
      | inr other ↦ ground (arith, lookup-without a k i, lookup-cons k i v b)
    ]

-- A map with the same contents matches.
lookup-Matches :
    (a b : Entries)
    → Distinct (keys b)
    → ((i : ℕ) → Has i (keys b) → lookup a i ≡ lookup b i)
    → Matches a b
lookup-Matches a [] db same = tt
lookup-Matches a ((k, v) ∷ b) (fresh, db) same = (
  same k (inl refl) ∙ ground (arith, lookup-cons k k v b),
  lookup-Matches a b db (λ i h. same i (inr h) ∙ later i h),
)
  where
    later : (i : ℕ) → Has i (keys b) → lookup ((k, v) ∷ b) i ≡ lookup b i
    later i h = elim (Bool-cases (nat_beq k i)) [
      | inl same ↦ let e : k ≡ i = ground arith in absurd (fresh (rw e h))
      | inr other ↦ ground (arith, lookup-cons k i v b)
    ]

servers_differ_iff :
    (s t : List GoString) → length t ≡ length s → (servers_differ s t ≡ false) ↔ (t ≡ s)
unfolding servers_differ
servers_differ_iff [] [] e = (λ h. refl, λ h. refl)
servers_differ_iff [] (t ∷ ts) e = absurd (omega arith)
servers_differ_iff (s ∷ ss) [] e = absurd (omega arith)
servers_differ_iff (s ∷ ss) (t ∷ ts) e =
    let ih = servers_differ_iff ss ts (omega arith) in ground (arith, ih, bytes_beq_iff s t)

some_group_differs_iff :
    (current : Dict ℕ (List GoString)) (l : Entries)
    → (some_group_differs current l ≡ false) ↔ Matches current.entries l
unfolding some_group_differs
some_group_differs_iff current [] = (λ h. tt, λ h. refl)
some_group_differs_iff current ((gid, servers) ∷ l) =
    let ih = some_group_differs_iff current l in
    elim (Option-cases (Dict.get current gid)) [
      | inl missing ↦ (λ h. absurd (ground arith), λ h. absurd (ground (arith, h.0)))
      | inr (there, found) ↦ elim (Bool-cases (nat_beq (length there) (length servers))) [
        | inl even ↦
            let exact = servers_differ_iff servers there (ground arith) in
            (
              λ h. (found ∙ ap some (exact.0 (ground arith)), ih.0 (ground arith)),
              λ h. ground (arith, h.0, exact, ih.1 h.1),
            )
        | inr odd ↦ (λ h. absurd (ground arith), λ h. absurd (ground (arith, h.0)))
      ]
    ]

-- The command finds no change exactly when the stored groups and those of the flag are the same map:
-- the same group numbers, with the same servers in the same order, however the maps are laid out.
pub differ_iff :
    (current groups : Dict ℕ (List GoString))
    → Distinct (keys current.entries)
    → Distinct (keys groups.entries)
    → (differ current groups ≡ false) ↔ ((gid : ℕ) → Dict.get current gid ≡ Dict.get groups gid)
unfolding differ
differ_iff current groups dc dg =
    let each = some_group_differs_iff current groups.entries in
    (
      λ h.
          Matches-lookup current.entries groups.entries dc dg (each.0 (ground arith))
            (ground arith),
      λ same.
          let there = lookup-Matches current.entries groups.entries dg (λ i h. same i) in
          let back = lookup-Matches groups.entries current.entries dc (λ i h. sym (same i)) in
          let le = Matches-length-le current.entries groups.entries dc dg there in
          let ge = Matches-length-le groups.entries current.entries dg dc back in
          ground (arith, each.1 there),
    )

-- When the flag names a group and the command asks for a change, the new configuration has the next
-- number and the groups of the flag, gives every shard to one of them, and to none of them two
-- shards more than to another.
pub startup_even :
    (current target : ShardConfig) (groups : Dict ℕ (List GoString)) (g g' : ℕ)
    → Distinct (keys groups.entries)
    → Has g (keys groups.entries)
    → Has g' (keys groups.entries)
    → startup (some current) groups ≡ change_to target
    → (target.num ≡ current.num + 1)
      × (target.groups ≡ groups)
      × ((i : ℕ) → Has (target.shards i) (keys groups.entries))
      × (shards_of target.shards g n_shards ≤ shards_of target.shards g' n_shards + 1)
unfolding startup target_of
startup_even current target groups g g' d h h' asked =
    let (placed, even) = sorted_assign_even (keys groups.entries) g g' d h h' in
    let found : target_of current groups ≡ target = ground arith in
    subst
      (λ (t : ShardConfig).
        (t.num ≡ current.num + 1)
        × (t.groups ≡ groups)
        × ((i : ℕ) → Has (t.shards i) (keys groups.entries))
        × (shards_of t.shards g n_shards ≤ shards_of t.shards g' n_shards + 1))
      found (refl, refl, placed, even)
