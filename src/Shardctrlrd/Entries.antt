-- ===== src/Shardctrlrd/Entries.antt =====
-- Entries of the maps that cmd/shardctrlrd/main.go compares: reading, and taking a key away.
use project_distributed_key.Base.{
  ℕ, ◌+◌, ◌≡◌, refl, ap, inl, inr, Option, none, some, List, [], ◌∷◌, arith, if◌then◌else◌, nat_beq,
  length, Bool-cases,
}
use project_distributed_key.Base.Keys.{GoString, int_key, string_key}
use project_distributed_key.Dict
use project_distributed_key.Dict.{Dict}
use project_distributed_key.Shardctrler.RoundRobin.{keys}
use project_distributed_key.Shardctrler.RoundRobin.Balance.{Has, Distinct}

abbrev pub Entries : Type 0
Entries = List (ℕ × List GoString)

abbrev pub lookup : Entries → ℕ → Option (List GoString)
lookup l k = Dict.get (record { entries = l }) k

pub lookup-cons :
    (j k : ℕ) (v : List GoString) (l : Entries)
    → lookup ((j, v) ∷ l) k ≡ (if nat_beq j k then some v else lookup l k)
unfolding Dict.get
lookup-cons j k v l = refl

pub lookup-nil : (k : ℕ) → lookup [] k ≡ none
unfolding Dict.get
lookup-nil k = refl

pub without : Entries → ℕ → Entries
without [] k = []
without ((j, v) ∷ l) k = let rest = without l k in if nat_beq j k then rest else (j, v) ∷ rest

pub lookup-without :
    (l : Entries) (k i : ℕ) → lookup (without l k) i ≡ (if nat_beq k i then none else lookup l i)
unfolding without
lookup-without [] k i = ground (arith, lookup-nil i)
lookup-without ((j, v) ∷ l) k i =
    ground (arith, lookup-without l k i, lookup-cons j i v l, lookup-cons j i v (without l k))

pub Has-lookup : (l : Entries) (k : ℕ) (v : List GoString) → lookup l k ≡ some v → Has k (keys l)
Has-lookup [] k v h = absurd (ground (arith, lookup-nil k))
Has-lookup ((j, w) ∷ l) k v h = elim (Bool-cases (nat_beq j k)) [
  | inl same ↦ inl (ground arith)
  | inr other ↦ inr (Has-lookup l k v (ground (arith, lookup-cons j k w l)))
]

pub lookup-Has :
    (l : Entries) (k : ℕ) → Has k (keys l) → (v : List GoString) × (lookup l k ≡ some v)
lookup-Has [] k h = absurd h
lookup-Has ((j, w) ∷ l) k h = elim (Bool-cases (nat_beq j k)) [
  | inl same ↦ (w, ground (arith, lookup-cons j k w l))
  | inr other ↦ elim h [
    | inl e ↦ absurd (ground arith)
    | inr there ↦ let (v, found) = lookup-Has l k there in (v, ground (arith, lookup-cons j k w l))
  ]
]

pub without-Has : (l : Entries) (k i : ℕ) → Has i (keys (without l k)) → Has i (keys l)
without-Has l k i h =
    let (v, found) = lookup-Has (without l k) i h in
    Has-lookup l i v (ground (arith, lookup-without l k i))

pub without-Distinct : (l : Entries) (k : ℕ) → Distinct (keys l) → Distinct (keys (without l k))
unfolding without
without-Distinct [] k d = tt
without-Distinct ((j, v) ∷ l) k (fresh, d) = elim (Bool-cases (nat_beq j k)) [
  | inl same ↦ rw same (without-Distinct l k d)
  | inr other ↦ rw other ((λ h. fresh (without-Has l k j h)), without-Distinct l k d)
]

without_fresh : (l : Entries) (k : ℕ) → ¬ Has k (keys l) → without l k ≡ l
unfolding without
without_fresh [] k fresh = refl
without_fresh ((j, v) ∷ l) k fresh = elim (Bool-cases (nat_beq j k)) [
  | inl same ↦ absurd (fresh (inl (ground arith)))
  | inr other ↦ rw other (ap (λ r. (j, v) ∷ r) (without_fresh l k (λ h. fresh (inr h))))
]

pub length-without :
    (l : Entries) (k : ℕ) → Distinct (keys l) → Has k (keys l) → length l ≡ length (without l k) + 1
unfolding without
length-without [] k d h = absurd h
length-without ((j, v) ∷ l) k (fresh, d) h = elim (Bool-cases (nat_beq j k)) [
  | inl same ↦
      let e : j ≡ k = ground arith in
      rw same (omega (arith, ap length (without_fresh l k (λ t. fresh (rw e t)))))
  | inr other ↦ elim h [
    | inl e ↦ absurd (ground arith)
    | inr there ↦ rw other (omega (arith, length-without l k d there))
  ]
]
