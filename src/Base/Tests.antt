-- ===== src/Base/Tests.antt =====
-- Boolean tests on the native numbers, the conditional, and case splits that keep their equation.
use Prim.Native.Nat.{ℕ, ◌<◌, compare, Ordering}
use mathlib.Core.Path.{◌≡◌, refl, subst}
use mathlib.Core.Logic.{◌↔◌, ◌⊎◌, inl, inr}
use mathlib.Core.Bool.{Bool, true, false}
use mathlib.Core.Option.{Option, none, some}
use native.Mathlib.Omega.{arith}

-- These compute to `compare`, which `ground` and `grind` read with no lemma listed.
abbrev pub ltb : ℕ → ℕ → Bool
ltb a b = elim (compare a b) [ Ordering.lt ↦ true | _ ↦ false ]

abbrev pub leb : ℕ → ℕ → Bool
leb a b = elim (compare a b) [ Ordering.gt ↦ false | _ ↦ true ]

abbrev pub nat_beq : ℕ → ℕ → Bool
nat_beq a b = elim (compare a b) [ Ordering.eq ↦ true | _ ↦ false ]

infix 1 if◌then◌else◌
abbrev pub if◌then◌else◌ {ℓ} : {A : Type ℓ} → Bool → A → A → A
if true then x else y = x
if false then x else y = y

pub ltb→lt : (a b : ℕ) → ltb a b ≡ true → a < b
ltb→lt a b h = ground arith

pub lt→ltb : (a b : ℕ) → a < b → ltb a b ≡ true
lt→ltb a b h = ground arith

pub nat_beq_iff : (a b : ℕ) → (nat_beq a b ≡ true) ↔ (a ≡ b)
nat_beq_iff a b = ground arith

pub Bool-cases : (b : Bool) → (b ≡ true) ⊎ (b ≡ false)
Bool-cases true = inl refl
Bool-cases false = inr refl

pub Option-cases {ℓ} : {A : Type ℓ} (o : Option A) → (o ≡ none) ⊎ ((a : A) × (o ≡ some a))
Option-cases none = inl refl
Option-cases (some a) = inr (a, refl)

-- An array or a map as a function, written at one place.
abbrev pub update {ℓ} : {A : Type ℓ} → (ℕ → A) → ℕ → A → ℕ → A
update f i v j = if nat_beq i j then v else f j

pub update-elim {ℓ κ} :
    {A : Type ℓ} (P : ℕ → A → Type κ) (f : ℕ → A) (i : ℕ) (v : A)
    → P i v
    → ((k : ℕ) → P k (f k))
    → (k : ℕ) → P k (update f i v k)
update-elim P f i v new old k = elim (Bool-cases (nat_beq i k)) [
  | inl here ↦ let same : i ≡ k = (nat_beq_iff i k).0 here in rw here (subst (λ n. P n v) same new)
  | inr elsewhere ↦ rw elsewhere (old k)
]

pub update-elim_two {ℓ κ} :
    {A B : Type ℓ} (P : ℕ → A → B → Type κ) (f : ℕ → A) (g : ℕ → B) (i : ℕ) (x : A) (y : B)
    → P i x y
    → ((k : ℕ) → P k (f k) (g k))
    → (k : ℕ) → P k (update f i x k) (update g i y k)
update-elim_two P f g i x y new old k = elim (Bool-cases (nat_beq i k)) [
  | inl here ↦
      let same : i ≡ k = (nat_beq_iff i k).0 here in rw here (subst (λ n. P n x y) same new)
  | inr elsewhere ↦ rw elsewhere (old k)
]

pub update-elim_three {ℓ κ} :
    {A B C : Type ℓ} (P : ℕ → A → B → C → Type κ) (f : ℕ → A) (g : ℕ → B) (h : ℕ → C) (i : ℕ)
    (x : A) (y : B) (z : C)
    → P i x y z
    → ((k : ℕ) → P k (f k) (g k) (h k))
    → (k : ℕ) → P k (update f i x k) (update g i y k) (update h i z k)
update-elim_three P f g h i x y z new old k = elim (Bool-cases (nat_beq i k)) [
  | inl here ↦
      let same : i ≡ k = (nat_beq_iff i k).0 here in rw here (subst (λ n. P n x y z) same new)
  | inr elsewhere ↦ rw elsewhere (old k)
]
