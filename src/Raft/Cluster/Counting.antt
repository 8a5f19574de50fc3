-- ===== src/Raft/Cluster/Counting.antt =====
-- Counting the members of a cluster that satisfy a test.
use project_distributed_key.Base.{
  ℕ, zero, suc, ◌+◌, ◌≤◌, ◌<◌, ◌≡◌, inl, inr, Bool, true, false, ◌&&◌, ◌||◌, if◌then◌else◌, arith,
  refl, nat_beq, Bool-cases,
}

unfoldable pub count_below : ℕ → (ℕ → Bool) → ℕ
count_below zero p = 0
count_below (suc n) p = let rest = count_below n p in if p n then suc rest else rest

-- One more member passes a test than before, if at all another.
pub count_mono :
    (n : ℕ) (p q : ℕ → Bool)
    → ((j : ℕ) → p j ≡ true → q j ≡ true)
    → count_below n p ≤ count_below n q
unfolding count_below
count_mono zero p q h = omega arith
count_mono (suc n) p q h =
    let rest = count_mono n p q h in
    elim (Bool-cases (p n)) [
      | inl passing ↦ let also = h n passing in ground arith
      | inr failing ↦ ground arith
    ]

pub count_more :
    (n : ℕ) (p q : ℕ → Bool) (i : ℕ)
    → i < n
    → ((j : ℕ) → p j ≡ true → q j ≡ true)
    → p i ≡ false
    → q i ≡ true
    → count_below n p < count_below n q
unfolding count_below
count_more zero p q i l h failing passing = omega arith
count_more (suc n) p q i l h failing passing = elim (Bool-cases (nat_beq i n)) [
  | inl last ↦
      let same : i ≡ n = ground arith in
      let rest = count_mono n p q h in
      let fails' : p n ≡ false = cc in let passes' : q n ≡ true = cc in ground arith
  | inr earlier ↦
      let rest = count_more n p q i (ground arith) h failing passing in
      elim (Bool-cases (p n)) [
        | inl passes ↦ let also = h n passes in ground arith
        | inr fails ↦ ground arith
      ]
]

-- Two tests that failing member passes both of.
pub count-disjoint :
    (n : ℕ) (p q : ℕ → Bool)
    → ((j : ℕ) → (p j && q j) ≡ false)
    → count_below n p + count_below n q ≤ n
unfolding count_below
count-disjoint zero p q h = omega arith
count-disjoint (suc n) p q h =
    let rest = count-disjoint n p q h in
    let apart = h n in
    elim (Bool-cases (p n)) [
      | inl passing ↦ let failing : q n ≡ false = ground arith in ground arith
      | inr failing ↦ ground arith
    ]

pub count-ext : (n : ℕ) (p q : ℕ → Bool) → ((j : ℕ) → p j ≡ q j) → count_below n p ≡ count_below n q
unfolding count_below
count-ext zero p q same = refl
count-ext (suc n) p q same = let rest = count-ext n p q same in let here = same n in ground arith

-- Counting from the first member on.
pub count_first :
    (n : ℕ) (p : ℕ → Bool)
    → count_below (suc n) p
      ≡ (if p 0 then 1 + count_below n (λ j. p (suc j)) else count_below n (λ j. p (suc j)))
unfolding count_below
count_first zero p = ground arith
count_first (suc n) p = let rest = count_first n p in ground arith

-- One member more, that fails the test.
pub count_also :
    (n i : ℕ) (p : ℕ → Bool)
    → i < n
    → p i ≡ false
    → count_below n (λ j. nat_beq j i || p j) ≡ suc (count_below n p)
unfolding count_below
count_also zero i p l failing = omega arith
count_also (suc n) i p l failing = elim (Bool-cases (nat_beq n i)) [
  | inl last ↦
      let same : n ≡ i = ground arith in
      let fails : p n ≡ false = cc in let rest = count_beyond n i p (omega arith) in ground arith
  | inr earlier ↦ let rest = count_also n i p (ground arith) failing in ground arith
]
  where
    count_beyond :
        (n i : ℕ) (p : ℕ → Bool) → n ≤ i → count_below n (λ j. nat_beq j i || p j) ≡ count_below n p
    count_beyond zero i p l = refl
    count_beyond (suc n) i p l =
        let rest = count_beyond n i p (omega arith) in
        let other : nat_beq n i ≡ false = ground arith in ground arith
