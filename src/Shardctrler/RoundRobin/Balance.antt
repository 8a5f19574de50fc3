-- ===== src/Shardctrler/RoundRobin/Balance.antt =====
-- The assignment in turn: every shard has a group of the map, and no group has two shards more than
-- another.
use project_distributed_key.Base.{
  ℕ, zero, suc, ◌+◌, ◌%◌, ◌<◌, ◌≤◌, ◌≡◌, ◌↔◌, ◌⊎◌, refl, sym, ap, subst, ◌∙◌, inl, inr, Bool, some,
  List, [], ◌∷◌, arith, if◌then◌else◌, nat_beq, leb, ltb, length, get_elem?, get_elem?_in_range,
  get_elem?-some_lt, Bool-cases,
}
use native.Mathlib.Nat.{mod-lt, mod-add-mod, mod-eq_of_lt, mod_self}
use project_distributed_key.Core.Shard.{n_shards}
use project_distributed_key.Shardctrler.RoundRobin.{insert_sorted, sort_ints, assign}

abbrev pub Has : ℕ → List ℕ → Type 0
Has g [] = ⊥
Has g (n ∷ ns) = (n ≡ g) ⊎ Has g ns

abbrev pub Distinct : List ℕ → Type 0
Distinct [] = Unit {0}
Distinct (n ∷ ns) = (¬ Has n ns) × Distinct ns

-- How many of the shards below k have the group g.
unfoldable pub shards_of : (ℕ → ℕ) → ℕ → ℕ → ℕ
shards_of shards g zero = 0
shards_of shards g (suc k) = (if nat_beq (shards k) g then 1 else 0) + shards_of shards g k

-- Sorting keeps the elements.
insert_sorted-Has : (g n : ℕ) (ns : List ℕ) → Has g (insert_sorted n ns) ↔ ((n ≡ g) ⊎ Has g ns)
unfolding insert_sorted
insert_sorted-Has g n [] = (λ h. h, λ h. h)
insert_sorted-Has g n (m ∷ ms) = elim (Bool-cases (leb n m)) [
  | inl small ↦ rw small (λ h. h, λ h. h)
  | inr big ↦
      let ih = insert_sorted-Has g n ms in
      rw big (
        λ h. elim h [
          | inl e ↦ inr (inl e)
          | inr t ↦ elim (ih.0 t) [ inl e ↦ inl e | inr u ↦ inr (inr u) ]
        ],
        λ h. elim h [
          | inl e ↦ inr (ih.1 (inl e))
          | inr t ↦ elim t [ inl e ↦ inl e | inr u ↦ inr (ih.1 (inr u)) ]
        ],
      )
]

sort_ints-Has : (g : ℕ) (ns : List ℕ) → Has g (sort_ints ns) ↔ Has g ns
unfolding sort_ints
sort_ints-Has g [] = (λ h. h, λ h. h)
sort_ints-Has g (n ∷ ns) =
    let here = insert_sorted-Has g n (sort_ints ns) in
    let ih = sort_ints-Has g ns in
    (
      λ h. elim (here.0 h) [ inl e ↦ inl e | inr t ↦ inr (ih.0 t) ],
      λ h. here.1 (elim h [ inl e ↦ inl e | inr t ↦ inr (ih.1 t) ]),
    )

insert_sorted-Distinct :
    (n : ℕ) (ns : List ℕ) → ¬ Has n ns → Distinct ns → Distinct (insert_sorted n ns)
unfolding insert_sorted
insert_sorted-Distinct n [] fresh d = (λ h. h, tt)
insert_sorted-Distinct n (m ∷ ms) fresh (apart, d) = elim (Bool-cases (leb n m)) [
  | inl small ↦ rw small (fresh, (apart, d))
  | inr big ↦ rw big (
    λ h. elim ((insert_sorted-Has m n ms).0 h) [ inl e ↦ fresh (inl (sym e)) | inr t ↦ apart t ],
    insert_sorted-Distinct n ms (λ h. fresh (inr h)) d,
  )
]

sort_ints-Distinct : (ns : List ℕ) → Distinct ns → Distinct (sort_ints ns)
unfolding sort_ints
sort_ints-Distinct [] d = tt
sort_ints-Distinct (n ∷ ns) (fresh, d) =
    insert_sorted-Distinct n (sort_ints ns) (λ h. fresh ((sort_ints-Has n ns).0 h))
      (sort_ints-Distinct ns d)

-- An element has a place, and only one.
Has-place : (g : ℕ) (ns : List ℕ) → Has g ns → (r : ℕ) × (get_elem? ns r ≡ some g)
Has-place g [] h = absurd h
Has-place g (n ∷ ns) (inl e) = (0, ap some e)
Has-place g (n ∷ ns) (inr h) = let (r, there) = Has-place g ns h in (suc r, there)

get_elem?-Has : (g : ℕ) (ns : List ℕ) (r : ℕ) → get_elem? ns r ≡ some g → Has g ns
get_elem?-Has g [] r e = cc
get_elem?-Has g (n ∷ ns) zero e = inl (ground arith)
get_elem?-Has g (n ∷ ns) (suc r) e = inr (get_elem?-Has g ns r e)

place_unique :
    (g : ℕ) (ns : List ℕ) (r r' : ℕ)
    → Distinct ns
    → get_elem? ns r ≡ some g
    → get_elem? ns r' ≡ some g
    → r ≡ r'
place_unique g [] r r' d e e' = cc
place_unique g (n ∷ ns) zero zero d e e' = refl
place_unique g (n ∷ ns) zero (suc r') (fresh, d) e e' =
    let same : n ≡ g = ground arith in
    absurd (fresh (subst (λ x. Has x ns) (sym same) (get_elem?-Has g ns r' e')))
place_unique g (n ∷ ns) (suc r) zero (fresh, d) e e' =
    let same : n ≡ g = ground arith in
    absurd (fresh (subst (λ x. Has x ns) (sym same) (get_elem?-Has g ns r e)))
place_unique g (n ∷ ns) (suc r) (suc r') (fresh, d) e e' = ap suc (place_unique g ns r r' d e e')

abbrev one_if : Bool → ℕ
one_if b = if b then 1 else 0

mod_step : (k n : ℕ) → 0 < k → suc n % k ≡ (if nat_beq (n % k + 1) k then 0 else n % k + 1)
mod_step k n pos =
    let e : n + 1 ≡ suc n = omega arith in
    let step = rw e at (mod-add-mod n k 1) in
    let bound = mod-lt n pos in
    elim (Bool-cases (nat_beq (n % k + 1) k)) [
      | inl full ↦
          let whole : n % k + 1 ≡ k = ground arith in rw full (sym step ∙ rw whole (mod_self k))
      | inr room ↦ rw room (sym step ∙ mod-eq_of_lt (ground arith))
    ]

-- How often each remainder occurs below n: q times, and once more below n's own remainder.
in_turn :
    (k n : ℕ)
    → 0 < k
    → (q : ℕ) × ((r : ℕ) → r < k → shards_of (λ i. i % k) r n ≡ q + one_if (ltb r (n % k)))
unfolding shards_of
in_turn k zero pos = (0, λ r h. rw (mod-eq_of_lt pos) (ground arith))
in_turn k (suc n) pos =
    let (q, counted) = in_turn k n pos in
    let step = mod_step k n pos in
    let bound = mod-lt n pos in
    elim (Bool-cases (nat_beq (n % k + 1) k)) [
      | inl full ↦
          let start : suc n % k ≡ 0 = ground arith in
          (q + 1, λ r h. rw start (ground (arith, counted r h)))
      | inr room ↦
          let later : suc n % k ≡ n % k + 1 = ground arith in
          (q, λ r h. rw later (ground (arith, counted r h)))
    ]

assign-get_elem? :
    (gids : List ℕ) (i h : ℕ) → get_elem? gids (i % length gids) ≡ some h → assign gids i ≡ h
unfolding assign
assign-get_elem? [] i h e = cc
assign-get_elem? (x ∷ xs) i h e = rw (e, assign) refl

assign-place :
    (gids : List ℕ) (r g i : ℕ)
    → Distinct gids
    → get_elem? gids r ≡ some g
    → nat_beq (assign gids i) g ≡ nat_beq (i % length gids) r
assign-place [] r g i d e = cc
assign-place (x ∷ xs) r g i d e =
    let place = i % length (x ∷ xs) in
    let (h, found) = get_elem?_in_range (x ∷ xs) place (mod-lt i (omega arith)) in
    let given = assign-get_elem? (x ∷ xs) i h found in
    let unique = place_unique g (x ∷ xs) place r d in
    elim (Bool-cases (nat_beq place r)) [
      | inl same ↦
          let at : place ≡ r = ground arith in
          let here : some h ≡ some g = sym found ∙ ap (get_elem? (x ∷ xs)) at ∙ e in ground arith
      | inr other ↦ elim (Bool-cases (nat_beq h g)) [
        | inl equal ↦
            let gid : h ≡ g = ground arith in
            let at : place ≡ r = unique (found ∙ ap some gid) e in ground arith
        | inr apart ↦ ground arith
      ]
    ]

assign-counted :
    (gids : List ℕ) (r g n : ℕ)
    → Distinct gids
    → get_elem? gids r ≡ some g
    → shards_of (assign gids) g n ≡ shards_of (λ i. i % length gids) r n
unfolding shards_of
assign-counted gids r g zero d e = refl
assign-counted gids r g (suc n) d e =
    rw (assign-place gids r g n d e, assign-counted gids r g n d e) refl

assign-Has : (gids : List ℕ) (g i : ℕ) → Has g gids → Has (assign gids i) gids
assign-Has [] g i h = absurd h
assign-Has (x ∷ xs) g i h =
    let place = i % length (x ∷ xs) in
    let (h', found) = get_elem?_in_range (x ∷ xs) place (mod-lt i (omega arith)) in
    subst (λ n. Has n (x ∷ xs)) (sym (assign-get_elem? (x ∷ xs) i h' found))
      (get_elem?-Has h' (x ∷ xs) place found)

assign_even :
    (gids : List ℕ) (g g' n : ℕ)
    → Distinct gids
    → Has g gids
    → Has g' gids
    → shards_of (assign gids) g n ≤ shards_of (assign gids) g' n + 1
assign_even gids g g' n d h h' =
    let (r, at) = Has-place g gids h in
    let (r', at') = Has-place g' gids h' in
    let low = get_elem?-some_lt gids r g at in
    let low' = get_elem?-some_lt gids r' g' at' in
    let (q, counted) = in_turn (length gids) n (omega arith) in
    ground (
      arith,
      counted r low,
      counted r' low',
      assign-counted gids r g n d at,
      assign-counted gids r' g' n d at',
    )

-- Groups with distinct numbers, whatever the order of the map: every shard goes to one of them, and
-- of any two groups neither has more shards than the other and one more.
pub sorted_assign_even :
    (gids : List ℕ) (g g' : ℕ)
    → Distinct gids
    → Has g gids
    → Has g' gids
    → ((i : ℕ) → Has (assign (sort_ints gids) i) gids)
      × (shards_of (assign (sort_ints gids)) g n_shards
          ≤ shards_of (assign (sort_ints gids)) g' n_shards + 1)
sorted_assign_even gids g g' d h h' =
    let sorted = sort_ints gids in
    let there = (sort_ints-Has g gids).1 h in
    (
      λ i. (sort_ints-Has (assign sorted i) gids).0 (assign-Has sorted g i there),
      assign_even sorted g g' n_shards (sort_ints-Distinct gids d) there
          ((sort_ints-Has g' gids).1 h'),
    )
