-- ===== src/Transport/Local/Partitions.antt =====
-- internal/transport/local.go: whose calls a partition stops.
use project_distributed_key.Base.{
  ℕ, zero, suc, ◌+◌, ◌<◌, ◌≡◌, refl, ap, ◌∙◌, Bool, true, false, not, ◌&&◌, ◌||◌, none, some, [],
  ◌∷◌, ◌++◌, arith, if◌then◌else◌, length, get_elem?, take, length-append, inl, inr, Option-cases,
}
use mathlib.Core.List.{append_assoc}
use project_distributed_key.Base.Keys.{
  GoString, string_key, ◌==◌, bytes_beq, bytes_beq_iff, same_refl,
}
use project_distributed_key.Base.Text.{split, decimal, is_digit, decimal_plain, all_bytes}
use project_distributed_key.Dict
use project_distributed_key.Dict.{Dict, get-put, get-remove, get-make}
use project_distributed_key.Transport.Local.{
  LocalNetwork, Args, deliver, two_parts, sender, strip_digits, get_caller_addr, call, partition,
  heal, ensure, inner, write, forget, is_cut,
}

module _ (m : Dict GoString (Dict GoString Bool)) where
  is_cut-ensure : (p a b : GoString) → is_cut (ensure m p) a b ≡ is_cut m a b
  unfolding is_cut
  is_cut-ensure p a b =
      ground (arith, get-put m p a (Dict.make {V = Bool}), get-make {V = Bool} b, bytes_beq_iff p a)

  is_cut-write :
      (p q : GoString) (v : Bool) (a b : GoString)
      → is_cut (write m p q v) a b ≡ (if p == a && q == b then v else is_cut m a b)
  unfolding is_cut
  is_cut-write p q v a b = ground (
    arith,
    get-put m p a (Dict.put (inner m p) q v),
    get-put (inner m p) q b v,
    bytes_beq_iff p a,
    bytes_beq_iff q b,
  )

  is_cut-forget :
      (p q a b : GoString)
      → is_cut (forget m p q) a b ≡ (if p == a && q == b then false else is_cut m a b)
  unfolding is_cut
  is_cut-forget p q a b = elim (Option-cases (Dict.get m p)) [
    | inl missing ↦
        ground (arith, missing, bytes_beq_iff p a, bytes_beq_iff q b, get-make {V = Bool} b)
    | inr (i, found) ↦ ground (
      arith,
      found,
      get-put m p a (Dict.remove i q),
      get-remove i q b,
      bytes_beq_iff p a,
      bytes_beq_iff q b,
    )
  ]

-- The pair of addresses, in either order.
abbrev pub is_pair : GoString → GoString → GoString → GoString → Bool
is_pair p q a b = (p == a && q == b) || (q == a && p == b)

module _ {R : Type 0} (ln : LocalNetwork R) (p q a b : GoString) where
  is_cut-partition :
      is_cut (partition ln p q).disabled a b
      ≡ (if is_pair p q a b then true else is_cut ln.disabled a b)
  unfolding partition
  is_cut-partition =
      let made1 = ensure ln.disabled p in
      let made2 = ensure made1 q in
      let first = is_cut-write made2 p q true a b in
      let second = is_cut-write (write made2 p q true) q p true a b in
      ground (arith, first, second, is_cut-ensure made1 q a b, is_cut-ensure ln.disabled p a b)

  is_cut-heal :
      is_cut (heal ln p q).disabled a b
      ≡ (if is_pair p q a b then false else is_cut ln.disabled a b)
  unfolding heal
  is_cut-heal =
      let first = is_cut-forget ln.disabled p q a b in
      let second = is_cut-forget (forget ln.disabled p q) q p a b in ground (arith, first, second)

get_elem?-append_right :
    (s t : GoString) (k : ℕ) → get_elem? (s ++ t) (length s + k) ≡ get_elem? t k
get_elem?-append_right [] t k = ap (get_elem? t) (omega arith)
get_elem?-append_right (d ∷ s) t k =
    let e : suc (length s) + k ≡ suc (length s + k) = omega arith in
    rw e (get_elem?-append_right s t k)

all_bytes_at :
    (t : GoString) (k : ℕ)
    → all_bytes is_digit t ≡ true
    → k < length t
    → (d : ℕ) × (get_elem? t k ≡ some d) × (is_digit d ≡ true)
unfolding all_bytes
all_bytes_at [] k h lt = absurd (omega arith)
all_bytes_at (d ∷ t) zero h lt = (d, refl, ground arith)
all_bytes_at (d ∷ t) (suc k) h lt = all_bytes_at t k (ground arith) (omega arith)

is_cut-heal-partition :
    {R : Type 0} (ln : LocalNetwork R) (p q a b : GoString)
    → is_cut (heal (partition ln p q) p q).disabled a b ≡ is_cut (heal ln p q).disabled a b
is_cut-heal-partition ln p q a b =
    let cut = is_cut-heal (partition ln p q) p q a b in
    let made = is_cut-partition ln p q a b in
    let before = is_cut-heal ln p q a b in ground (arith, cut, made, before)

-- The digits at the end are stripped, up to a byte that is none.
strip_digits-append :
    (s t : GoString) (c k : ℕ)
    → is_digit c ≡ false
    → all_bytes is_digit t ≡ true
    → k < length t + 1
    → strip_digits (s ++ c ∷ t) (suc (length s + k)) ≡ suc (length s)
unfolding strip_digits
strip_digits-append s t c zero plain digits h =
    rw (get_elem?-append_right s (c ∷ t) 0, strip_digits) (rw plain (omega arith))
strip_digits-append s t c (suc k) plain digits h =
    let (d, found, digit) = all_bytes_at t k digits (omega arith) in
    let e : length s + suc k ≡ suc (length s + k) = omega arith in
    let here : get_elem? (s ++ c ∷ t) (length s + suc k) ≡ some d =
      get_elem?-append_right s (c ∷ t) (suc k) ∙ found in
    rw (here, strip_digits)
      (rw digit (rw e (strip_digits-append s t c k plain digits (omega arith))))

take-append : (s t : GoString) (c : ℕ) → take (suc (length s)) (s ++ c ∷ t) ≡ s ++ c ∷ []
take-append [] t c = refl
take-append (d ∷ s) t c = ap (λ l. d ∷ l) (take-append s t c)

-- Raft's peers whose addresses are a common prefix and their number, where the prefix does not end
-- in a digit: the caller that Call infers is the peer that sends.
pub get_caller_addr-sender :
    (s : GoString) (c i j : ℕ) (args : Args)
    → is_digit c ≡ false
    → sender args ≡ some i
    → get_caller_addr (s ++ c ∷ decimal j) args ≡ s ++ c ∷ decimal i
unfolding get_caller_addr
get_caller_addr-sender s c i j args plain sent =
    let t = decimal j in
    let whole : length (s ++ c ∷ t) ≡ suc (length s + length t) =
      omega (arith, length-append s (c ∷ t)) in
    let stripped = strip_digits-append s t c (length t) plain (decimal_plain j) (omega arith) in
    rw (sent, get_caller_addr)
      (rw (whole, stripped, take-append s t c) (append_assoc s (c ∷ []) (decimal i)))

module _ {R : Type 0} (has_method : R → GoString → Bool) (drop : Bool) (ln : LocalNetwork R) where
  deliver_cut :
      (lost : Bool) (peer method : GoString)
      → deliver has_method lost ln.receivers true peer method ≡ none
  unfolding deliver
  deliver_cut lost peer method = elim (Option-cases (two_parts (split b'.' method))) [
    | inl bad ↦ rw bad refl
    | inr (parts, good) ↦ rw good (ground arith)
  ]

  partition-call :
      (p q peer method : GoString) (args : Args)
      → let caller = get_caller_addr peer args in
        call has_method drop (partition ln p q) peer method args ≡ (
          if not (caller == []) && is_pair p q caller peer
          then none
          else call has_method drop ln peer method args)
  unfolding call partition
  partition-call p q peer method args =
      let caller = get_caller_addr peer args in
      let lost = ln.unreliable && drop in
      ground (arith, is_cut-partition ln p q caller peer, deliver_cut lost peer method)

append_nonempty : (s t : GoString) (c : ℕ) → (s ++ c ∷ t == []) ≡ false
unfolding bytes_beq
append_nonempty [] t c = refl
append_nonempty (d ∷ s) t c = refl

call-heal-partition :
    {R : Type 0} (has_method : R → GoString → Bool) (drop : Bool) (ln : LocalNetwork R)
    (p q peer method : GoString) (args : Args)
    → call has_method drop (heal (partition ln p q) p q) peer method args
      ≡ call has_method drop (heal ln p q) peer method args
unfolding call partition heal
call-heal-partition has_method drop ln p q peer method args =
    let caller = get_caller_addr peer args in
    ap
      (λ cut.
        deliver has_method (ln.unreliable && drop) ln.receivers (not (caller == []) && cut) peer
          method)
      (is_cut-heal-partition ln p q caller peer)

-- A partition of the peers i and j stops the calls of i to j, whichever of the two Partition names
-- first; of all calls that i makes it stops those only whose caller and callee are the two; and once
-- it is healed, every call does what it does without the partition.
pub partition_isolates :
    {R : Type 0} (has_method : R → GoString → Bool) (drop : Bool) (ln : LocalNetwork R)
    (s : GoString) (c i j : ℕ) (method : GoString) (args : Args)
    → is_digit c ≡ false
    → sender args ≡ some i
    → let p = s ++ c ∷ decimal i in
      let q = s ++ c ∷ decimal j in
      (call has_method drop (partition ln p q) q method args ≡ none)
      × (call has_method drop (partition ln q p) q method args ≡ none)
      × ((peer : GoString)
          → call has_method drop (partition ln p q) peer method args ≡ (
              if not (get_caller_addr peer args == [])
                && is_pair p q (get_caller_addr peer args) peer
              then none
              else call has_method drop ln peer method args))
      × ((peer : GoString)
          → call has_method drop (heal (partition ln p q) p q) peer method args
            ≡ call has_method drop (heal ln p q) peer method args)
partition_isolates has_method drop ln s c i j method args plain sent =
    let p = s ++ c ∷ decimal i in
    let q = s ++ c ∷ decimal j in
    let from : get_caller_addr q args ≡ p = get_caller_addr-sender s c i j args plain sent in
    let full : (p == []) ≡ false = append_nonempty s (decimal i) c in
    (
      partition-call has_method drop ln p q q method args
          ∙ rw (from, full) ground (arith, same_refl p, same_refl q),
      partition-call has_method drop ln q p q method args
          ∙ rw (from, full) ground (arith, same_refl p, same_refl q),
      λ peer. partition-call has_method drop ln p q peer method args,
      λ peer. call-heal-partition has_method drop ln p q peer method args,
    )
