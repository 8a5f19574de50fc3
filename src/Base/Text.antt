-- ===== src/Base/Text.antt =====
-- What the program uses of Go's packages strings, strconv and fmt, on byte strings.
use Prim.Native.Nat.{ℕ, zero, suc, ◌+◌, ◌-◌, ◌*◌, ◌/◌, ◌%◌, ◌<◌}
use mathlib.Core.Path.{◌≡◌, refl, ap, ◌∙◌}
use mathlib.Core.Logic.{inl, inr}
use mathlib.Core.Bool.{Bool, true, false, ◌&&◌}
use mathlib.Core.List.{List, [], ◌∷◌, ◌++◌}
use mathlib.Core.Option.{Option, none, some}
use native.Mathlib.Omega.{arith}
use project_distributed_key.Base.Tests.{nat_beq, ltb, leb, if◌then◌else◌, Bool-cases}
use project_distributed_key.Base.Keys.{GoString}

-- Every byte of the string passes the test.
unfoldable pub all_bytes : (ℕ → Bool) → GoString → Bool
all_bytes p [] = true
all_bytes p (c ∷ s) = p c && all_bytes p s

abbrev pub is_digit : ℕ → Bool
is_digit c = leb b'0' c && leb c b'9'

-- The string has no byte `sep`.
abbrev pub differs : ℕ → ℕ → Bool
differs sep c = if nat_beq c sep then false else true

cons_first : ℕ → List GoString → List GoString
cons_first c [] = (c ∷ []) ∷ []
cons_first c (w ∷ ws) = (c ∷ w) ∷ ws

pub all_bytes_mono :
    (p q : ℕ → Bool) (s : GoString)
    → ((c : ℕ) → p c ≡ true → q c ≡ true)
    → all_bytes p s ≡ true
    → all_bytes q s ≡ true
unfolding all_bytes
all_bytes_mono p q [] weaker h = refl
all_bytes_mono p q (c ∷ s) weaker h = ground (arith, weaker c, all_bytes_mono p q s weaker)

pub all_bytes-append :
    (p : ℕ → Bool) (s t : GoString)
    → all_bytes p s ≡ true
    → all_bytes p t ≡ true
    → all_bytes p (s ++ t) ≡ true
unfolding all_bytes
all_bytes-append p [] t h k = k
all_bytes-append p (c ∷ s) t h k = ground (arith, all_bytes-append p s t)

-- strings.Split, at a separator of one byte
unfoldable pub split : ℕ → GoString → List GoString
unfolding cons_first
split sep [] = [] ∷ []
split sep (c ∷ s) = let rest = split sep s in if nat_beq c sep then [] ∷ rest else cons_first c rest

-- strings.Join, with a separator of one byte
unfoldable pub join : ℕ → GoString → List GoString → GoString
join sep w [] = w
join sep w (v ∷ vs) = w ++ sep ∷ join sep v vs

split_first :
    (sep : ℕ) (w : GoString) (s : GoString)
    → all_bytes (differs sep) w ≡ true
    → split sep (w ++ sep ∷ s) ≡ w ∷ split sep s
unfolding all_bytes split
split_first sep [] s h = ground arith
split_first sep (c ∷ w) s h = ground (arith, split_first sep w s)

split_one : (sep : ℕ) (w : GoString) → all_bytes (differs sep) w ≡ true → split sep w ≡ w ∷ []
unfolding all_bytes split
split_one sep [] h = refl
split_one sep (c ∷ w) h = ground (arith, split_one sep w)

abbrev pub AllBytes : (ℕ → Bool) → List GoString → Type 0
AllBytes p [] = Unit {0}
AllBytes p (w ∷ ws) = (all_bytes p w ≡ true) × AllBytes p ws

pub AllBytes-mono :
    (p q : ℕ → Bool) (ws : List GoString)
    → ((c : ℕ) → p c ≡ true → q c ≡ true)
    → AllBytes p ws
    → AllBytes q ws
AllBytes-mono p q [] weaker h = tt
AllBytes-mono p q (w ∷ ws) weaker (h, hs) =
    (all_bytes_mono p q w weaker h, AllBytes-mono p q ws weaker hs)

pub all_bytes-join :
    (p : ℕ → Bool) (sep : ℕ) (w : GoString) (ws : List GoString)
    → p sep ≡ true
    → all_bytes p w ≡ true
    → AllBytes p ws
    → all_bytes p (join sep w ws) ≡ true
unfolding join all_bytes
all_bytes-join p sep w [] sep_ok h hs = h
all_bytes-join p sep w (v ∷ vs) sep_ok h (k, ks) =
    let rest = all_bytes-join p sep v vs sep_ok k ks in
    all_bytes-append p w (sep ∷ join sep v vs) h (ground (arith, rest))

-- What was joined is split again, if no part has the separator.
pub split-join :
    (sep : ℕ) (w : GoString) (ws : List GoString)
    → all_bytes (differs sep) w ≡ true
    → AllBytes (differs sep) ws
    → split sep (join sep w ws) ≡ w ∷ ws
unfolding join
split-join sep w [] plain others = split_one sep w plain
split-join sep w (v ∷ vs) plain (first, others) =
    split_first sep w (join sep v vs) plain ∙ ap (λ l. w ∷ l) (split-join sep v vs first others)

-- The decimal digits of n before `acc`; `fuel` is above the number of digits.
unfoldable pub digits : ℕ → ℕ → GoString → GoString
digits zero n acc = acc
digits (suc fuel) n acc = elim (ltb n 10) [
  | true ↦ (b'0' + n % 10) ∷ acc
  | false ↦ digits fuel (n / 10) ((b'0' + n % 10) ∷ acc)
]

-- fmt's %d of a number that is not negative
unfoldable pub decimal : ℕ → GoString
decimal n = digits (suc n) n []

pub digits_plain :
    (fuel n : ℕ) (acc : GoString)
    → all_bytes is_digit acc ≡ true
    → all_bytes is_digit (digits fuel n acc) ≡ true
unfolding digits all_bytes
digits_plain zero n acc h = h
digits_plain (suc fuel) n acc h = elim (Bool-cases (ltb n 10)) [
  | inl small ↦ rw (small, digits) (ground arith)
  | inr big ↦ rw (big, digits) (digits_plain fuel (n / 10) _ (ground arith))
]

pub decimal_plain : (n : ℕ) → all_bytes is_digit (decimal n) ≡ true
unfolding decimal all_bytes
decimal_plain n = digits_plain (suc n) n [] refl

-- strconv.Atoi's loop over the digits; `none` is its syntax error.
unfoldable pub read_digits : GoString → ℕ → Option ℕ
read_digits [] n = some n
read_digits (c ∷ s) n =
    let rest = read_digits s (n * 10 + (c - b'0')) in if is_digit c then rest else none

unfoldable pub magnitude : GoString → Option ℕ
magnitude [] = none
magnitude (c ∷ s) = read_digits (c ∷ s) 0

read_digits-digits :
    (fuel n : ℕ) (acc : GoString) → n < fuel → read_digits (digits fuel n acc) 0 ≡ read_digits acc n
unfolding digits read_digits
read_digits-digits zero n acc h = elim h [ ]
read_digits-digits (suc fuel) n acc h = elim (Bool-cases (ltb n 10)) [
  | inl small ↦
      let low : 0 * 10 + (b'0' + n % 10 - b'0') ≡ n = ground arith in
      rw (small, digits) (ground (arith, ap (read_digits acc) low))
  | inr big ↦
      let again = read_digits-digits fuel (n / 10) ((b'0' + n % 10) ∷ acc) (ground arith) in
      let back : n / 10 * 10 + (b'0' + n % 10 - b'0') ≡ n = omega arith in
      rw (big, digits) (again ∙ ground (arith, ap (read_digits acc) back))
]

digits_nonempty :
    (fuel n : ℕ) (acc : GoString) → (c : ℕ) × (s : GoString) × (digits (suc fuel) n acc ≡ c ∷ s)
unfolding digits
digits_nonempty zero n acc = ((b'0' + n % 10), acc, ground arith)
digits_nonempty (suc fuel) n acc = elim (Bool-cases (ltb n 10)) [
  | inl small ↦ (b'0' + n % 10, acc, rw (small, digits) refl)
  | inr big ↦ rw (big, digits) (digits_nonempty fuel (n / 10) ((b'0' + n % 10) ∷ acc))
]

pub decimal_cons : (n : ℕ) → (c : ℕ) × (s : GoString) × (decimal n ≡ c ∷ s)
unfolding decimal
decimal_cons n = digits_nonempty n n []

-- A number that is printed is read again.
pub magnitude-decimal : (n : ℕ) → magnitude (decimal n) ≡ some n
unfolding magnitude decimal read_digits
magnitude-decimal n =
    let (c, s, printed) = digits_nonempty n n [] in
    let read = read_digits-digits (suc n) n [] (omega arith) in rw printed (rw printed at read)
