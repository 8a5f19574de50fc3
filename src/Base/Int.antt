-- ===== src/Base/Int.antt =====
-- Go's int where it may be negative, and strconv.Atoi on 64 bits.
use Prim.Native.Nat.{ℕ, ◌-◌, ◌^◌, ◌<◌}
use mathlib.Core.Path.{◌≡◌}
use mathlib.Core.Logic.{◌↔◌}
use mathlib.Core.Bool.{Bool, true, false}
use mathlib.Core.List.{[], ◌∷◌}
use mathlib.Core.Option.{Option, none, some}
use native.Mathlib.Omega.{arith}
use project_distributed_key.Base.Tests.{nat_beq, ltb, leb, if◌then◌else◌}
use project_distributed_key.Base.Keys.{GoString, Key}
use project_distributed_key.Base.Options.{◌>>=◌}
use project_distributed_key.Base.Text.{
  magnitude, decimal, all_bytes, decimal_plain, magnitude-decimal, decimal_cons,
}

-- `negsuc n` is -(n + 1).
pub data ℤ : Type 0 where
  pos : ℕ → ℤ
  negsuc : ℕ → ℤ

abbrev pub int_beq : ℤ → ℤ → Bool
int_beq (pos m) (pos n) = nat_beq m n
int_beq (negsuc m) (negsuc n) = nat_beq m n
int_beq _ _ = false

pub int_beq_iff : (a b : ℤ) → (int_beq a b ≡ true) ↔ (a ≡ b)
int_beq_iff (pos m) (pos n) = ground arith
int_beq_iff (pos m) (negsuc n) = ground arith
int_beq_iff (negsuc m) (pos n) = ground arith
int_beq_iff (negsuc m) (negsuc n) = ground arith

instance abbrev pub signed_key : Key ℤ
signed_key = record { same = int_beq; same_iff = int_beq_iff }

abbrev pub in_range : ℕ → Option ℤ
in_range n = if ltb n (2 ^ 63) then some (pos n) else none

abbrev pub negated : ℕ → Option ℤ
negated n =
    if nat_beq n 0 then some (pos 0) else if leb n (2 ^ 63) then some (negsuc (n - 1)) else none

unfoldable pub atoi : GoString → Option ℤ
atoi [] = none
atoi (c ∷ s) =
    if nat_beq c b'-'
    then (magnitude s >>= negated)
    else if nat_beq c b'+'
    then (magnitude s >>= in_range)
    else (magnitude (c ∷ s) >>= in_range)

pub atoi-decimal : (n : ℕ) → n < 2 ^ 63 → atoi (decimal n) ≡ some (pos n)
unfolding atoi all_bytes
atoi-decimal n small =
    let (c, s, printed) = decimal_cons n in
    let plain = decimal_plain n in
    let read = magnitude-decimal n in
    rw printed (ground (arith, rw printed at plain, rw printed at read))
