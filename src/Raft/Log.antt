-- ===== src/Raft/Log.antt =====
-- internal/raft: the log as a peer keeps it, with the dummy entry of its last snapshot first.
pub mod Appending
pub mod Backtrack
pub mod Requests
pub mod Repeats
use project_distributed_key.Base.{
  ℕ, zero, suc, ◌+◌, ◌-◌, ◌≤◌, ◌<◌, ◌≡◌, refl, ap, Bool, true, false, Option, none, some, List, [],
  ◌∷◌, ◌++◌, arith, length, get_elem?, take, drop, length-append, length-take, get_elem?_in_range,
  ◌∙◌, sym, subst, Bool-cases, nat_beq, inl, inr,
}
use project_distributed_key.Core.Raft.{LogEntry}
use project_distributed_key.Raft.State.{
  Raft, get_last_log_index, get_log_term, get_log_entry, get_last_log_term, term_at,
}

-- Each entry's index is its place.
abbrev pub Contiguous : ℕ → List LogEntry → Type 0
Contiguous i [] = Unit {0}
Contiguous i (e ∷ es) = (e.index ≡ i) × Contiguous (suc i) es

pub record IsLog (rf : Raft) : Type 0 where
  pub nonempty : 0 < length rf.log
  pub contiguous : Contiguous rf.last_included_index rf.log

pub Contiguous-append :
    (i j : ℕ) (xs ys : List LogEntry)
    → Contiguous i xs
    → j ≡ i + length xs
    → Contiguous j ys
    → Contiguous i (xs ++ ys)
Contiguous-append i j [] ys hx e hy =
    let same : j ≡ i = omega arith in subst (λ n. Contiguous n ys) same hy
Contiguous-append i j (x ∷ xs) ys hx e hy =
    (hx.0, Contiguous-append (suc i) j xs ys hx.1 (omega arith) hy)

pub Contiguous-take : (i n : ℕ) (xs : List LogEntry) → Contiguous i xs → Contiguous i (take n xs)
Contiguous-take i zero xs h = tt
Contiguous-take i (suc n) [] h = tt
Contiguous-take i (suc n) (x ∷ xs) h = (h.0, Contiguous-take (suc i) n xs h.1)

pub Contiguous-drop :
    (i j n : ℕ) (xs : List LogEntry) → Contiguous i xs → j ≡ i + n → Contiguous j (drop n xs)
Contiguous-drop i j zero xs h e =
    let same : i ≡ j = omega arith in subst (λ n. Contiguous n xs) same h
Contiguous-drop i j (suc n) [] h e = tt
Contiguous-drop i j (suc n) (x ∷ xs) h e = Contiguous-drop (suc i) j n xs h.1 (omega arith)

-- Reading a term within the log does not panic.
pub get_log_term_in_range :
    (rf : Raft) (idx : ℕ)
    → IsLog rf
    → rf.last_included_index ≤ idx
    → idx ≤ get_last_log_index rf
    → (t : ℕ) × (get_log_term rf idx ≡ some t)
unfolding get_log_term
get_log_term_in_range rf idx w lo hi =
    let (e, got) =
      get_elem?_in_range rf.log (idx - rf.last_included_index) (omega (arith, w.nonempty)) in
    elim (Bool-cases (nat_beq idx rf.last_included_index)) [
      | inl same ↦ (rf.last_included_term, ground arith)
      | inr other ↦ (e.term, ground arith)
    ]

pub get_log_entry_in_range :
    (rf : Raft) (idx : ℕ)
    → IsLog rf
    → rf.last_included_index ≤ idx
    → idx ≤ get_last_log_index rf
    → (e : LogEntry) × (get_log_entry rf idx ≡ some e)
unfolding get_log_entry
get_log_entry_in_range rf idx w lo hi =
    let (e, got) =
      get_elem?_in_range rf.log (idx - rf.last_included_index) (omega (arith, w.nonempty)) in
    (e, ground arith)

pub get_last_log_term_total : (rf : Raft) → IsLog rf → (t : ℕ) × (get_last_log_term rf ≡ some t)
unfolding get_last_log_term
get_last_log_term_total rf w =
    let (e, got) = get_elem?_in_range rf.log (length rf.log - 1) (omega (arith, w.nonempty)) in
    elim (Bool-cases (nat_beq (length rf.log) 1)) [
      | inl one ↦ (rf.last_included_term, ground arith)
      | inr more ↦ (e.term, ground arith)
    ]
