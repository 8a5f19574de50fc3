-- ===== src/Persist/Disk/Crash.antt =====
-- internal/persist/disk.go: what is on the disk after a Save, whole or cut short.
use project_distributed_key.Base.{
  ℕ, zero, suc, ◌+◌, ◌≤◌, ◌<◌, ◌≡◌, ◌≢◌, refl, sym, ◌∙◌, ap, inl, inr, false, Option, some, List,
  [], ◌∷◌, ◌++◌, map, if◌then◌else◌, ltb, length, take, length-append, arith, Bool-cases,
}
use mathlib.Core.List.{append_assoc, append-nil}
use project_distributed_key.Base.Keys.{GoString, string_key, str, bytes_beq_iff, same_refl}
use project_distributed_key.Dict
use project_distributed_key.Dict.{get-put, get-remove}
use project_distributed_key.Persist.{contents}
use project_distributed_key.Persist.Disk.{
  Files, Step, append, rename, remove, step, run, tmp_path, write_atomic, state_path, snap_path,
  snapshot_steps, save_part, read_raft_state, read_snapshot,
}

tmp_path-ne : (f : GoString) → tmp_path f ≢ f
tmp_path-ne f e = omega (arith, ap length e, length-append f (str ".tmp"))

-- Appending a text to a file, byte by byte.
appended :
    (bs base : GoString) (fs : Files) (t : GoString) (rest : List Step)
    → Dict.get fs t ≡ some base
    → (fs' : Files) × (run fs (map (append t) bs ++ rest) ≡ run fs' rest)
      × (Dict.get fs' t ≡ some (base ++ bs))
      × ((k : GoString) → k ≢ t → Dict.get fs' k ≡ Dict.get fs k)
unfolding run step
appended [] base fs t rest e = (fs, refl, rw append-nil e, λ k h. refl)
appended (b ∷ bs) base fs t rest e =
    let fs' = Dict.put fs t (contents (Dict.get fs t) ++ b ∷ []) in
    let put_here = get-put fs t t (contents (Dict.get fs t) ++ b ∷ []) in
    let now : Dict.get fs' t ≡ some (base ++ b ∷ []) = ground (arith, put_here, same_refl t) in
    let (fs'', ran, there, others) = appended bs (base ++ b ∷ []) fs' t rest now in
    (
      fs'',
      ran,
      there ∙ ap (λ x. some x) (append_assoc base (b ∷ []) bs),
      λ k h.
          others k h
          ∙ ground (arith, get-put fs t k (contents (Dict.get fs t) ++ b ∷ []), bytes_beq_iff t k),
    )

-- A writeAtomic that runs to its end: the file has the new bytes.
written :
    (fs : Files) (f bytes : GoString)
    → (Dict.get (run fs (write_atomic f bytes)) f ≡ some bytes)
      × ((k : GoString)
          → k ≢ f
          → k ≢ tmp_path f
          → Dict.get (run fs (write_atomic f bytes)) k ≡ Dict.get fs k)
unfolding write_atomic run step
written fs f bytes =
    let t = tmp_path f in
    let fs0 = Dict.put fs t [] in
    let (fs', ran, there, others) =
      appended bytes [] fs0 t (rename t f ∷ []) (ground (arith, get-put fs t t [], same_refl t)) in
    let renamed : step fs' (rename t f) ≡ Dict.put (Dict.remove fs' t) f bytes =
      rw (there, step) refl in
    let all = ran ∙ renamed in
    (
      ap (λ d. Dict.get d f) all
          ∙ ground (arith, get-put (Dict.remove fs' t) f f bytes, same_refl f),
      λ k hf ht.
          ap (λ d. Dict.get d k) all
          ∙ ground (
            arith,
            get-put (Dict.remove fs' t) f k bytes,
            get-remove fs' t k,
            bytes_beq_iff f k,
            bytes_beq_iff t k,
            others k ht,
            get-put fs t k [],
          ),
    )

-- Cut short, it has touched no file but its temporary one.
cut_append :
    (bs : GoString) (i : ℕ) (fs : Files) (t f k : GoString)
    → i ≤ length bs
    → k ≢ t
    → Dict.get (run fs (take i (map (append t) bs ++ rename t f ∷ []))) k ≡ Dict.get fs k
unfolding run step
cut_append bs zero fs t f k h apart = refl
cut_append [] (suc i) fs t f k h apart = absurd (omega arith)
cut_append (b ∷ bs) (suc i) fs t f k h apart =
    cut_append bs i (step fs (append t b)) t f k (omega arith) apart
    ∙ ground (arith, get-put fs t k (contents (Dict.get fs t) ++ b ∷ []), bytes_beq_iff t k)

cut_write :
    (fs : Files) (f bytes k : GoString) (i : ℕ)
    → i < length bytes + 2
    → k ≢ tmp_path f
    → Dict.get (run fs (take i (write_atomic f bytes))) k ≡ Dict.get fs k
unfolding write_atomic run step
cut_write fs f bytes k zero h apart = refl
cut_write fs f bytes k (suc i) h apart =
    cut_append bytes i (Dict.put fs (tmp_path f) []) (tmp_path f) f k (omega arith) apart
    ∙ ground (arith, get-put fs (tmp_path f) k [], bytes_beq_iff (tmp_path f) k)

pub take_all : (n : ℕ) (l : List Step) → length l ≤ n → take n l ≡ l
take_all zero [] h = refl
take_all (suc n) [] h = refl
take_all zero (s ∷ l) h = absurd (omega arith)
take_all (suc n) (s ∷ l) h = ap (◌∷◌ s) (take_all n l (omega arith))

length-map-append : (t bs : GoString) → length (map (append t) bs) ≡ length bs
length-map-append t [] = refl
length-map-append t (b ∷ bs) = omega (arith, length-map-append t bs)

pub length-write_atomic : (f bytes : GoString) → length (write_atomic f bytes) ≡ length bytes + 2
unfolding write_atomic
length-write_atomic f bytes = omega (
  arith,
  length-append (map (append (tmp_path f)) bytes) (rename (tmp_path f) f ∷ []),
  length-map-append (tmp_path f) bytes,
)

-- A writeAtomic, cut anywhere: the file has its old bytes or all of the new ones.
write_part :
    (fs : Files) (f bytes : GoString) (i : ℕ)
    → Dict.get (run fs (take i (write_atomic f bytes))) f
      ≡ (if ltb i (length bytes + 2) then Dict.get fs f else some bytes)
write_part fs f bytes i = elim (Bool-cases (ltb i (length bytes + 2))) [
  | inl cut ↦ rw cut (cut_write fs f bytes f i (ground arith) (λ e. tmp_path-ne f (sym e)))
  | inr whole ↦
      rw (whole, take_all i (write_atomic f bytes) (ground (arith, length-write_atomic f bytes)))
        (written fs f bytes).0
]

state-ne-snap : state_path ≢ snap_path
state-ne-snap e = ground arith

snap-ne-tmp_state : snap_path ≢ tmp_path state_path
snap-ne-tmp_state e = ground arith

snapshot_kept :
    (fs : Files) (st : GoString) (i : ℕ)
    → Dict.get (run fs (take i (write_atomic state_path st))) snap_path ≡ Dict.get fs snap_path
snapshot_kept fs st i = elim (Bool-cases (ltb i (length st + 2))) [
  | inl cut ↦ cut_write fs state_path st snap_path i (ground arith) snap-ne-tmp_state
  | inr whole ↦
      rw
        (take_all i (write_atomic state_path st)
          (ground (arith, length-write_atomic state_path st)))
        ((written fs state_path st).1 snap_path (λ e. state-ne-snap (sym e)) snap-ne-tmp_state)
]

state-ne-tmp_snap : state_path ≢ tmp_path snap_path
state-ne-tmp_snap e = ground arith

cut_remove :
    (fs : Files) (j : ℕ)
    → Dict.get (run fs (take j (remove snap_path ∷ []))) state_path ≡ Dict.get fs state_path
unfolding run step
cut_remove fs zero = refl
cut_remove fs (suc zero) =
    ground
      (arith, get-remove fs snap_path state_path, bytes_beq_iff snap_path state_path, state-ne-snap)
cut_remove fs (suc (suc j)) =
    ground
      (arith, get-remove fs snap_path state_path, bytes_beq_iff snap_path state_path, state-ne-snap)

-- The part of Save for the snapshot leaves the state's file alone, however far it comes.
cut_snapshot_state :
    (fs : Files) (sn : GoString) (j : ℕ)
    → Dict.get (run fs (take j (snapshot_steps sn))) state_path ≡ Dict.get fs state_path
unfolding snapshot_steps
cut_snapshot_state fs sn j = elim (Bool-cases (ltb 0 (length sn))) [
  | inl given ↦ elim (Bool-cases (ltb j (length sn + 2))) [
    | inl cut ↦ rw given (cut_write fs snap_path sn state_path j (ground arith) state-ne-tmp_snap)
    | inr whole ↦
        rw
          (
            given,
            take_all j (write_atomic snap_path sn)
                (ground (arith, length-write_atomic snap_path sn)),
          )
          ((written fs snap_path sn).1 state_path state-ne-snap state-ne-tmp_snap)
  ]
  | inr empty ↦ rw empty (cut_remove fs j)
]

remove_part :
    (fs : Files) (j : ℕ)
    → contents (Dict.get (run fs (take j (remove snap_path ∷ []))) snap_path)
      ≡ (if ltb j 1 then contents (Dict.get fs snap_path) else [])
unfolding run step
remove_part fs zero = refl
remove_part fs (suc zero) = ground (arith, get-remove fs snap_path snap_path, same_refl snap_path)
remove_part fs (suc (suc j)) =
    ground (arith, get-remove fs snap_path snap_path, same_refl snap_path)

no_bytes : (sn : GoString) → ltb 0 (length sn) ≡ false → sn ≡ []
no_bytes [] h = refl
no_bytes (b ∷ bs) h = absurd (ground arith)

snapshot_part :
    (fs : Files) (sn : GoString) (j : ℕ)
    → contents (Dict.get (run fs (take j (snapshot_steps sn))) snap_path)
      ≡ (if ltb j (length (snapshot_steps sn)) then contents (Dict.get fs snap_path) else sn)
unfolding snapshot_steps
snapshot_part fs sn j = elim (Bool-cases (ltb 0 (length sn))) [
  | inl given ↦
      rw given (ground (arith, write_part fs snap_path sn j, length-write_atomic snap_path sn))
  | inr empty ↦ let nothing = no_bytes sn empty in rw (empty, nothing) (remove_part fs j)
]

-- After a Save that ended anywhere, because calls of the file system failed or the process died,
-- the state is the old one or all of the new one, by how far its own part came, and the snapshot
-- likewise by its part. A Save that dies between the two leaves the new state with the old
-- snapshot.
pub save_part-reads :
    (i j : ℕ) (fs : Files) (st sn : Option GoString)
    → (read_raft_state (save_part i j fs st sn)
        ≡ (if ltb i (length (contents st) + 2) then read_raft_state fs else some (contents st)))
      × (contents (read_snapshot (save_part i j fs st sn)) ≡ (
          if ltb j (length (snapshot_steps (contents sn)))
          then contents (read_snapshot fs)
          else contents sn))
unfolding save_part read_raft_state read_snapshot
save_part-reads i j fs st sn =
    let fs' = run fs (take i (write_atomic state_path (contents st))) in
    (
      cut_snapshot_state fs' (contents sn) j ∙ write_part fs state_path (contents st) i,
      snapshot_part fs' (contents sn) j ∙ ground (arith, snapshot_kept fs (contents st) i),
    )
