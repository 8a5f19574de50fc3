-- ===== src/Transport/Local.antt =====
-- internal/transport/local.go. R is the receivers, which Call reaches by reflection.
pub mod Partitions
use project_distributed_key.Base.{
  ℕ, zero, suc, ◌-◌, Bool, true, false, not, ◌&&◌, ◌||◌, Option, none, some, List, [], ◌∷◌, ◌++◌,
  if◌then◌else◌, length, get_elem?, take,
}
use project_distributed_key.Base.Keys.{GoString, string_key, str, ◌==◌}
use project_distributed_key.Base.Options.{◌>>=◌}
use project_distributed_key.Base.Text.{split, decimal, is_digit}
use project_distributed_key.Dict
use project_distributed_key.Dict.{Dict}
use project_distributed_key.Core.Raft.{RequestVoteArgs, AppendEntriesArgs, InstallSnapshotArgs}
use project_distributed_key.Core.Command.{Payload}

pub record LocalNetwork (R : Type 0) : Type 0 where
  pub receivers : Dict GoString (Dict GoString R)
  pub disabled : Dict GoString (Dict GoString Bool)
  pub unreliable : Bool

unfoldable pub new_local_network : {R : Type 0} → LocalNetwork R
new_local_network = record { receivers = Dict.make; disabled = Dict.make; unreliable = false }

-- if _, ok := m[k]; !ok { m[k] = make(map...) }
abbrev pub ensure :
    {V : Type 0} → Dict GoString (Dict GoString V) → GoString → Dict GoString (Dict GoString V)
ensure m k = elim (Dict.get m k) [ none ↦ Dict.put m k Dict.make | some inner ↦ m ]

-- m[k1], the nil map if there is none
abbrev pub inner : {V : Type 0} → Dict GoString (Dict GoString V) → GoString → Dict GoString V
inner m k = elim (Dict.get m k) [ none ↦ Dict.make | some i ↦ i ]

-- m[k1][k2] = v, where m has k1
abbrev pub write :
    {V : Type 0}
    → Dict GoString (Dict GoString V)
    → GoString
    → GoString
    → V
    → Dict GoString (Dict GoString V)
write m k1 k2 v = Dict.put m k1 (Dict.put (inner m k1) k2 v)

-- What the program sends: Raft's requests, and those that a group or the metadata server executes.
pub data Args : Type 0 where
  vote_args : RequestVoteArgs → Args
  append_args : AppendEntriesArgs → Args
  snapshot_args : InstallSnapshotArgs → Args
  request_args : Payload → Args

-- val.FieldByName(name), if it is an int
abbrev pub int_field : Args → GoString → Option ℕ
int_field (vote_args a) name = if name == str "CandidateID" then some a.candidate_id else none
int_field (append_args a) name = if name == str "LeaderID" then some a.leader_id else none
int_field (snapshot_args a) name = if name == str "LeaderID" then some a.leader_id else none
int_field (request_args p) name = none

unfoldable pub first_field : Args → List GoString → Option ℕ
first_field args [] = none
first_field args (name ∷ names) = elim (int_field args name) [
  | none ↦ first_field args names
  | some idx ↦ some idx
]

-- idx
unfoldable pub sender : Args → Option ℕ
unfolding first_field
sender args = first_field args (str "CandidateID" ∷ str "LeaderID" ∷ str "Me" ∷ [])

-- i+1 after the loop, from i+1 before it
unfoldable pub strip_digits : GoString → ℕ → ℕ
strip_digits dest zero = zero
strip_digits dest (suc i) = elim (get_elem? dest i) [
  | none ↦ suc i
  | some c ↦ if is_digit c then strip_digits dest i else suc i
]

unfoldable pub get_caller_addr : GoString → Args → GoString
get_caller_addr dest args = elim (sender args) [
  | none ↦ []
  | some idx ↦ take (strip_digits dest (length dest)) dest ++ decimal idx
]

abbrev two_parts : List GoString → Option (GoString × GoString)
two_parts (service ∷ method ∷ []) = some (service, method)
two_parts _ = none

-- if m[k1] != nil { delete(m[k1], k2) }
abbrev pub forget :
    Dict GoString (Dict GoString Bool) → GoString → GoString → Dict GoString (Dict GoString Bool)
forget m k1 k2 = elim (Dict.get m k1) [ none ↦ m | some i ↦ Dict.put m k1 (Dict.remove i k2) ]

-- m[k1][k2], read; false where a key is missing
unfoldable pub is_cut : Dict GoString (Dict GoString Bool) → GoString → GoString → Bool
is_cut m k1 k2 = elim (Dict.get (inner m k1) k2) [ none ↦ false | some cut ↦ cut ]

module _ {R : Type 0} where
  unfoldable pub register : LocalNetwork R → GoString → GoString → R → LocalNetwork R
  register ln peer service rcvr = record ln {
    receivers = write (ensure ln.receivers peer) peer service rcvr;
  }

  -- Call behind the caller's address, whose calls to the peer are `cut` or not. The receiver and the
  -- method that it runs, if it returns true.
  unfoldable pub deliver :
      (R → GoString → Bool)
      → Bool
      → Dict GoString (Dict GoString R)
      → Bool
      → GoString
      → GoString
      → Option (R × GoString)
  deliver has_method lost receivers cut peer method =
      (two_parts (split b'.' method) >>= λ parts.
      if lost || cut
      then none
      else (Dict.get receivers peer >>= λ srvs. Dict.get srvs parts.0 >>= λ rcvr.
          if has_method rcvr parts.1 then some (rcvr, parts.1) else none))

  -- `drop` is the draw of rand.Intn(100) < 15, `has_method` is MethodByName.
  unfoldable pub call :
      (R → GoString → Bool)
      → Bool
      → LocalNetwork R
      → GoString
      → GoString
      → Args
      → Option (R × GoString)
  call has_method drop ln peer method args =
      let caller = get_caller_addr peer args in
      deliver has_method (ln.unreliable && drop) ln.receivers
        (not (caller == []) && is_cut ln.disabled caller peer) peer method

  unfoldable pub partition : LocalNetwork R → GoString → GoString → LocalNetwork R
  partition ln peer1 peer2 =
      let made = ensure (ensure ln.disabled peer1) peer2 in
      record ln { disabled = write (write made peer1 peer2 true) peer2 peer1 true }

  unfoldable pub heal : LocalNetwork R → GoString → GoString → LocalNetwork R
  heal ln peer1 peer2 = record ln { disabled = forget (forget ln.disabled peer1 peer2) peer2 peer1 }

  unfoldable pub set_unreliable : LocalNetwork R → Bool → LocalNetwork R
  set_unreliable ln unreliable = record ln { unreliable = unreliable }
