-- ===== src/Persist/Disk.antt =====
-- internal/persist/disk.go. A directory is a map from file names to their bytes, and a call of the
-- file system is a step. A step that fails ends its writeAtomic, and a crash ends Save after any
-- step; a rename replaces a file at once.
pub mod Crash
use project_distributed_key.Base.{
  ℕ, ◌+◌, ◌<◌, ◌≡◌, ◌≢◌, refl, Bool, true, false, Option, none, some, List, [], ◌∷◌, ◌++◌, map,
  if◌then◌else◌, ltb, length, take,
}
use project_distributed_key.Base.Keys.{GoString, string_key, str, ◌==◌}
use project_distributed_key.Dict
use project_distributed_key.Dict.{Dict}
use project_distributed_key.Persist.{Persister, contents}

abbrev pub Files : Type 0
Files = Dict GoString GoString

-- O_CREATE with O_TRUNC; Write, a byte at a time; Rename; Remove. Sync and Close change no file.
pub data Step : Type 0 where
  truncate : GoString → Step
  append : GoString → ℕ → Step
  rename : GoString → GoString → Step
  remove : GoString → Step

unfoldable pub step : Files → Step → Files
step fs (truncate name) = Dict.put fs name []
step fs (append name b) = Dict.put fs name (contents (Dict.get fs name) ++ b ∷ [])
step fs (rename from to) = elim (Dict.get fs from) [
  | none ↦ fs
  | some bytes ↦ Dict.put (Dict.remove fs from) to bytes
]
step fs (remove name) = Dict.remove fs name

unfoldable pub run : Files → List Step → Files
run fs [] = fs
run fs (s ∷ ss) = run (step fs s) ss

abbrev pub tmp_path : GoString → GoString
tmp_path filename = filename ++ str ".tmp"

unfoldable pub write_atomic : GoString → GoString → List Step
write_atomic filename bytes =
    truncate (tmp_path filename) ∷ map (append (tmp_path filename)) bytes
    ++ rename (tmp_path filename) filename ∷ []

abbrev pub state_path : GoString
state_path = str "raftstate.bin"

abbrev pub snap_path : GoString
snap_path = str "snapshot.bin"

unfoldable pub snapshot_steps : GoString → List Step
snapshot_steps snapshot =
    if ltb 0 (length snapshot) then write_atomic snap_path snapshot else remove snap_path ∷ []

-- Save, when the part of each file ends after so many of its steps: all of them, fewer because of
-- a failed call, or none because of a crash before.
unfoldable pub save_part : ℕ → ℕ → Files → Option GoString → Option GoString → Files
save_part i j fs raftstate snapshot =
    run (run fs (take i (write_atomic state_path (contents raftstate))))
      (take j (snapshot_steps (contents snapshot)))

unfoldable pub save : Files → Option GoString → Option GoString → Files
save fs raftstate snapshot =
    run (run fs (write_atomic state_path (contents raftstate))) (snapshot_steps (contents snapshot))

unfoldable pub read_raft_state : Files → Option GoString
read_raft_state fs = Dict.get fs state_path

unfoldable pub read_snapshot : Files → Option GoString
read_snapshot fs = Dict.get fs snap_path

-- os.Stat; 0 if there is no file
unfoldable pub persist_bytes : Files → ℕ
persist_bytes fs = length (contents (Dict.get fs state_path))

abbrev pub disk : Persister Files
disk = record {
  save = save;
  read_raft_state = read_raft_state;
  read_snapshot = read_snapshot;
  persist_bytes = persist_bytes;
}
