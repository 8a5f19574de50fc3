-- ===== src/Transport/Env.antt =====
-- internal/transport/grpc.go, the .env file behind translateAddr. What os.Getenv and the directories
-- from the working directory up hold is an argument; sync.Once reads the file at the first use.
use project_distributed_key.Base.{
  ℕ, Bool, true, false, ◌&&◌, ◌||◌, Option, none, some, List, [], ◌∷◌, ◌++◌, if◌then◌else◌, nat_beq,
  leb, foldl,
}
use project_distributed_key.Base.Keys.{GoString, string_key, str, ◌==◌}
use project_distributed_key.Dict
use project_distributed_key.Dict.{Dict}

-- The spaces of strings.TrimSpace within ASCII
abbrev is_space : ℕ → Bool
is_space c = nat_beq c 32 || (leb 9 c && leb c 13)

unfoldable pub trim_left : GoString → GoString
trim_left [] = []
trim_left (c ∷ s) = if is_space c then trim_left s else c ∷ s

unfoldable pub trim_right : GoString → GoString
trim_right [] = []
trim_right (c ∷ s) = let rest = trim_right s in if rest == [] && is_space c then [] else c ∷ rest

unfoldable pub trim_space : GoString → GoString
unfolding trim_left trim_right
trim_space s = trim_right (trim_left s)

-- strings.SplitN(s, sep, 2), if s has the separator
unfoldable pub cut : ℕ → GoString → Option (GoString × GoString)
cut sep [] = none
cut sep (c ∷ s) = elim (nat_beq c sep) [
  | true ↦ some ([], s)
  | false ↦ elim (cut sep s) [ none ↦ none | some (before, after) ↦ some (c ∷ before, after) ]
]

abbrev is_comment : GoString → Bool
is_comment [] = true
is_comment (c ∷ s) = nat_beq c b'#'

-- The loop over the lines of the file; an empty line and a comment are passed over.
unfoldable pub load_line : Dict GoString GoString → GoString → Dict GoString GoString
unfolding trim_space cut
load_line env text =
    let line = trim_space text in
    if is_comment line then env else elim (cut b'=' line) [
      | none ↦ env
      | some (key, val) ↦ Dict.put env (trim_space key) (trim_space val)
    ]

-- .env in one directory: os.Stat fails, os.Open fails, or the lines of the file
pub data EnvFile : Type 0 where
  missing unreadable : EnvFile
  lines : List GoString → EnvFile

-- The walk from the working directory to the root; no directory if os.Getwd fails.
unfoldable pub load_env_file : List EnvFile → Dict GoString GoString
unfolding load_line
load_env_file [] = Dict.make
load_env_file (missing ∷ dirs) = load_env_file dirs
load_env_file (unreadable ∷ dirs) = Dict.make
load_env_file (lines ls ∷ dirs) = foldl load_line Dict.make ls

unfoldable pub get_env : (GoString → GoString) → List EnvFile → GoString → GoString → GoString
unfolding load_env_file
get_env getenv dirs key default_val =
    if getenv key == []
    then elim (Dict.get (load_env_file dirs) key) [ none ↦ default_val | some val ↦ val ]
    else getenv key

unfoldable pub translate_addr : (GoString → GoString) → List EnvFile → GoString → GoString
unfolding get_env
translate_addr getenv dirs addr = get_env getenv dirs (str "MAP_" ++ addr) addr
