-- ===== src/Shardctrlrd/Flags.antt =====
-- cmd/shardctrlrd/main.go, parseGroups: what is written in the flag is read.
use project_distributed_key.Base.{
  ℕ, ◌<◌, ◌^◌, ◌≡◌, refl, ◌∙◌, Bool, true, false, not, ◌&&◌, some, List, [], ◌∷◌, ◌++◌, arith, map,
  nat_beq,
}
use project_distributed_key.Base.Keys.{GoString, string_key, ◌==◌, bytes_beq}
use project_distributed_key.Base.Text.{
  split, join, split-join, decimal, decimal_plain, decimal_cons, all_bytes, all_bytes_mono,
  all_bytes-append, all_bytes-join, AllBytes, AllBytes-mono, differs, is_digit,
}
use project_distributed_key.Base.Int.{ℤ, pos, signed_key, atoi-decimal}
use project_distributed_key.Dict
use project_distributed_key.Dict.{Dict}
use project_distributed_key.Shardctrlrd.{parse_parts, parse_groups}

-- A group of the flag, with one server or more.
pub record Group : Type 0 where
  pub gid : ℕ
  pub server : GoString
  pub others : List GoString

-- gid=server,server
abbrev pub group_text : Group → GoString
group_text g = decimal g.gid ++ b'=' ∷ join b',' g.server g.others

-- Not one of the separators.
abbrev pub plain : ℕ → Bool
plain c = not (nat_beq c b';') && not (nat_beq c b'=') && not (nat_beq c b',')

-- The gid is an int, and no address has a separator in it.
pub record IsGroup (g : Group) : Type 0 where
  pub gid_fits : g.gid < 2 ^ 63
  pub server_plain : all_bytes plain g.server ≡ true
  pub others_plain : AllBytes plain g.others

abbrev pub AllGroups : List Group → Type 0
AllGroups [] = Unit {0}
AllGroups (g ∷ gs) = IsGroup g × AllGroups gs

-- groups[gid] = servers, for one group after the other
abbrev pub put_groups : List Group → Dict ℤ (List GoString) → Dict ℤ (List GoString)
put_groups [] m = m
put_groups (g ∷ gs) m = put_groups gs (Dict.put m (pos g.gid) (g.server ∷ g.others))

abbrev all_but : ℕ → ℕ → Bool
all_but sep c = differs sep c

-- A group's text has no semicolon, and its parts no equals sign and no comma.
module _ (g : Group) (w : IsGroup g) where
  servers_plain :
      (p : ℕ → Bool)
      → p b',' ≡ true
      → ((c : ℕ) → plain c ≡ true → p c ≡ true)
      → all_bytes p (join b',' g.server g.others) ≡ true
  servers_plain p comma weaker =
      all_bytes-join p b',' g.server g.others comma
        (all_bytes_mono plain p g.server weaker w.server_plain)
        (AllBytes-mono plain p g.others weaker w.others_plain)

  gid_plain :
      (p : ℕ → Bool)
      → ((c : ℕ) → is_digit c ≡ true → p c ≡ true)
      → all_bytes p (decimal g.gid) ≡ true
  gid_plain p weaker = all_bytes_mono is_digit p (decimal g.gid) weaker (decimal_plain g.gid)

  text_plain : all_bytes (differs b';') (group_text g) ≡ true
  unfolding all_bytes
  text_plain =
      let servers = servers_plain (differs b';') refl (λ c h. ground arith) in
      all_bytes-append (differs b';') (decimal g.gid) (b'=' ∷ join b',' g.server g.others)
        (gid_plain (differs b';') (λ c h. ground arith)) (ground (arith, servers))

  split_text : split b'=' (group_text g) ≡ decimal g.gid ∷ join b',' g.server g.others ∷ []
  unfolding join
  split_text =
      split-join b'=' (decimal g.gid) (join b',' g.server g.others ∷ [])
        (gid_plain (differs b'=') (λ c h. ground arith))
        (servers_plain (differs b'=') refl (λ c h. ground arith), tt)

  split_servers : split b',' (join b',' g.server g.others) ≡ g.server ∷ g.others
  split_servers =
      split-join b',' g.server g.others
        (all_bytes_mono plain (differs b',') g.server (λ c h. ground arith) w.server_plain)
        (AllBytes-mono plain (differs b',') g.others (λ c h. ground arith) w.others_plain)

  parse_part :
      (parts : List GoString) (m : Dict ℤ (List GoString))
      → parse_parts (group_text g ∷ parts) m
        ≡ parse_parts parts (Dict.put m (pos g.gid) (g.server ∷ g.others))
  unfolding parse_parts bytes_beq
  parse_part parts m =
      let (c, s, printed) = decimal_cons g.gid in
      let full : (group_text g == []) ≡ false = rw printed refl in
      rw (full, split_text, atoi-decimal g.gid w.gid_fits, split_servers) refl

parse_texts :
    (gs : List Group) (m : Dict ℤ (List GoString))
    → AllGroups gs
    → parse_parts (map group_text gs) m ≡ some (put_groups gs m)
unfolding parse_parts
parse_texts [] m all = refl
parse_texts (g ∷ gs) m (w, all) =
    parse_part g w (map group_text gs) m
    ∙ parse_texts gs (Dict.put m (pos g.gid) (g.server ∷ g.others)) all

texts_plain : (gs : List Group) → AllGroups gs → AllBytes (differs b';') (map group_text gs)
texts_plain [] all = tt
texts_plain (g ∷ gs) (w, all) = (text_plain g w, texts_plain gs all)

join_nonempty :
    (sep c : ℕ) (s : GoString) (ws : List GoString) → (join sep (c ∷ s) ws == []) ≡ false
unfolding join bytes_beq
join_nonempty sep c s [] = refl
join_nonempty sep c s (w ∷ ws) = refl

-- A flag that lists groups as gid=server,server between semicolons, where the gids are below 2^63
-- and the addresses have no separator, is parsed to the map of those groups, the last one of a gid
-- standing.
pub parse_groups-join :
    (g : Group) (gs : List Group)
    → AllGroups (g ∷ gs)
    → parse_groups (join b';' (group_text g) (map group_text gs))
      ≡ some (put_groups (g ∷ gs) Dict.make)
unfolding parse_groups
parse_groups-join g gs (w, all) =
    let (c, s, printed) = decimal_cons g.gid in
    let full : (join b';' (group_text g) (map group_text gs) == []) ≡ false =
      rw printed
        (join_nonempty b';' c (s ++ b'=' ∷ join b',' g.server g.others) (map group_text gs)) in
    let parts =
      split-join b';' (group_text g) (map group_text gs) (text_plain g w) (texts_plain gs all) in
    rw (full, parts) (parse_texts (g ∷ gs) Dict.make (w, all))
