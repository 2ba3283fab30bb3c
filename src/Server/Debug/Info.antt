-- ===== src/Server/Debug/Info.antt =====
-- `CacheStats` and `parseRedisInfo` of internal/server/debug.go. `to_lower` stands for
-- `strings.ToLower`.
use Prim.Native.Char.{Char, code}
use scuffinger.Prelude.{
  ℕ, String, string_eq, Bool, ◌&&◌, ◌||◌, Option, none, some, List, [], ◌∷◌, ◌==◌, nat_eq, leb,
  behind, if◌then◌else◌,
}
use scuffinger.Prelude.Map.{Map, lookup, insert, has_key}
use scuffinger.Prelude.Result.{Result, ok, err}
use scuffinger.I18n.{Error}

-- unicode.IsSpace
abbrev is_space : ℕ → Bool
is_space c =
    (leb 9 c && leb c 13)
    || nat_eq c 0x20
    || nat_eq c 0x85
    || nat_eq c 0xA0
    || nat_eq c 0x1680
    || (leb 0x2000 c && leb c 0x200A)
    || nat_eq c 0x2028
    || nat_eq c 0x2029
    || nat_eq c 0x202F
    || nat_eq c 0x205F
    || nat_eq c 0x3000

trim_left : String → String
trim_left String.[] = ""
trim_left (String.◌∷◌ c s) =
    let rest = trim_left s in if is_space (code c) then rest else String.◌∷◌ c s

trim_right : String → String
trim_right String.[] = ""
trim_right (String.◌∷◌ c s) =
    let rest = trim_right s in if is_space (code c) && rest == "" then "" else String.◌∷◌ c rest

-- strings.TrimSpace
unfoldable pub trim_space : String → String
unfolding trim_left trim_right
trim_space s = trim_left (trim_right s)

-- the text before the first character of that code, and what stands behind it
unfoldable pub split_first : ℕ → String → String × Option String
split_first d String.[] = ("", none)
split_first d (String.◌∷◌ c s) =
    let rest = split_first d s in
    if nat_eq (code c) d then ("", some s) else (String.◌∷◌ c rest.0, rest.1)

prepended : Char → List String → List String
prepended c [] = String.◌∷◌ c "" ∷ []
prepended c (l ∷ ls) = String.◌∷◌ c l ∷ ls

-- strings.Split(s, "\n")
unfoldable pub split_lines : String → List String
unfolding prepended
split_lines String.[] = "" ∷ []
split_lines (String.◌∷◌ c s) =
    let rest = split_lines s in if nat_eq (code c) b'\n' then "" ∷ rest else prepended c rest

-- What a line is: blank or without a colon, a header with its title, or a binding.
pub data Line : Type 0 where
  other : Line
  header : String → Line
  binding : String → String → Line

colon_line : String × Option String → Line
colon_line (key, none) = other
colon_line (key, some value) = binding key value

header_line : String → Option String → Line
unfolding colon_line
header_line line none = colon_line (split_first b':' line)
header_line line (some title) = header title

-- a trimmed line
unfoldable pub line_of : String → Line
unfolding header_line
line_of line = if line == "" then other else header_line line (behind "# " line)

abbrev pub Sections : Type 0
Sections = Map String (Map String String)

-- the variables of the loop
pub record Parsing : Type 0 where
  pub current : String
  pub sections : Sections

-- the section is made if it is not there
unfoldable pub made : String → Sections → Sections
made name sections = if has_key name sections then sections else insert name [] sections

unfoldable pub fields_of : Option (Map String String) → Map String String
fields_of none = []
fields_of (some fields) = fields

-- sections[name][key] = value
unfoldable pub put : String → String → String → Sections → Sections
unfolding fields_of
put name key value sections =
    insert name (insert key value (fields_of (lookup name sections))) sections

module _ (to_lower : String → String) where
  unfoldable pub note : Line → Parsing → Parsing
  unfolding made put
  note other p = p
  note (header title) p = record {
    current = to_lower title;
    sections = made (to_lower title) p.sections;
  }
  note (binding key value) p = record p {
    sections = put p.current key value (made p.current p.sections);
  }

  unfoldable pub parse_lines : List String → Parsing → Parsing
  unfolding note
  parse_lines [] p = p
  parse_lines (l ∷ ls) p = parse_lines ls (note (line_of (trim_space l)) p)

  unfoldable pub parse_redis_info : String → Sections
  parse_redis_info info =
      (parse_lines (split_lines info) (record { current = "default"; sections = [] })).sections

  -- what the handler answers: status 500, or the size of the database with the sections
  pub data StatsResponse : Type 0 where
    server_error : Error → StatsResponse
    stats : ℕ → Sections → StatsResponse

  -- `info` and `db_size` are the commands of the client; the error of the second is dropped
  module _ {W : Type 0} (info : W → Result Error String × W) (db_size : W → ℕ × W) where
    info_found : Result Error String × W → StatsResponse × W
    info_found (err e, w) = (server_error e, w)
    info_found (ok text, w) = let (n, w') = db_size w in (stats n (parse_redis_info text), w')

    unfoldable pub cache_stats : W → StatsResponse × W
    unfolding info_found
    cache_stats w = info_found (info w)
