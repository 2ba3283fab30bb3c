-- ===== src/Server/Debug/Key.antt =====
-- `GetKey` of internal/server/debug.go. The commands of the cache are parameters: `S` is the type of
-- a scored member and `M` that of a message of a stream. A command whose error the code drops
-- answers a value all the same.
pub mod Answered
use scuffinger.Prelude.{
  ℕ, zero, suc, ◌-◌, String, string_eq, Option, none, some, List, [], ◌∷◌, ◌==◌, length, leb,
  behind, if◌then◌else◌, ◌+++◌,
}
use scuffinger.Prelude.Int.{ℤ}
use scuffinger.Prelude.Result.{Result, ok, err}
use scuffinger.I18n.{Error}
use scuffinger.Server.Debug.Scan.{ttl_seconds}

pub record KeyCommands (S M W : Type 0) : Type 0 where
  pub type_of : String → W → Result Error String × W
  pub ttl_of : String → W → ℤ × W
  pub get : String → W → Result Error String × W
  pub list_range : String → ℕ → ℕ → W → Result Error (List String) × W
  pub set_members : String → W → Result Error (List String) × W
  pub sorted_range : String → ℕ → ℕ → W → Result Error (List S) × W
  pub hash_all : String → W → Result Error (List (String × String)) × W
  pub stream_range : String → String → String → W → Result Error (List M) × W
  pub memory_usage : String → W → ℤ × W

pub data Value (S M : Type 0) : Type 0 where
  text : String → Value S M
  elements : List String → Value S M
  members : List String → Value S M
  scored : List S → Value S M
  fields : List (String × String) → Value S M
  messages : List M → Value S M
  unsupported : String → Value S M

-- status 400, 500, 404 or 200
pub data KeyResponse (S M : Type 0) : Type 0 where
  bad_request : String → KeyResponse S M
  server_error : Error → KeyResponse S M
  missing : String → KeyResponse S M
  found : String → String → ℤ → ℤ → Value S M → KeyResponse S M

abbrev pub max_elements : ℕ
max_elements = 1000

-- msgs[:n]
unfoldable pub take {ℓ} : {A : Type ℓ} → ℕ → List A → List A
take zero xs = []
take (suc n) [] = []
take (suc n) (x ∷ xs) = x ∷ take n xs

-- the path parameter begins with the slash of the wildcard
unfoldable pub trimmed : String → Option String → String
trimmed s none = s
trimmed s (some rest) = rest

unfoldable pub key_of : String → String
unfolding trimmed
key_of param = trimmed param (behind "/" param)

-- at most that many messages
unfoldable pub capped {ℓ} : {A : Type ℓ} → List A → List A
capped msgs = if leb (length msgs) max_elements then msgs else take max_elements msgs

module _ {S M W : Type 0} (redis : KeyCommands S M W) (quoted : String → String) where
  unfoldable pub read_as :
      {A : Type 0} → (A → Value S M) → Result Error A × W → Result Error (Value S M) × W
  read_as make (ok a, w) = (ok (make a), w)
  read_as make (err e, w) = (err e, w)

  -- the switch over the types
  unfoldable pub value_of : String → String → W → Result Error (Value S M) × W
  unfolding read_as capped
  value_of kind key w =
      if kind == "string"
      then read_as text (redis.get key w)
      else if kind == "list"
      then read_as elements (redis.list_range key 0 (max_elements - 1) w)
      else if kind == "set"
      then read_as members (redis.set_members key w)
      else if kind == "zset"
      then read_as scored (redis.sorted_range key 0 (max_elements - 1) w)
      else if kind == "hash"
      then read_as fields (redis.hash_all key w)
      else if kind == "stream"
      then read_as (λ msgs. messages (capped msgs)) (redis.stream_range key "-" "+" w)
      else (ok (unsupported ("(unsupported type: " +++ (kind +++ ")"))), w)

  unfoldable pub value_found :
      String → String → ℤ → Result Error (Value S M) × W → KeyResponse S M × W
  value_found key kind ttl (err e, w) = (server_error e, w)
  value_found key kind ttl (ok v, w) =
      let (mem, w') = redis.memory_usage key w in (found key kind (ttl_seconds ttl) mem v, w')

  unfoldable pub type_found : String → Result Error String × W → KeyResponse S M × W
  unfolding value_found value_of
  type_found key (err e, w) = (server_error e, w)
  type_found key (ok kind, w) =
      let (ttl, w') = redis.ttl_of key w in
      let answer = value_found key kind ttl (value_of kind key w') in
      if kind == "none"
      then (missing ("key " +++ (quoted key +++ " does not exist")), w)
      else answer

  -- on the path parameter
  unfoldable pub get_key : String → W → KeyResponse S M × W
  unfolding key_of type_found
  get_key param w =
      let key = key_of param in
      if key == "" then (bad_request "key is required", w) else type_found key (redis.type_of key w)
