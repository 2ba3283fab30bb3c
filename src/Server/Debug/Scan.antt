-- ===== src/Server/Debug/Scan.antt =====
-- `ScanKeys` of internal/server/debug.go. The client of the cache and package strings' case table
-- are parameters; a duration counts nanoseconds.
use Prim.Native.Char.{code}
use scuffinger.Prelude.{
  ℕ, zero, suc, ◌+◌, ◌-◌, ◌*◌, ◌/◌, ◌^◌, String, string_eq, ℕ_eq, Bool, ◌&&◌, ◌||◌, Option, none,
  some, List, [], ◌∷◌, ◌++◌, ◌==◌, if◌then◌else◌, decimal, length, ltb, leb,
}
use scuffinger.Prelude.Int.{ℤ, pos, negsuc, pos_part}
use scuffinger.Prelude.Result.{Result, ok, err}
use scuffinger.I18n.{Error}
use scuffinger.Server.Debug.Query.{default_query, limit_of, contains}

pub record KeyEntry : Type 0 where
  pub key : String
  pub type : String
  pub ttl : ℤ

-- the query parameters; `none` is an absent one that has a default
pub record ScanRequest : Type 0 where
  pub glob : Option String
  pub q : String
  pub key_type : String
  pub limit : Option String
  pub cursor : Option String

-- SCAN from a cursor with a glob and a count, TYPE and TTL
pub record Redis (W : Type 0) : Type 0 where
  pub scan : ℕ → String → ℕ → W → Result Error (List String × ℕ) × W
  pub type_of : String → W → Result Error String × W
  pub ttl_of : String → W → Result Error ℤ × W

pub data ScanResponse : Type 0 where
  server_error : Error → ScanResponse
  keys_page : String → String → ℕ → List KeyEntry → ScanResponse

-- strconv.ParseUint, whose error is dropped: a syntax error leaves 0, and a number out of range the
-- greatest one, at the first digit that passes it
parse_digits : ℕ → String → ℕ
parse_digits n String.[] = n
parse_digits n (String.◌∷◌ c s) =
    let m = 10 * n + (code c - b'0') in
    let rest = parse_digits m s in
    if leb b'0' (code c) && leb (code c) b'9'
    then if leb (2 ^ 64) m then 2 ^ 64 - 1 else rest
    else 0

unfoldable pub parse_cursor : String → ℕ
unfolding parse_digits
parse_cursor s = parse_digits 0 s

negated : ℕ → ℤ
negated zero = pos 0
negated (suc n) = negsuc n

-- whole seconds, towards zero
unfoldable pub ttl_seconds : ℤ → ℤ
unfolding negated
ttl_seconds (pos n) = pos (n / 1_000_000_000)
ttl_seconds (negsuc n) = negated (suc n / 1_000_000_000)

module _ {W : Type 0} (to_lower : String → String) (redis : Redis W) where
  abbrev pub name_matches : String → String → Bool
  name_matches q k = q == "" || contains (to_lower k) q

  abbrev pub type_matches : String → String → Bool
  type_matches t kt = t == "" || kt == t

  unfoldable pub timed_key :
      String → String → List KeyEntry → Result Error ℤ × W → List KeyEntry × W
  timed_key k kt keys (err e, w) = (keys, w)
  timed_key k kt keys (ok ttl, w) =
      (keys ++ (record { key = k; type = kt; ttl = ttl_seconds ttl } ∷ []), w)

  unfoldable pub typed_key :
      String → String → List KeyEntry → Result Error String × W → List KeyEntry × W
  unfolding timed_key
  typed_key t k keys (err e, w) = (keys, w)
  typed_key t k keys (ok kt, w) =
      if type_matches t kt then timed_key k kt keys (redis.ttl_of k w) else (keys, w)

  -- one scanned key
  unfoldable pub scan_key : String → String → String → List KeyEntry → W → List KeyEntry × W
  unfolding typed_key
  scan_key q t k keys w =
      if name_matches q k then typed_key t k keys (redis.type_of k w) else (keys, w)

  -- The loop over a batch, which breaks off at the limit.
  unfoldable pub scan_batch :
      String → String → ℕ → List String → List KeyEntry × W → List KeyEntry × W
  scan_batch q t limit [] (keys, w) = (keys, w)
  scan_batch q t limit (k ∷ ks) (keys, w) =
      let rest = scan_batch q t limit ks (scan_key q t k keys w) in
      if leb limit (length keys) then (keys, w) else rest

  abbrev pub key_limit : ScanRequest → ℕ
  key_limit r = pos_part (limit_of r.limit)

  abbrev pub first_cursor : ScanRequest → ℕ
  first_cursor r = parse_cursor (default_query "0" r.cursor)

  unfoldable pub scan_answer : ScanRequest → ℕ → List KeyEntry → ScanResponse
  scan_answer r next keys = keys_page (default_query "*" r.glob) (decimal next) (length keys) keys

  -- a batch, with the rest of the loop
  unfoldable pub batch_found :
      ScanRequest
      → List KeyEntry
      → (ℕ → List KeyEntry → W → Option (ScanResponse × W))
      → Result Error (List String × ℕ) × W
      → Option (ScanResponse × W)
  batch_found r keys rest (err e, w) = some (server_error e, w)
  batch_found r keys rest (ok (ks, next), w) =
      let b = scan_batch (to_lower r.q) (to_lower r.key_type) (key_limit r) ks (keys, w) in
      if next == 0 then some (scan_answer r next b.0, b.1) else rest next b.0 b.1

  -- The loop; `none` is the end of the fuel.
  unfoldable pub scan_loop : ScanRequest → ℕ → ℕ → List KeyEntry → W → Option (ScanResponse × W)
  scan_loop r zero next keys w = none
  scan_loop r (suc fuel) next keys w =
      if ltb (length keys) (key_limit r)
      then batch_found r keys (scan_loop r fuel)
          (redis.scan next (default_query "*" r.glob) (key_limit r * 2) w)
      else some (scan_answer r next keys, w)

  unfoldable pub scan_keys : ℕ → ScanRequest → W → Option (ScanResponse × W)
  scan_keys fuel r w = scan_loop r fuel (first_cursor r) [] w
