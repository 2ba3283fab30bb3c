-- ===== src/Examples/Observing.antt =====
-- The messages, the metrics of requests, the log, the cache and the GitHub App at concrete inputs.
use scuffinger.Prelude.{
  ℕ, suc, ◌+◌, ◌≡◌, ◌↔◌, refl, String, string_eq, eq_iff, true, false, Option, none, some, [], ◌∷◌,
  ◌++◌, ◌==◌, ◌||◌, All, map, arith, inr, if◌then◌else◌, ◌+++◌,
}
use scuffinger.Prelude.Int.{ℤ, pos, leb_ℤ}
use scuffinger.Prelude.Map.{Map, lookup, insert, lookup-insert_self}
use scuffinger.Prelude.Result.{Result, ok, err, is_ok}
use scuffinger.I18n.Keys.{msg_health_ready}
use scuffinger.I18n.Catalogues.{catalogues, Translates, get-catalogues}
use scuffinger.Metrics.Http.{enter, after_next, panicked}
use scuffinger.Metrics.Http.Flight.{Traffic, idle, Counts, arrive, crash, here, next, Reach-Counts}
use scuffinger.GithubApp.{Request, Net, new_transport, usable, create_jwt, exchange_jwt}
use scuffinger.GithubApp.Token.{round_trips, base_trips, round_trips-base_trips}
use scuffinger.Cache.{Commands, new_cache_service, connect, self_test}
use scuffinger.Cache.Tested.{SetLaws, read_back, connect-self_test}
use scuffinger.Config.Load.{LogConfig}
use scuffinger.Logging.{
  Handler, Handlers, new_logger, debug, info, warn, error, level_debug, level_info, level_warn,
  level_error,
}
use scuffinger.Logging.Levels.{HandlersLaws, new_logger-Writes}
use scuffinger.Metrics.Counters.{inc_log_message}
use scuffinger.Logging.Yaml.{nil, attr, str, group, int, Formats, Entry, YamlHandler, handle}
use scuffinger.Logging.Lines.{leaf_line, leaves_of, Named, AllNamed, handle-leaves}

get-catalogues_example : All (Translates msg_health_ready) catalogues
get-catalogues_example = get-catalogues msg_health_ready

abbrev wall : ℕ → ℕ
wall w = w

-- one request that panicked
abbrev crashed : Traffic
crashed = record {
  metrics = (after_next wall 0 (panicked, enter idle.metrics, 5)).1;
  running = 0;
  answered = 0;
  panics = 1;
}

Reach-Counts_example : Counts crashed
Reach-Counts_example =
    Reach-Counts wall {t = crashed} (next (next here (arrive idle)) (crash _ 0 0 5 refl))

-- GitHub grants a token that is valid for an hour
abbrev net : Net ℕ
net = record {
  now = λ w. w;
  sign = λ c. ok "jwt";
  send = λ req w. (ok (record { status = 201; body = req.url }), w + 1);
  decode = λ b. ok ("v1", 3_600_000_000_000);
  number = λ n. "7";
}

abbrev request : Request
request = record { method = "GET"; url = "https://api.github.com/user"; headers = [] }

fresh : usable 0 (new_transport (pos 7) (pos 9)) ≡ false
unfolding new_transport
fresh = refl

signed : create_jwt net (new_transport (pos 7) (pos 9)) 0 ≡ ok "jwt"
unfolding create_jwt
signed = refl

granted :
    exchange_jwt net (new_transport (pos 7) (pos 9)) "jwt" 0 ≡ (ok ("v1", 3_600_000_000_000), 1)
unfolding exchange_jwt
granted = refl

round_trips-base_trips_example :
    round_trips net (new_transport (pos 7) (pos 9)) (request ∷ request ∷ []) 0 ≡ (
      let (rs, w) = base_trips net "v1" (request ∷ request ∷ []) 1 in
      (rs, record (new_transport (pos 7) (pos 9)) { token = "v1"; exp = 3_600_000_000_000 }, w))
round_trips-base_trips_example =
    round_trips-base_trips net (new_transport (pos 7) (pos 9)) request (request ∷ []) 0 1 "jwt" "v1"
      3_600_000_000_000 fresh signed granted (λ p. ground (arith, eq_iff "v1" "")) (omega arith, tt)

-- a cache whose world is its keys
abbrev Secrets : Type 0
Secrets = Map String String

unfoldable pub value_of : Option String → Result String String
value_of none = err "nil"
value_of (some v) = ok v

abbrev pub redis : Commands String Secrets
redis = record {
  new_client = λ a w. (a, w);
  ping = λ c w. (none, w);
  set_key = λ c k v w. (none, insert k v w);
  get_key = λ c k w. (value_of (lookup k w), w);
  close = λ c w. (none, w);
}

redis-SetLaws : SetLaws redis
unfolding value_of
redis-SetLaws = record { get-set = λ c k v v' w h p. cc (lookup-insert_self k v w, p) }

connect-self_test_example :
    (r : Option String × Secrets) × (self_test [] redis
        (λ s. s)
        (λ w. "now")
        (connect [] redis (new_cache_service "localhost:6379") []).1
        []
      ≡ some r)
    × ((r.0 ≡ none) ↔ (
        ((redis.set_key (redis.new_client "localhost:6379" []).0 "init" "now" []).0 ≡ none)
        × (is_ok
              (read_back [] redis (λ s. s) (λ w. "now") (redis.new_client "localhost:6379" []).0 [])
            ≡ true)))
connect-self_test_example =
    connect-self_test [] redis (λ s. s) (λ w. "now") redis-SetLaws
      (new_cache_service "localhost:6379") [] []

-- handlers that count what they write
abbrev counting : ℤ → Handler String ℕ
counting least = record {
  enabled = λ level. leb_ℤ least level;
  handle = λ level msg attrs w. suc w;
}

abbrev handlers : Handlers String ℕ
handlers = record { json = counting; text = counting; yaml = counting }

handlers-HandlersLaws : HandlersLaws handlers
handlers-HandlersLaws = record {
  json_enabled = λ a b. refl;
  text_enabled = λ a b. refl;
  yaml_enabled = λ a b. refl;
}

abbrev quiet : LogConfig
quiet = record { level = "warn"; format = "yaml" }

abbrev logger : Handler String ℕ
logger = new_logger (λ s. s) handlers quiet

new_logger-Writes_example :
    (debug logger [] "m" [] ([], 0) ≡ (
      inc_log_message "debug" [],
      if quiet.level == "debug" then logger.handle level_debug "m" [] 0 else 0,
    ))
    × (info logger "m" [] ([], 0) ≡ (
      inc_log_message "info" [],
      if quiet.level == "warn" || quiet.level == "warning" || quiet.level == "error"
          then 0
          else logger.handle level_info "m" [] 0,
    ))
    × (warn logger "m" [] ([], 0) ≡ (
      inc_log_message "warn" [],
      if quiet.level == "error" then 0 else logger.handle level_warn "m" [] 0,
    ))
    × (error logger "m" [] ([], 0)
        ≡ (inc_log_message "error" [], logger.handle level_error "m" [] 0))
new_logger-Writes_example =
    new_logger-Writes (λ s. s) handlers handlers-HandlersLaws quiet [] "m" [] [] 0

abbrev formats : Formats ℕ
formats = record {
  quoted = λ s. "'" +++ (s +++ "'");
  number = λ n. "1";
  six_places = λ x. "0.5";
  rfc3339_nano = λ t. "now";
  duration_text = λ d. "1s";
}

abbrev grouped : YamlHandler ℕ
grouped = record { level = none; attrs = attr "app" (str "scuffinger") nil; group = "http" }

abbrev entry : Entry ℕ
entry = record {
  time = pos 0;
  level = "INFO";
  message = "served";
  attrs = attr "request" (group (attr "status" (int (pos 1)) nil)) nil;
}

handle-leaves_example :
    handle formats grouped entry
    ≡ handle formats (record grouped { attrs = nil }) (record entry { attrs = nil })
      ++ map leaf_line (
          leaves_of formats ("http" ∷ []) grouped.attrs
          ++ leaves_of formats ("http" ∷ []) entry.attrs)
unfolding Named AllNamed
handle-leaves_example =
    handle-leaves formats grouped ("http" ∷ []) entry refl
      (inr (λ p. ground (arith, eq_iff "http" ""))) ((λ p. ground (arith, eq_iff "app" "")), tt, tt)
      (
        (λ p. ground (arith, eq_iff "request" "")),
        ((λ p. ground (arith, eq_iff "status" "")), tt, tt),
        tt,
      )
