-- ===== src/Config/Load.antt =====
-- internal/config/config.go: the whole configuration, its addresses, and `Load`. The library viper is
-- a parameter: `V` is the type of its instances, and `decoder` its Unmarshal. The warning of a file
-- that is there but cannot be read goes to the standard output, and is not modelled.
pub mod Loaded
use scuffinger.Prelude.{String, Bool, true, Option, List, [], ◌∷◌, ◌+++◌}
use scuffinger.Prelude.Int.{ℤ, pos}
use scuffinger.Prelude.Result.{Result, ok, err}
use scuffinger.I18n.{Error}
use scuffinger.Config.{GithubConfig, migrate}

pub record ServerConfig : Type 0 where
  pub host : String
  pub port : ℤ

pub record LogConfig : Type 0 where
  pub level : String
  pub format : String

pub record AppConfig : Type 0 where
  pub name : String
  pub version : String

pub record DatabaseConfig : Type 0 where
  pub host : String
  pub port : ℤ
  pub user : String
  pub password : String
  pub name : String
  pub ssl_mode : String

pub record CacheConfig : Type 0 where
  pub host : String
  pub port : ℤ
  pub github_cache_ttl : String

pub record Config : Type 0 where
  pub server : ServerConfig
  pub log : LogConfig
  pub app : AppConfig
  pub database : DatabaseConfig
  pub cache : CacheConfig
  pub github : GithubConfig

-- a default value; the two lists are empty
pub data Default : Type 0 where
  text : String → Default
  number : ℤ → Default
  flag : Bool → Default
  no_texts : Default
  no_applications : Default

pub record Viper (V W : Type 0) : Type 0 where
  pub new : V
  pub set_config_file : String → V → V
  pub set_default : String → Default → V → V
  pub read_in_config : V → W → Option Error × V
  pub set_env_prefix : String → V → V
  pub replace_in_env_keys : String → String → V → V
  pub automatic_env : V → V
  pub decoder : V → W → Result Error Config

-- the calls of SetDefault
abbrev pub defaults : List (String × Default)
defaults =
    ("server.host", text "0.0.0.0")
    ∷ ("server.port", number (pos 8080))
    ∷ ("log.level", text "info")
    ∷ ("log.format", text "json")
    ∷ ("app.name", text "scuffinger")
    ∷ ("app.version", text "0.1.0")
    ∷ ("database.host", text "localhost")
    ∷ ("database.port", number (pos 5432))
    ∷ ("database.user", text "scuffinger")
    ∷ ("database.password", text "scuffinger")
    ∷ ("database.name", text "scuffinger")
    ∷ ("database.sslmode", text "disable")
    ∷ ("cache.host", text "localhost")
    ∷ ("cache.port", number (pos 6379))
    ∷ ("cache.github_cache_ttl", text "5m")
    ∷ ("github.token", text "")
    ∷ ("github.tokens", no_texts)
    ∷ ("github.client_id", text "")
    ∷ ("github.app_id", number (pos 0))
    ∷ ("github.installation_id", number (pos 0))
    ∷ ("github.private_key_path", text "")
    ∷ ("github.applications", no_applications)
    ∷ ("github.organization", text "")
    ∷ ("github.rate_limit_threshold", number (pos 100))
    ∷ ("github.repositories", no_texts)
    ∷ ("github.collector_interval", text "5m")
    ∷ ("github.max_recent_runs", number (pos 5))
    ∷ ("github.fetch_annotations", flag true)
    ∷ []

decoded : Result Error Config → Result Error Config
decoded (err e) = err ("unable to unmarshal config: " +++ e)
decoded (ok cfg) = ok (record cfg { github = migrate cfg.github })

module _ {V W : Type 0} (viper : Viper V W) where
  unfoldable pub set_defaults : List (String × Default) → V → V
  set_defaults [] v = v
  set_defaults ((key, d) ∷ ds) v = set_defaults ds (viper.set_default key d v)

  -- the instance that is decoded: the error of reading the file stops nothing
  unfoldable pub prepared : String → W → V
  prepared path w =
      let v = set_defaults defaults (viper.set_config_file path viper.new) in
      viper.automatic_env (
        viper.replace_in_env_keys "." "_"
          (viper.set_env_prefix "SCUFFINGER" (viper.read_in_config v w).1))

  unfoldable pub load : String → W → Result Error Config
  unfolding decoded
  load path w = decoded (viper.decoder (prepared path w) w)

-- `decimal` is fmt's `%d`
module _ (decimal : ℤ → String) where
  unfoldable pub dsn : DatabaseConfig → String
  dsn d =
      "host="
      +++ (d.host
          +++ (" port="
              +++ (decimal d.port
                  +++ (" user="
                      +++ (d.user
                          +++ (" password="
                              +++ (d.password
                                  +++ (" dbname="
                                      +++ (d.name +++ (" sslmode=" +++ d.ssl_mode))))))))))

  unfoldable pub cache_address : CacheConfig → String
  cache_address c = c.host +++ (":" +++ decimal c.port)

  unfoldable pub server_address : Config → String
  server_address c = c.server.host +++ (":" +++ decimal c.server.port)
