-- ===== src/Examples/Commanding.antt =====
-- The commands and the configuration at concrete inputs.
use scuffinger.Prelude.{ℕ, ◌↔◌, String, string_eq, true, false, Option, none, some, [], ◌∷◌, ◌==◌}
use scuffinger.Prelude.Int.{pos}
use scuffinger.Prelude.Map.{Map, insert}
use scuffinger.Prelude.Result.{Result, ok, err}
use scuffinger.I18n.{Error}
use scuffinger.Config.{GithubAppConfig, first_client_id}
use scuffinger.Config.Load.{Config, CacheConfig, DatabaseConfig, Viper, load, prepared}
use scuffinger.Config.Load.Loaded.{Loads, load-Loads}
use scuffinger.Vault.Memory.{memory_store}
use scuffinger.Examples.Storing.{memory_store-credentials}
use scuffinger.Bootstrap.{Parts}
use scuffinger.Commands.Root.{Command, Session, pre_run}
use scuffinger.Commands.Login.{github_auth}
use scuffinger.Commands.Login.Stored.{Stored, github_auth-Stored}
use scuffinger.Examples.Managing.{cache, succeeds, clock, github_config, vault}
use scuffinger.Examples.Storing.{web, web-ClockLaws}

abbrev config : Config
config = record {
  server = record { host = "0.0.0.0"; port = pos 8080 };
  log = record { level = "info"; format = "json" };
  app = record { name = "scuffinger"; version = "0.1.0" };
  database = record {
    host = "localhost";
    port = pos 5432;
    user = "scuffinger";
    password = "scuffinger";
    name = "scuffinger";
    ssl_mode = "disable";
  };
  cache = record { host = "localhost"; port = pos 6379; github_cache_ttl = "5m" };
  github = record github_config { token = "legacy"; app_id = pos 3 };
}

-- an instance that remembers nothing and decodes that configuration
abbrev viper : Viper (Unit {0}) ℕ
viper = record {
  new = tt;
  set_config_file = λ p v. v;
  set_default = λ k d v. v;
  read_in_config = λ v w. (some "no such file", v);
  set_env_prefix = λ p v. v;
  replace_in_env_keys = λ old new v. v;
  automatic_env = λ v. v;
  decoder = λ v w. ok config;
}

load-Loads_example :
    Loads (viper.decoder (prepared viper "config.yaml" 0) 0) (load viper "config.yaml" 0)
load-Loads_example = load-Loads viper "config.yaml" 0

abbrev parts : CacheConfig → DatabaseConfig → Parts ℕ
parts c d = record {
  cache = cache;
  database = record cache { name = "database" };
  github = λ g. record cache { name = "github" };
  collector = λ g. record cache { name = "github_collector" };
  create_tables = succeeds;
  start_collector = λ w. w;
}

abbrev serve : Command
serve = record { annotations = ("skipCollector", "true") ∷ []; has_parent = true }

session_of : Result Error (Session ℕ) × ℕ → Session ℕ
session_of (ok s, w) = s
session_of (err e, w) = record { config = config; manager = none }

abbrev start : Result Error (Session ℕ) × ℕ
start = pre_run [] clock viper parts memory_store vault serve "config.yaml" 0

abbrev app : GithubAppConfig
app = record { client_id = "Iv1"; app_id = pos 7; installation_id = pos 9; private_key_path = "" }

github_auth-Stored_example :
    Stored [] web memory_store
      (λ t w. (ok (some "octocat"), w))
      (λ e. "vault")
      web-ClockLaws
      memory_store-credentials
      vault
      (github_auth [] web memory_store
        (λ t w. (ok (some "octocat"), w))
        (λ e. "vault")
        (record github_config { applications = app ∷ [] })
        vault
        0)
github_auth-Stored_example =
    github_auth-Stored [] web memory_store (λ t w. (ok (some "octocat"), w)) (λ e. "vault")
      web-ClockLaws memory_store-credentials (record github_config { applications = app ∷ [] })
      vault 0
