-- ===== src/Config/Load/Loaded.antt =====
-- What `Load` of internal/config/config.go answers.
use scuffinger.Prelude.{String, ◌≡◌, refl, ◌||◌, not, ◌==◌, string_eq}
use scuffinger.Prelude.Int.{pos, int_eq}
use scuffinger.Prelude.Result.{Result, ok, err}
use scuffinger.I18n.{Error}
use scuffinger.Config.{GithubConfig, migrate, enabled}
use scuffinger.Config.Migrate.{migrate-migrate, migrate-credentials, enabled-migrate}
use scuffinger.Config.Load.{Config, Viper, prepared, load, decoded}

-- no legacy credential is left to migrate
pub record IsMigrated (g : GithubConfig) : Type 0 where
  pub no_token : g.token ≡ ""
  pub no_app : g.app_id ≡ pos 0
  pub stable : migrate g ≡ g

migrate-IsMigrated : (g : GithubConfig) → IsMigrated (migrate g)
migrate-IsMigrated g = record {
  no_token = (migrate-credentials g).0;
  no_app = (migrate-credentials g).1;
  stable = migrate-migrate g;
}

-- the decoded configuration and the one that is answered agree outside the section of GitHub
pub record Answers (raw cfg : Config) : Type 0 where
  pub server : cfg.server ≡ raw.server
  pub log : cfg.log ≡ raw.log
  pub app : cfg.app ≡ raw.app
  pub database : cfg.database ≡ raw.database
  pub cache : cfg.cache ≡ raw.cache
  pub migrated : IsMigrated cfg.github
  pub active :
      enabled cfg.github
      ≡ (enabled raw.github || not (raw.github.token == "") || not (raw.github.app_id == pos 0))

abbrev pub Loads : Result Error Config → Result Error Config → Type 0
Loads (ok raw) (ok cfg) = Answers raw cfg
Loads (err e) (err e') = Unit
Loads _ _ = ⊥

decoded-Loads : (r : Result Error Config) → Loads r (decoded r)
unfolding decoded
decoded-Loads (err e) = tt
decoded-Loads (ok raw) = record {
  server = refl;
  log = refl;
  app = refl;
  database = refl;
  cache = refl;
  migrated = migrate-IsMigrated raw.github;
  active = enabled-migrate raw.github;
}

-- `Load` fails exactly when decoding fails, whatever reading the file answered; a configuration
-- that it answers agrees with the decoded one outside the section of GitHub, has no legacy token
-- or app id, is not changed by another `Migrate`, and is enabled exactly when the decoded one was
-- or had a legacy token or app id.
pub load-Loads :
    {V W : Type 0} (viper : Viper V W) (path : String) (w : W)
    → Loads (viper.decoder (prepared viper path w) w) (load viper path w)
unfolding load
load-Loads viper path w = decoded-Loads (viper.decoder (prepared viper path w) w)
