-- ===== src/Config.antt =====
-- internal/config/config.go: the GitHub section, its migration, and the durations and addresses
-- that it derives. `parse_duration` stands for `time.ParseDuration`, in nanoseconds.
pub mod Migrate
pub mod Load
use scuffinger.Prelude.{
  ℕ, String, Bool, true, false, ◌||◌, not, Option, none, some, List, [], ◌∷◌, ◌==◌, string_eq, any,
  ◌+++◌, length, ltb, if◌then◌else◌,
}
use scuffinger.Prelude.Int.{ℤ, pos, leb_ℤ, int_eq}

pub record GithubAppConfig : Type 0 where
  pub client_id : String
  pub app_id : ℤ
  pub installation_id : ℤ
  pub private_key_path : String

pub record GithubConfig : Type 0 where
  pub tokens : List String
  pub applications : List GithubAppConfig
  pub token : String
  pub client_id : String
  pub app_id : ℤ
  pub installation_id : ℤ
  pub private_key_path : String
  pub organization : String
  pub rate_limit_threshold : ℤ
  pub repositories : List String
  pub collector_interval : String
  pub max_recent_runs : ℤ
  pub fetch_annotations : Bool

abbrev pub has_token : String → List String → Bool
has_token t ts = any (λ u. u == t) ts

abbrev pub has_app : ℤ → List GithubAppConfig → Bool
has_app i apps = any (λ (a : GithubAppConfig). a.app_id == i) apps

-- the first half of `Migrate`
unfoldable pub migrate_token : GithubConfig → GithubConfig
migrate_token g = if g.token == "" then g else record g {
  tokens = if has_token g.token g.tokens then g.tokens else g.token ∷ g.tokens;
  token = "";
}

-- the second half of `Migrate`
unfoldable pub migrate_app : GithubConfig → GithubConfig
migrate_app g = if g.app_id == pos 0 then g else record g {
  applications =
      if has_app g.app_id g.applications
      then g.applications
      else record {
        client_id = g.client_id;
        app_id = g.app_id;
        installation_id = g.installation_id;
        private_key_path = g.private_key_path;
      }
        ∷ g.applications;
  app_id = pos 0;
  client_id = "";
  installation_id = pos 0;
  private_key_path = "";
}

unfoldable pub migrate : GithubConfig → GithubConfig
unfolding migrate_token migrate_app
migrate g = migrate_app (migrate_token g)

abbrev non_empty {ℓ} : {A : Type ℓ} → List A → Bool
non_empty [] = false
non_empty (x ∷ xs) = true

unfoldable pub enabled : GithubConfig → Bool
enabled g = non_empty g.tokens || non_empty g.applications

unfoldable pub first_client_id : List GithubAppConfig → String
first_client_id [] = ""
first_client_id (a ∷ apps) = if a.client_id == "" then first_client_id apps else a.client_id

-- 5 * time.Minute
abbrev pub five_minutes : ℤ
five_minutes = pos 300_000_000_000

or_five_minutes : Option ℤ → ℤ
or_five_minutes none = five_minutes
or_five_minutes (some d) = if leb_ℤ d (pos 0) then five_minutes else d

module _ (parse_duration : String → Option ℤ) where
  unfoldable pub collector_duration : GithubConfig → ℤ
  unfolding or_five_minutes
  collector_duration g = or_five_minutes (parse_duration g.collector_interval)

  -- `GitHubCacheDuration`, on the field `GitHubCacheTTL`
  unfoldable pub github_cache_duration : String → ℤ
  unfolding or_five_minutes
  github_cache_duration ttl = or_five_minutes (parse_duration ttl)
