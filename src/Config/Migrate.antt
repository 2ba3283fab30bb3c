-- ===== src/Config/Migrate.antt =====
-- The migration of the legacy credentials (internal/config/config.go).
use scuffinger.Prelude.{
  String, ◌≡◌, ap, ◌∙◌, ◌||◌, ◌&&◌, not, Option, ◌==◌, string_eq, arith, eq_iff, if◌then◌else◌,
}
use scuffinger.Prelude.Int.{ℤ, pos, ◌≤ℤ◌, int_eq, int_beq_iff}
use scuffinger.Config.{
  GithubConfig, has_token, has_app, migrate, migrate_token, migrate_app, enabled,
  collector_duration,
}

-- After `Migrate` the legacy token and app id are cleared; the tokens are those configured and the
-- legacy token, if it is not empty; the app ids are those configured and the legacy one, if it is
-- not 0; and the legacy client id is cleared only if there was an app id.
pub migrate-credentials :
    (g : GithubConfig)
    → ((migrate g).token ≡ "")
      × ((migrate g).app_id ≡ pos 0)
      × ((t : String)
          → has_token t (migrate g).tokens
            ≡ (has_token t g.tokens || (not (g.token == "") && g.token == t)))
      × ((i : ℤ)
          → has_app i (migrate g).applications
            ≡ (has_app i g.applications || (not (g.app_id == pos 0) && g.app_id == i)))
      × ((migrate g).client_id ≡ (if g.app_id == pos 0 then g.client_id else ""))
unfolding migrate
migrate-credentials g = (
  ground (arith, eq_iff g.token ""),
  ground (arith, int_beq_iff g.app_id (pos 0)),
  λ t. ground (arith, eq_iff g.token t),
  λ i. ground (arith, int_beq_iff g.app_id i),
  ground arith,
)

migrate_token_done : (g : GithubConfig) → g.token ≡ "" → migrate_token g ≡ g
unfolding migrate_token
migrate_token_done g h = ground (arith, (eq_iff g.token "").1 h)

migrate_app_done : (g : GithubConfig) → g.app_id ≡ pos 0 → migrate_app g ≡ g
unfolding migrate_app
migrate_app_done g h = ground (arith, (int_beq_iff g.app_id (pos 0)).1 h)

migrate_done : (g : GithubConfig) → g.token ≡ "" → g.app_id ≡ pos 0 → migrate g ≡ g
migrate_done g h k =
    let e : migrate_token g ≡ g = migrate_token_done g h in
    let f : migrate_app g ≡ g = migrate_app_done g k in unfold migrate in (ap migrate_app e ∙ f)

-- Migrating a second time changes nothing.
pub migrate-migrate : (g : GithubConfig) → migrate (migrate g) ≡ migrate g
migrate-migrate g = migrate_done (migrate g) (migrate-credentials g).0 (migrate-credentials g).1

-- A migrated configuration is enabled exactly when it was before or had a legacy token or a legacy
-- app id.
pub enabled-migrate :
    (g : GithubConfig)
    → enabled (migrate g) ≡ (enabled g || not (g.token == "") || not (g.app_id == pos 0))
unfolding migrate enabled
enabled-migrate g = ground arith

-- The collector interval is positive, whatever the configured text.
pub collector_duration-pos :
    (parse_duration : String → Option ℤ) (g : GithubConfig)
    → pos 1 ≤ℤ collector_duration parse_duration g
unfolding collector_duration
collector_duration-pos parse_duration g = ground arith
