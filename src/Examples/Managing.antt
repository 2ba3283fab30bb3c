-- ===== src/Examples/Managing.antt =====
-- Two services in a world that counts their calls, for internal/services/service.go and
-- bootstrap.go.
use scuffinger.Prelude.{
  ℕ, suc, ◌≡◌, ◌≢◌, ◌↔◌, refl, String, string_eq, true, false, none, some, List, [], ◌∷◌, All,
  if◌then◌else◌,
}
use scuffinger.Prelude.Int.{pos}
use scuffinger.Prelude.Map.{Map, lookup, insert}
use scuffinger.Config.{GithubConfig}
use scuffinger.Metrics.Health.{HealthMetrics, gauge}
use scuffinger.Manager.{
  Call, Service, Manager, Checked, new_manager, run_self_tests, check_health, close_all, is_healthy,
  start_health_checks,
}
use scuffinger.Manager.WellFormed.{IsWellFormed, has_name, new_manager-IsWellFormed}
use scuffinger.Manager.Reach.{System, start, new, next, IsSound, Reach-IsWellFormed}
use scuffinger.Manager.Health.{outcome, check_health-outcome, healthy_of}
use scuffinger.Manager.Startup.{SelfTestResult, run_self_tests-SelfTestResult}
use scuffinger.Manager.Shutdown.{close_results, closed_world, Succeeds, close_all-results}
use scuffinger.Server.Health.{ready_handler, ready_handler-agrees, gauge_of, or_else}
use scuffinger.Vault.Memory.{memory_store, new_memory_store}
use scuffinger.Bootstrap.{BootstrapOpts, Parts, bootstrap, with_vault_token}
use scuffinger.Bootstrap.Outcome.{Outcome, bootstrap-Outcome}

abbrev pub succeeds : Call ℕ
succeeds w = (none, suc w)

abbrev fails : Call ℕ
fails w = (some "refused", suc w)

abbrev pub cache : Service ℕ
cache = record {
  name = "cache";
  connect = succeeds;
  self_test = succeeds;
  ping = succeeds;
  close = succeeds;
}

abbrev database : Service ℕ
database = record {
  name = "database";
  connect = succeeds;
  self_test = fails;
  ping = fails;
  close = fails;
}

abbrev both : List (Service ℕ)
both = cache ∷ database ∷ []

abbrev manager : Manager ℕ
manager = new_manager both

abbrev pub clock : ℕ → ℕ
clock w = w

abbrev pub unmeasured : HealthMetrics
unmeasured = record { status = 0; service_status = []; checks = []; failures = [] }

abbrev before : Checked ℕ
before = record { statuses = manager.statuses; health = unmeasured; world = 0 }

abbrev system : System ℕ
system = record { manager = manager; health = unmeasured; world = 0 }

manager-IsWellFormed : IsWellFormed both manager.statuses
manager-IsWellFormed = new_manager-IsWellFormed both

Reach-IsWellFormed_example :
    IsSound [] clock (record system { manager = start_health_checks manager })
Reach-IsWellFormed_example =
    Reach-IsWellFormed [] clock both (next (new system refl) (start system))

run_self_tests-SelfTestResult_example :
    SelfTestResult [] clock both 0 (run_self_tests [] clock both manager.statuses 0)
run_self_tests-SelfTestResult_example =
    run_self_tests-SelfTestResult [] clock both manager.statuses 0

check_health-outcome_example :
    ((check_health clock both before).health.status
      ≡ gauge (is_healthy (check_health clock both before).statuses))
    × ((is_healthy (check_health clock both before).statuses ≡ true)
        ↔ ((both ≢ []) × ((n : String) → has_name n both ≡ true → outcome n both 0 ≡ some true)))
check_health-outcome_example = check_health-outcome clock both before manager-IsWellFormed

close_all-results_example :
    ((close_all [] manager 0).2 ≡ closed_world both 0)
    × (((close_all [] manager 0).0 ≡ none) ↔ All Succeeds (close_results both 0))
unfolding new_manager
close_all-results_example = close_all-results [] manager 0

ready_handler-agrees_example :
    ((ready_handler (some manager.statuses) unmeasured).0.code
      ≡ (if is_healthy manager.statuses then 200 else 503))
    × ((ready_handler (some manager.statuses) unmeasured).1.status
        ≡ gauge (is_healthy manager.statuses))
    × ((n : String)
        → lookup n (ready_handler (some manager.statuses) unmeasured).0.body.services
          ≡ healthy_of (lookup n manager.statuses))
    × ((n : String)
        → lookup n (ready_handler (some manager.statuses) unmeasured).1.service_status
          ≡ or_else (gauge_of (healthy_of (lookup n manager.statuses))) (lookup n []))
ready_handler-agrees_example =
    ready_handler-agrees manager.statuses unmeasured manager-IsWellFormed.unique

abbrev pub github_config : GithubConfig
github_config = record {
  tokens = [];
  applications = [];
  token = "";
  client_id = "";
  app_id = pos 0;
  installation_id = pos 0;
  private_key_path = "";
  organization = "";
  rate_limit_threshold = pos 0;
  repositories = "octo/cat" ∷ [];
  collector_interval = "5m";
  max_recent_runs = pos 10;
  fetch_annotations = true;
}

abbrev parts : Parts ℕ
parts = record {
  cache = cache;
  database = database;
  github = λ cfg. record cache { name = "github" };
  collector = λ cfg. record cache { name = "github_collector" };
  create_tables = succeeds;
  start_collector = λ w. suc w;
}

abbrev pub opts : BootstrapOpts
opts = record { health_check_interval = pos 10_000_000_000; skip_collector = false }

abbrev pub vault : Map String String
vault = insert "github_token" "secret" new_memory_store

bootstrap-Outcome_example :
    Outcome [] clock parts opts
      (with_vault_token memory_store vault github_config)
      (bootstrap [] clock parts memory_store vault opts github_config 0)
bootstrap-Outcome_example = bootstrap-Outcome [] clock parts memory_store vault opts github_config 0
