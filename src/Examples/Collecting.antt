-- ===== src/Examples/Collecting.antt =====
-- One repository with one run in a world that is its clock, for the configuration, the metrics and
-- the collector.
use scuffinger.Prelude.{
  ℕ, suc, ◌≡◌, ◌≢◌, ◌↔◌, refl, String, string_eq, true, false, not, ◌&&◌, ◌||◌, none, some, [], ◌∷◌,
  ◌==◌, All, arith, ◌+++◌, has_char, eq_iff, list_eq, if◌then◌else◌,
}
use scuffinger.Prelude.Int.{ℤ, pos, int_eq}
use scuffinger.Prelude.Map.{lookup}
use scuffinger.Prelude.Result.{ok}
use scuffinger.Config.{GithubConfig, migrate, has_token, has_app}
use scuffinger.Config.Migrate.{migrate-credentials}
use scuffinger.Metrics.Workflow.{
  RunKey, WorkflowGauges, tracked_vectors, record_workflow_run, reset_for_repos,
}
use scuffinger.Metrics.Workflow.Tracked.{IsConsistent, record_workflow_run-IsConsistent}
use scuffinger.Metrics.Workflow.Reset.{DropsRepos, reset_for_repos-DropsRepos}
use scuffinger.Metrics.Workflow.Frame.{Keeps}
use scuffinger.Collector.Types.{Env, State, Github}
use scuffinger.Collector.Repo.{parse_repo, parse_repo-join}
use scuffinger.Collector.Runs.{collect_repo}
use scuffinger.Collector.Cycle.{
  bad_repo, member, loop, collect, collect_each, collect_one, try_lock,
}
use scuffinger.Collector.Jobs.{observed}
use scuffinger.Collector.Service.{CollectorService, tick, ping}
use scuffinger.Collector.Gauges.{collect_repo-Keeps}
use scuffinger.Collector.Stale.{collect-DropsRepos, collect-none_left, is_valid}

abbrev owner_name : String
owner_name = "octo"

abbrev repo_name : String
repo_name = "cat"

abbrev pub config : GithubConfig
config = record {
  tokens = "a" ∷ [];
  applications = [];
  token = "b";
  client_id = "";
  app_id = pos 7;
  installation_id = pos 0;
  private_key_path = "key.pem";
  organization = "";
  rate_limit_threshold = pos 0;
  repositories = "octo/cat" ∷ [];
  collector_interval = "5m";
  max_recent_runs = pos 10;
  fetch_annotations = true;
}

migrate-credentials_example :
    ((migrate config).token ≡ "")
    × ((migrate config).app_id ≡ pos 0)
    × ((t : String)
        → has_token t (migrate config).tokens
          ≡ (has_token t config.tokens || (not (config.token == "") && config.token == t)))
    × ((i : ℤ)
        → has_app i (migrate config).applications
          ≡ (has_app i config.applications || (not (config.app_id == pos 0) && config.app_id == i)))
    × ((migrate config).client_id ≡ (if config.app_id == pos 0 then config.client_id else ""))
migrate-credentials_example = migrate-credentials config

parse_repo-join_example : (parse_repo (λ s. s) "octo/cat" ≡ ok (owner_name, repo_name)) ↔ (
    ("octo/cat" ≡ owner_name +++ ("/" +++ repo_name))
    × (owner_name ≢ "")
    × (repo_name ≢ "")
    × (has_char b'/' owner_name ≡ false))
parse_repo-join_example = parse_repo-join (λ s. s) "octo/cat" owner_name repo_name

abbrev pub empty_gauges : WorkflowGauges
empty_gauges = record {
  run_duration = [];
  run_status = [];
  step_duration = [];
  step_start_time = [];
  job_status = [];
  job_started_at = [];
  job_duration = [];
  annotation_total = [];
  annotation_info = [];
  step_keys = [];
  run_keys = [];
  job_keys = [];
  annotation_keys = [];
  info_keys = [];
}

empty_gauges-IsConsistent : IsConsistent empty_gauges
unfolding lookup
empty_gauges-IsConsistent = record {
  steps = λ l h. ground arith;
  starts = λ l h. ground arith;
  runs = λ l h. ground arith;
  jobs = λ l h. ground arith;
  job_starts = λ l h. ground arith;
  job_times = λ l h. ground arith;
  totals = λ l h. ground arith;
  infos = λ l h. ground arith;
}

abbrev run_key : RunKey
run_key = record { repo = "octo/cat"; workflow = "ci"; run_id = "1"; conclusion = "success" }

abbrev gauges : WorkflowGauges
gauges = record_workflow_run run_key (pos 60) empty_gauges

gauges-IsConsistent : IsConsistent gauges
gauges-IsConsistent =
    record_workflow_run-IsConsistent run_key (pos 60) empty_gauges empty_gauges-IsConsistent

reset_for_repos-DropsRepos_example :
    DropsRepos (member ("octo/cat" ∷ [])) gauges (reset_for_repos (member ("octo/cat" ∷ [])) gauges)
    × ((reset_for_repos (member ("octo/cat" ∷ [])) gauges).run_status ≡ gauges.run_status)
reset_for_repos-DropsRepos_example =
    reset_for_repos-DropsRepos (member ("octo/cat" ∷ [])) gauges gauges-IsConsistent

abbrev github : Github ℕ
github = record {
  get_repo = λ owner repo w. (
    ok (record {
      language = "Go";
      default_branch = "main";
      archived = false;
      stars = pos 3;
      forks = pos 0;
      open_issues = pos 1;
      size = pos 9;
    }),
    suc w,
  );
  list_runs = λ owner repo n w. (
    ok (
        record {
          id = 1;
          name = "ci";
          conclusion = "success";
          status = "completed";
          run_started_at = some 5;
          updated_at = some 9;
        }
        ∷ []),
    suc w,
  );
  list_jobs = λ owner repo id w. (ok [], suc w);
  list_annotations = λ owner repo id w. (ok [], suc w);
}

abbrev env : Env ℕ
env = record {
  cfg = config;
  github = github;
  pool = none;
  set_nx = none;
  pod_id = "pod-1";
  clock = λ w. w;
  parse_duration = λ s. none;
  active = [];
}

abbrev state : State ℕ
state = record {
  gauges = gauges;
  repo_gauges = record { stars = []; forks = []; open_issues = []; size = []; info = [] };
  api = record { calls = []; errors = []; durations = []; rate_limit = [] };
  cycles = 0;
  errors = [];
  locks_acquired = [];
  locks_skipped = [];
  last_err = none;
  world = 10;
}

collect-DropsRepos_example :
    DropsRepos (member (loop env state).collected) gauges (collect env state).gauges
    × IsConsistent (collect env state).gauges
collect-DropsRepos_example = collect-DropsRepos env state gauges-IsConsistent

octo_cat_valid : is_valid env "octo/cat" ≡ true
octo_cat_valid = ground (
  arith,
  (parse_repo-join (bad_repo []) "octo/cat" owner_name repo_name).1 (
    refl,
    (λ h. ground (arith, eq_iff owner_name "")),
    (λ h. ground (arith, eq_iff repo_name "")),
    refl,
  ),
)

collect-none_left_example :
    All
      (λ v. lookup ("octo/cat" ∷ "ci" ∷ "1" ∷ "success" ∷ []) v ≡ none)
      (tracked_vectors (collect env state).gauges)
collect-none_left_example =
    collect-none_left env state "octo/cat" ("ci" ∷ "1" ∷ "success" ∷ []) gauges-IsConsistent refl
      refl octo_cat_valid

collect_repo-Keeps_example :
    Keeps (member ("octo/cat" ∷ [])) gauges (collect_repo env "octo" "cat" state).1.gauges
collect_repo-Keeps_example =
    collect_repo-Keeps env (member ("octo/cat" ∷ [])) "octo" "cat" state refl

abbrev service : CollectorService ℕ
service = record { state = state; cancel = some 0; loops = 0 ∷ []; cancelled = []; started = 1 }

cycle_passes : ping (tick env 0 service) ≡ none
unfolding ping tick collect loop collect_each collect_one parse_repo try_lock collect_repo observed
cycle_passes = refl
