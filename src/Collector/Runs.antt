-- ===== src/Collector/Runs.antt =====
-- `collectRun` and `collectRepo` of internal/services/github_collector.go.
use scuffinger.Prelude.{
  ℕ, String, Option, none, some, List, [], ◌∷◌, ◌==◌, string_eq, ℕ_eq, ◌+++◌, decimal,
  if◌then◌else◌,
}
use scuffinger.Prelude.Int.{ℤ, pos, ltb_ℤ, leb_ℤ}
use scuffinger.Prelude.Result.{Result, ok, err}
use scuffinger.I18n
use scuffinger.I18n.{Error, Messages}
use scuffinger.Collector.Types.{RunInfo, Pool, Env, State, sub_time, or_status}
use scuffinger.Metrics.Workflow.{RepoFacts, set_repo_gauges, record_workflow_run}
use scuffinger.Collector.Jobs.{observed, jobs_found}

module _ {W : Type 0} (env : Env W) where
  -- the duration of a run, where both times are there
  unfoldable pub run_duration : Option ℕ → Option ℕ → Option ℤ
  run_duration (some started) (some updated) = some (sub_time updated started)
  run_duration _ _ = none

  unfoldable pub record_run : String → RunInfo → Option ℤ → State W → State W
  record_run full_name run none s = s
  record_run full_name run (some d) s =
      if ltb_ℤ (pos 0) d
      then record s {
        gauges =
            record_workflow_run
              (record {
                repo = full_name;
                workflow = run.name;
                run_id = decimal run.id;
                conclusion = or_status run.conclusion run.status;
              })
              d s.gauges;
      }
      else s

  unfoldable pub upsert_run : Option (Pool W) → String → RunInfo → State W → State W
  upsert_run none full_name run s = s
  upsert_run (some pool) full_name run s = record s {
    world = pool.upsert_run full_name run (or_status run.conclusion run.status) s.world;
  }

  unfoldable pub collect_run : String → String → String → RunInfo → State W → State W
  unfolding record_run run_duration upsert_run jobs_found
  collect_run owner repo full_name run s =
      let recorded = record_run full_name run (run_duration run.run_started_at run.updated_at) s in
      let stored = upsert_run env.pool full_name run recorded in
      jobs_found env owner repo full_name run
        (observed env "collector_list_jobs" (env.github.list_jobs owner repo run.id) stored)

  unfoldable pub collect_runs : String → String → String → List RunInfo → State W → State W
  collect_runs owner repo full_name [] s = s
  collect_runs owner repo full_name (run ∷ runs) s =
      collect_runs owner repo full_name runs (collect_run owner repo full_name run s)

  -- `MaxRecentRuns`, or 5
  unfoldable pub max_runs : ℤ
  max_runs = if leb_ℤ env.cfg.max_recent_runs (pos 0) then pos 5 else env.cfg.max_recent_runs

  unfoldable pub runs_found :
      String → String → String → Result Error (List RunInfo) × State W → Option Error × State W
  runs_found owner repo full_name (err e, s) =
      (some (I18n.err_with env.active I18n.err_gh_collector_fetch_runs e), s)
  runs_found owner repo full_name (ok runs, s) = (none, collect_runs owner repo full_name runs s)

  unfoldable pub known_language : RepoFacts → RepoFacts
  known_language f = record f { language = if f.language == "" then "unknown" else f.language }

  unfoldable pub repo_found :
      String → String → String → Result Error RepoFacts × State W → Option Error × State W
  unfolding runs_found known_language max_runs
  repo_found owner repo full_name (err e, s) =
      (some (I18n.err_with env.active I18n.err_gh_collector_fetch_repo e), s)
  repo_found owner repo full_name (ok facts, s) =
      let described = record s {
        repo_gauges = set_repo_gauges full_name (known_language facts) s.repo_gauges;
      } in
      runs_found owner repo full_name
        (observed env "collector_list_runs" (env.github.list_runs owner repo max_runs) described)

  unfoldable pub collect_repo : String → String → State W → Option Error × State W
  unfolding repo_found
  collect_repo owner repo s =
      repo_found owner repo (owner +++ ("/" +++ repo))
        (observed env "collector_get_repo" (env.github.get_repo owner repo) s)
