-- ===== src/Collector/Gauges.antt =====
-- What a collection cycle leaves in the gauges (internal/services/github_collector.go).
use scuffinger.Prelude.{
  ℕ, String, Bool, true, false, Option, none, some, List, [], ◌∷◌, ◌≡◌, ◌==◌, string_eq, ℕ_eq, ◌&&◌,
  ◌+++◌, decimal, if◌then◌else◌, Bool-cases, inl, inr,
}
use scuffinger.Prelude.Int.{ℤ, pos, ltb_ℤ}
use scuffinger.Prelude.Result.{Result, ok, err}
use scuffinger.I18n.{Error}
use scuffinger.Metrics.Workflow.{RepoFacts}
use scuffinger.Metrics.Workflow.Frame.{
  Keeps, Keeps-refl, Keeps-trans, record_workflow_run-Keeps, record_workflow_job-Keeps,
  record_workflow_step-Keeps, record_workflow_annotation-Keeps,
}
use scuffinger.Collector.Types.{
  StepInfo, JobInfo, RunInfo, Annotation, Pool, Env, State, time_or_zero,
}
use scuffinger.Collector.Jobs.{
  observed, collect_step, collect_steps, record_annotations, annotations_found, collect_annotations,
  upsert_job, collect_job, collect_jobs, jobs_found,
}
use scuffinger.Collector.Runs.{
  run_duration, record_run, upsert_run, collect_run, collect_runs, runs_found, repo_found,
  collect_repo,
}

module _ {W : Type 0} (env : Env W) (sel : String → Bool) (full_name : String)
    (chosen : sel full_name ≡ true) where
  -- `s'` differs from `s` in the gauges of the selected repositories only.
  abbrev Within : State W → State W → Type 0
  Within s s' = Keeps sel s.gauges s'.gauges

  collect_step-Within :
      (workflow run_id job : String) (step : StepInfo) (s : State W)
      → Within s (collect_step env full_name workflow run_id job step s)
  unfolding collect_step
  collect_step-Within workflow run_id job step s =
      elim (Bool-cases (time_or_zero step.started_at == 0)) [
        | inl q ↦ rw q (Keeps-refl sel s.gauges)
        | inr q ↦ rw q (record_workflow_step-Keeps sel _ _ _ s.gauges chosen)
      ]

  collect_steps-Within :
      (workflow run_id job : String) (steps : List StepInfo) (s : State W)
      → Within s (collect_steps env full_name workflow run_id job steps s)
  unfolding collect_steps
  collect_steps-Within workflow run_id job [] s = Keeps-refl sel s.gauges
  collect_steps-Within workflow run_id job (step ∷ steps) s =
      Keeps-trans sel (collect_step-Within workflow run_id job step s) (
        collect_steps-Within workflow run_id job steps
          (collect_step env full_name workflow run_id job step s))

  record_annotations-Within :
      (workflow run_id job : String) (annotations : List Annotation) (s : State W)
      → Within s (record_annotations env full_name workflow run_id job annotations s)
  unfolding record_annotations
  record_annotations-Within workflow run_id job [] s = Keeps-refl sel s.gauges
  record_annotations-Within workflow run_id job (a ∷ rest) s =
      Keeps-trans sel (record_workflow_annotation-Keeps sel _ s.gauges chosen)
        (record_annotations-Within workflow run_id job rest _)

  -- A call of the API leaves the gauges alone.
  observed-Within {ℓ} :
      {A : Type ℓ} (endpoint : String) (call : W → Result Error A × W) (s : State W)
      → Within s (observed env endpoint call s).1
  unfolding observed
  observed-Within endpoint call s = Keeps-refl sel s.gauges

  annotations_found-Within :
      (workflow run_id job : String) (p : Result Error (List Annotation) × State W)
      → Within p.1 (annotations_found env full_name workflow run_id job p)
  unfolding annotations_found
  annotations_found-Within workflow run_id job (err e, s) = Keeps-refl sel s.gauges
  annotations_found-Within workflow run_id job (ok annotations, s) =
      record_annotations-Within workflow run_id job annotations s

  collect_annotations-Within :
      (owner repo workflow run_id : String) (job : JobInfo) (s : State W)
      → Within s (collect_annotations env owner repo full_name workflow run_id job s)
  unfolding collect_annotations
  collect_annotations-Within owner repo workflow run_id job s =
      Keeps-trans sel (observed-Within _ _ s) (annotations_found-Within workflow run_id job.name _)

  upsert_job-Within :
      (pool : Option (Pool W)) (run_id : ℕ) (job : JobInfo) (s : State W)
      → Within s (upsert_job env pool full_name run_id job s)
  unfolding upsert_job
  upsert_job-Within none run_id job s = Keeps-refl sel s.gauges
  upsert_job-Within (some pool) run_id job s = Keeps-refl sel s.gauges

  if-Within : (b : Bool) (s t u : State W) → Within s t → Within s u → Within s (if b then t else u)
  if-Within true s t u ht hu = ht
  if-Within false s t u ht hu = hu

  collect_job-Within :
      (owner repo workflow : String) (run : RunInfo) (job : JobInfo) (s : State W)
      → Within s (collect_job env owner repo full_name workflow run job s)
  unfolding collect_job
  collect_job-Within owner repo workflow run job s =
      let recorded = record_workflow_job-Keeps sel _ _ _ _ s.gauges chosen in
      let stepped = Keeps-trans sel recorded (
        Keeps-trans sel (upsert_job-Within env.pool run.id job _)
          (collect_steps-Within workflow (decimal run.id) job.name job.steps _)) in
      if-Within (env.cfg.fetch_annotations && job.conclusion == "failure") s _ _
        (Keeps-trans sel stepped
          (collect_annotations-Within owner repo workflow (decimal run.id) job _))
        stepped

  collect_jobs-Within :
      (owner repo workflow : String) (run : RunInfo) (jobs : List JobInfo) (s : State W)
      → Within s (collect_jobs env owner repo full_name workflow run jobs s)
  unfolding collect_jobs
  collect_jobs-Within owner repo workflow run [] s = Keeps-refl sel s.gauges
  collect_jobs-Within owner repo workflow run (job ∷ jobs) s =
      Keeps-trans sel (collect_job-Within owner repo workflow run job s)
        (collect_jobs-Within owner repo workflow run jobs _)

  jobs_found-Within :
      (owner repo : String) (run : RunInfo) (p : Result Error (List JobInfo) × State W)
      → Within p.1 (jobs_found env owner repo full_name run p)
  unfolding jobs_found
  jobs_found-Within owner repo run (err e, s) = Keeps-refl sel s.gauges
  jobs_found-Within owner repo run (ok jobs, s) = collect_jobs-Within owner repo run.name run jobs s

  record_run-Within :
      (run : RunInfo) (d : Option ℤ) (s : State W) → Within s (record_run env full_name run d s)
  unfolding record_run
  record_run-Within run none s = Keeps-refl sel s.gauges
  record_run-Within run (some d) s =
      if-Within (ltb_ℤ (pos 0) d) s _ _ (record_workflow_run-Keeps sel _ _ s.gauges chosen)
        (Keeps-refl sel s.gauges)

  upsert_run-Within :
      (pool : Option (Pool W)) (run : RunInfo) (s : State W)
      → Within s (upsert_run env pool full_name run s)
  unfolding upsert_run
  upsert_run-Within none run s = Keeps-refl sel s.gauges
  upsert_run-Within (some pool) run s = Keeps-refl sel s.gauges

  collect_run-Within :
      (owner repo : String) (run : RunInfo) (s : State W)
      → Within s (collect_run env owner repo full_name run s)
  unfolding collect_run
  collect_run-Within owner repo run s =
      let d = run_duration env run.run_started_at run.updated_at in
      let recorded = record_run env full_name run d s in
      let stored = upsert_run env env.pool full_name run recorded in
      let call = env.github.list_jobs owner repo run.id in
      let listed = observed env "collector_list_jobs" call stored in
      Keeps-trans sel (record_run-Within run d s) (
        Keeps-trans sel (upsert_run-Within env.pool run recorded) (
          Keeps-trans sel (observed-Within "collector_list_jobs" call stored)
            (jobs_found-Within owner repo run listed)))

  collect_runs-Within :
      (owner repo : String) (runs : List RunInfo) (s : State W)
      → Within s (collect_runs env owner repo full_name runs s)
  unfolding collect_runs
  collect_runs-Within owner repo [] s = Keeps-refl sel s.gauges
  collect_runs-Within owner repo (run ∷ runs) s =
      Keeps-trans sel (collect_run-Within owner repo run s) (collect_runs-Within owner repo runs _)

  runs_found-Within :
      (owner repo : String) (p : Result Error (List RunInfo) × State W)
      → Within p.1 (runs_found env owner repo full_name p).1
  unfolding runs_found
  runs_found-Within owner repo (err e, s) = Keeps-refl sel s.gauges
  runs_found-Within owner repo (ok runs, s) = collect_runs-Within owner repo runs s

  repo_found-Within :
      (owner repo : String) (p : Result Error RepoFacts × State W)
      → Within p.1 (repo_found env owner repo full_name p).1
  unfolding repo_found
  repo_found-Within owner repo (err e, s) = Keeps-refl sel s.gauges
  repo_found-Within owner repo (ok facts, s) =
      Keeps-trans sel (observed-Within _ _ _) (runs_found-Within owner repo _)

module _ {W : Type 0} (env : Env W) (sel : String → Bool) where
  -- `collectRepo` of a selected repository changes no series of the eight tracked vectors outside
  -- the selection, and keeps every series tracked.
  pub collect_repo-Keeps :
      (owner repo : String) (s : State W)
      → sel (owner +++ ("/" +++ repo)) ≡ true
      → Keeps sel s.gauges (collect_repo env owner repo s).1.gauges
  unfolding collect_repo
  collect_repo-Keeps owner repo s chosen =
      Keeps-trans sel (observed-Within env sel _ chosen _ _ s)
        (repo_found-Within env sel (owner +++ ("/" +++ repo)) chosen owner repo _)
