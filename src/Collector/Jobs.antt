-- ===== src/Collector/Jobs.antt =====
-- `collectAnnotations` and the loops over jobs and steps of `collectRun`
-- (internal/services/github_collector.go).
use scuffinger.Prelude.{
  ℕ, String, Option, none, some, List, [], ◌∷◌, ◌==◌, string_eq, ℕ_eq, decimal, ◌&&◌, if◌then◌else◌,
}
use scuffinger.Prelude.Int.{pos}
use scuffinger.Prelude.Result.{Result, ok, err}
use scuffinger.I18n.{Error}
use scuffinger.Collector.Types.{
  StepInfo, JobInfo, RunInfo, Annotation, Pool, Env, State, time_or_zero, sub_time, or_status,
  error_of, job_duration,
}
use scuffinger.Metrics.Github.{observe_github_call}
use scuffinger.Metrics.Workflow.{
  record_workflow_job, record_workflow_step, record_workflow_annotation,
}

module _ {W : Type 0} (env : Env W) where
  -- a call of the API between two readings of the clock, and its metrics
  unfoldable pub observed {ℓ} :
      {A : Type ℓ} → String → (W → Result Error A × W) → State W → Result Error A × State W
  unfolding observe_github_call
  observed endpoint call s =
      let (r, w) = call s.world in
      (
        r,
        record s {
          world = w;
          api =
              observe_github_call endpoint (sub_time (env.clock w) (env.clock s.world)) (error_of r)
                s.api;
        },
      )

  -- Steps that have not started are skipped.
  unfoldable pub collect_step : String → String → String → String → StepInfo → State W → State W
  collect_step full_name workflow run_id job step s =
      let started = time_or_zero step.started_at in
      let completed = time_or_zero step.completed_at in
      if started == 0 then s else record s {
        gauges =
            record_workflow_step
              (record {
                repo = full_name;
                workflow = workflow;
                run_id = run_id;
                job = job;
                step = step.name;
                conclusion = or_status step.conclusion step.status;
              })
              started (if completed == 0 then pos 0 else sub_time completed started) s.gauges;
      }

  unfoldable pub collect_steps :
      String → String → String → String → List StepInfo → State W → State W
  collect_steps full_name workflow run_id job [] s = s
  collect_steps full_name workflow run_id job (step ∷ steps) s =
      collect_steps full_name workflow run_id job steps
        (collect_step full_name workflow run_id job step s)

  -- the loop over the annotations of a job
  unfoldable pub record_annotations :
      String → String → String → String → List Annotation → State W → State W
  record_annotations full_name workflow run_id job [] s = s
  record_annotations full_name workflow run_id job (a ∷ rest) s =
      record_annotations full_name workflow run_id job rest (record s {
        gauges =
            record_workflow_annotation
              (record {
                repo = full_name;
                workflow = workflow;
                run_id = run_id;
                job = job;
                level = a.level;
                title = a.title;
                path = a.path;
              })
              s.gauges;
      })

  -- nothing is recorded if the call fails
  unfoldable pub annotations_found :
      String → String → String → String → Result Error (List Annotation) × State W → State W
  annotations_found full_name workflow run_id job (err e, s) = s
  annotations_found full_name workflow run_id job (ok annotations, s) =
      record_annotations full_name workflow run_id job annotations s

  unfoldable pub collect_annotations :
      String → String → String → String → String → JobInfo → State W → State W
  unfolding annotations_found
  collect_annotations owner repo full_name workflow run_id job s =
      annotations_found full_name workflow run_id job.name
        (observed "collector_list_annotations" (env.github.list_annotations owner repo job.id) s)

  unfoldable pub upsert_job : Option (Pool W) → String → ℕ → JobInfo → State W → State W
  upsert_job none full_name run_id job s = s
  upsert_job (some pool) full_name run_id job s = record s {
    world = pool.upsert_job full_name run_id job s.world;
  }

  -- the body of the loop over the jobs of a run
  unfoldable pub collect_job :
      String → String → String → String → RunInfo → JobInfo → State W → State W
  unfolding job_duration upsert_job
  collect_job owner repo full_name workflow run job s =
      let run_id = decimal run.id in
      let started = time_or_zero job.started_at in
      let recorded = record s {
        gauges =
            record_workflow_job
              (record { repo = full_name; workflow = workflow; run_id = run_id; job = job.name })
              (or_status job.conclusion job.status) started (job_duration started job.completed_at)
              s.gauges;
      } in
      let stored = upsert_job env.pool full_name run.id job recorded in
      let stepped = collect_steps full_name workflow run_id job.name job.steps stored in
      if env.cfg.fetch_annotations && job.conclusion == "failure"
      then collect_annotations owner repo full_name workflow run_id job stepped
      else stepped

  unfoldable pub collect_jobs :
      String → String → String → String → RunInfo → List JobInfo → State W → State W
  collect_jobs owner repo full_name workflow run [] s = s
  collect_jobs owner repo full_name workflow run (job ∷ jobs) s =
      collect_jobs owner repo full_name workflow run jobs
        (collect_job owner repo full_name workflow run job s)

  unfoldable pub jobs_found :
      String → String → String → RunInfo → Result Error (List JobInfo) × State W → State W
  jobs_found owner repo full_name run (err e, s) = s
  jobs_found owner repo full_name run (ok jobs, s) =
      collect_jobs owner repo full_name run.name run jobs s
