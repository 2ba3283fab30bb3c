-- ===== src/Metrics/Workflow/Tracked.antt =====
-- The tracked keys of internal/metrics/github_collector.go cover every series of their vectors.
use scuffinger.Prelude.{
  ℕ, String, Bool, true, false, List, [], ◌∷◌, ◌++◌, ◌==◌, list_eq, string_eq, ℕ_eq, if◌then◌else◌,
}
use scuffinger.Prelude.Int.{ℤ, pos}
use scuffinger.Prelude.Map.{insert}
use scuffinger.Metrics.Vec.{
  Vec, inc, IsTracked, insert-IsTracked, weaken-IsTracked, swept-IsTracked,
}
use scuffinger.Metrics.Workflow.{
  StepKey, RunKey, JobKey, AnnotationKey, AnnotationInfoKey, step_labels, run_labels, job_labels,
  annotation_labels, info_labels, step_rest, run_rest, job_rest, annotation_rest, info_rest,
  annotation_key, WorkflowGauges, record_workflow_run, record_workflow_job, record_workflow_step,
  record_workflow_annotation, reset_for_repos,
}

-- Every series but those of the run status has a tracked key.
pub record IsConsistent (g : WorkflowGauges) : Type 0 where
  pub steps : IsTracked step_labels g.step_keys g.step_duration
  pub starts : IsTracked step_labels g.step_keys g.step_start_time
  pub runs : IsTracked run_labels g.run_keys g.run_duration
  pub jobs : IsTracked job_labels g.job_keys g.job_status
  pub job_starts : IsTracked job_labels g.job_keys g.job_started_at
  pub job_times : IsTracked job_labels g.job_keys g.job_duration
  pub totals : IsTracked annotation_labels g.annotation_keys g.annotation_total
  pub infos : IsTracked info_labels g.info_keys g.annotation_info

pub record_workflow_run-IsConsistent :
    (k : RunKey) (d : ℤ) (g : WorkflowGauges)
    → IsConsistent g
    → IsConsistent (record_workflow_run k d g)
unfolding record_workflow_run
record_workflow_run-IsConsistent k d g c = record {
  steps = c.steps;
  starts = c.starts;
  runs = insert-IsTracked run_labels g.run_keys k d g.run_duration c.runs;
  jobs = c.jobs;
  job_starts = c.job_starts;
  job_times = c.job_times;
  totals = c.totals;
  infos = c.infos;
}

started_at-IsTracked :
    (b : Bool) (k : JobKey) (z : ℤ) (ks : List JobKey) (v : Vec)
    → IsTracked job_labels ks v
    → IsTracked job_labels (ks ++ k ∷ []) (if b then v else insert (job_labels k) z v)
started_at-IsTracked true k z ks v h = weaken-IsTracked job_labels ks k v h
started_at-IsTracked false k z ks v h = insert-IsTracked job_labels ks k z v h

pub record_workflow_job-IsConsistent :
    (k : JobKey) (conclusion : String) (started : ℕ) (d : ℤ) (g : WorkflowGauges)
    → IsConsistent g
    → IsConsistent (record_workflow_job k conclusion started d g)
unfolding record_workflow_job
record_workflow_job-IsConsistent k conclusion started d g c = record {
  steps = c.steps;
  starts = c.starts;
  runs = c.runs;
  jobs = insert-IsTracked job_labels g.job_keys k _ g.job_status c.jobs;
  job_starts = started_at-IsTracked (started == 0) k _ g.job_keys g.job_started_at c.job_starts;
  job_times = insert-IsTracked job_labels g.job_keys k d g.job_duration c.job_times;
  totals = c.totals;
  infos = c.infos;
}

pub record_workflow_step-IsConsistent :
    (k : StepKey) (started : ℕ) (d : ℤ) (g : WorkflowGauges)
    → IsConsistent g
    → IsConsistent (record_workflow_step k started d g)
unfolding record_workflow_step
record_workflow_step-IsConsistent k started d g c = record {
  steps = insert-IsTracked step_labels g.step_keys k d g.step_duration c.steps;
  starts = insert-IsTracked step_labels g.step_keys k _ g.step_start_time c.starts;
  runs = c.runs;
  jobs = c.jobs;
  job_starts = c.job_starts;
  job_times = c.job_times;
  totals = c.totals;
  infos = c.infos;
}

pub record_workflow_annotation-IsConsistent :
    (k : AnnotationInfoKey) (g : WorkflowGauges)
    → IsConsistent g
    → IsConsistent (record_workflow_annotation k g)
unfolding record_workflow_annotation inc
record_workflow_annotation-IsConsistent k g c = record {
  steps = c.steps;
  starts = c.starts;
  runs = c.runs;
  jobs = c.jobs;
  job_starts = c.job_starts;
  job_times = c.job_times;
  totals =
      insert-IsTracked annotation_labels g.annotation_keys (annotation_key k) _ g.annotation_total
        c.totals;
  infos = insert-IsTracked info_labels g.info_keys k (pos 1) g.annotation_info c.infos;
}

pub reset_for_repos-IsConsistent :
    (sel : String → Bool) (g : WorkflowGauges)
    → IsConsistent g
    → IsConsistent (reset_for_repos sel g)
unfolding reset_for_repos
reset_for_repos-IsConsistent sel g c = record {
  steps = swept-IsTracked StepKey.repo step_rest sel g.step_keys g.step_duration c.steps;
  starts = swept-IsTracked StepKey.repo step_rest sel g.step_keys g.step_start_time c.starts;
  runs = swept-IsTracked RunKey.repo run_rest sel g.run_keys g.run_duration c.runs;
  jobs = swept-IsTracked JobKey.repo job_rest sel g.job_keys g.job_status c.jobs;
  job_starts = swept-IsTracked JobKey.repo job_rest sel g.job_keys g.job_started_at c.job_starts;
  job_times = swept-IsTracked JobKey.repo job_rest sel g.job_keys g.job_duration c.job_times;
  totals =
      swept-IsTracked AnnotationKey.repo annotation_rest sel g.annotation_keys g.annotation_total
        c.totals;
  infos =
      swept-IsTracked AnnotationInfoKey.repo info_rest sel g.info_keys g.annotation_info c.infos;
}
