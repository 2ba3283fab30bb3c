-- ===== src/Metrics/Workflow.antt =====
-- internal/metrics/github_collector.go: the gauges of the GitHub collector, the keys that are
-- tracked for them, and the functions that record and reset them. A duration is a number of
-- nanoseconds; a time counts nanoseconds from the zero `time.Time` (1 January of year 1, UTC).
pub mod Tracked
pub mod Reset
pub mod Frame
use scuffinger.Prelude.{
  ℕ, ◌*◌, ◌/◌, String, Bool, true, false, List, [], ◌∷◌, ◌++◌, ◌==◌, list_eq, string_eq, ℕ_eq, not,
  any, if◌then◌else◌,
}
use scuffinger.Prelude.Int.{ℤ, pos, negsuc, sub_ℕ}
use scuffinger.Prelude.Map.{insert, delete}
use scuffinger.Metrics.Vec.{Labels, Vec, inc, swept, kept}

pub record StepKey : Type 0 where
  pub repo : String
  pub workflow : String
  pub run_id : String
  pub job : String
  pub step : String
  pub conclusion : String

pub record RunKey : Type 0 where
  pub repo : String
  pub workflow : String
  pub run_id : String
  pub conclusion : String

pub record JobKey : Type 0 where
  pub repo : String
  pub workflow : String
  pub run_id : String
  pub job : String

pub record AnnotationKey : Type 0 where
  pub repo : String
  pub workflow : String
  pub run_id : String
  pub job : String
  pub level : String

pub record AnnotationInfoKey : Type 0 where
  pub repo : String
  pub workflow : String
  pub run_id : String
  pub job : String
  pub level : String
  pub title : String
  pub path : String

-- the label values behind the repository, in the order of the vector's label names
abbrev pub step_rest : StepKey → Labels
step_rest k = k.workflow ∷ k.run_id ∷ k.job ∷ k.step ∷ k.conclusion ∷ []

abbrev pub run_rest : RunKey → Labels
run_rest k = k.workflow ∷ k.run_id ∷ k.conclusion ∷ []

abbrev pub job_rest : JobKey → Labels
job_rest k = k.workflow ∷ k.run_id ∷ k.job ∷ []

abbrev pub annotation_rest : AnnotationKey → Labels
annotation_rest k = k.workflow ∷ k.run_id ∷ k.job ∷ k.level ∷ []

abbrev pub info_rest : AnnotationInfoKey → Labels
info_rest k = k.workflow ∷ k.run_id ∷ k.job ∷ k.level ∷ k.title ∷ k.path ∷ []

abbrev pub step_labels : StepKey → Labels
step_labels k = k.repo ∷ step_rest k

abbrev pub run_labels : RunKey → Labels
run_labels k = k.repo ∷ run_rest k

abbrev pub job_labels : JobKey → Labels
job_labels k = k.repo ∷ job_rest k

abbrev pub annotation_labels : AnnotationKey → Labels
annotation_labels k = k.repo ∷ annotation_rest k

abbrev pub info_labels : AnnotationInfoKey → Labels
info_labels k = k.repo ∷ info_rest k

-- the vectors of a repository's metadata
pub record RepoGauges : Type 0 where
  pub stars : Vec
  pub forks : Vec
  pub open_issues : Vec
  pub size : Vec
  pub info : Vec

-- the vectors of workflows, with the tracked keys
pub record WorkflowGauges : Type 0 where
  pub run_duration : Vec
  pub run_status : Vec
  pub step_duration : Vec
  pub step_start_time : Vec
  pub job_status : Vec
  pub job_started_at : Vec
  pub job_duration : Vec
  pub annotation_total : Vec
  pub annotation_info : Vec
  pub step_keys : List StepKey
  pub run_keys : List RunKey
  pub job_keys : List JobKey
  pub annotation_keys : List AnnotationKey
  pub info_keys : List AnnotationInfoKey

-- the vectors whose keys are tracked
abbrev pub tracked_vectors : WorkflowGauges → List Vec
tracked_vectors g =
    g.step_duration ∷ g.step_start_time ∷ g.run_duration ∷ g.job_status ∷ g.job_started_at
    ∷ g.job_duration ∷ g.annotation_total ∷ g.annotation_info ∷ []

-- startedAt.Unix(), in nanoseconds: whole seconds from 1970
pub unix : ℕ → ℤ
unix t = sub_ℕ (t / 1_000_000_000 * 1_000_000_000) (62_135_596_800 * 1_000_000_000)

-- fmt.Sprintf("%t", archived)
abbrev pub bool_text : Bool → String
bool_text true = "true"
bool_text false = "false"

pub record RepoFacts : Type 0 where
  pub language : String
  pub default_branch : String
  pub archived : Bool
  pub stars : ℤ
  pub forks : ℤ
  pub open_issues : ℤ
  pub size : ℤ

unfoldable pub set_repo_gauges : String → RepoFacts → RepoGauges → RepoGauges
set_repo_gauges repo f g = record {
  stars = insert (repo ∷ []) f.stars g.stars;
  forks = insert (repo ∷ []) f.forks g.forks;
  open_issues = insert (repo ∷ []) f.open_issues g.open_issues;
  size = insert (repo ∷ []) f.size g.size;
  info = insert (repo ∷ f.language ∷ f.default_branch ∷ bool_text f.archived ∷ []) (pos 1) g.info;
}

unfoldable pub record_workflow_run : RunKey → ℤ → WorkflowGauges → WorkflowGauges
record_workflow_run k duration g = record g {
  run_duration = insert (run_labels k) duration g.run_duration;
  run_status = insert (k.repo ∷ k.workflow ∷ k.conclusion ∷ []) (pos 1) g.run_status;
  run_keys = g.run_keys ++ k ∷ [];
}

unfoldable pub job_conclusion_code : String → ℤ
job_conclusion_code conclusion =
    if conclusion == "success"
    then pos 0
    else if conclusion == "failure"
    then pos 1
    else if conclusion == "in_progress"
    then pos 2
    else if conclusion == "queued"
    then pos 3
    else if conclusion == "skipped"
    then pos 4
    else if conclusion == "cancelled"
    then pos 5
    else negsuc 0

-- the start time is set only if it is not the zero time
unfoldable pub record_workflow_job : JobKey → String → ℕ → ℤ → WorkflowGauges → WorkflowGauges
unfolding job_conclusion_code unix
record_workflow_job k conclusion started duration g = record g {
  job_status = insert (job_labels k) (job_conclusion_code conclusion) g.job_status;
  job_started_at =
      if started == 0
      then g.job_started_at
      else insert (job_labels k) (unix started) g.job_started_at;
  job_duration = insert (job_labels k) duration g.job_duration;
  job_keys = g.job_keys ++ k ∷ [];
}

unfoldable pub record_workflow_step : StepKey → ℕ → ℤ → WorkflowGauges → WorkflowGauges
unfolding unix
record_workflow_step k started duration g = record g {
  step_start_time = insert (step_labels k) (unix started) g.step_start_time;
  step_duration = insert (step_labels k) duration g.step_duration;
  step_keys = g.step_keys ++ k ∷ [];
}

abbrev pub annotation_key : AnnotationInfoKey → AnnotationKey
annotation_key k = record {
  repo = k.repo;
  workflow = k.workflow;
  run_id = k.run_id;
  job = k.job;
  level = k.level;
}

unfoldable pub record_workflow_annotation : AnnotationInfoKey → WorkflowGauges → WorkflowGauges
record_workflow_annotation k g = record g {
  annotation_total = inc (annotation_labels (annotation_key k)) g.annotation_total;
  annotation_info = insert (info_labels k) (pos 1) g.annotation_info;
  annotation_keys = g.annotation_keys ++ annotation_key k ∷ [];
  info_keys = g.info_keys ++ k ∷ [];
}

-- `ResetTrackedWorkflowMetricsForRepos`. `sel` says which repositories are in the set.
unfoldable pub reset_for_repos : (String → Bool) → WorkflowGauges → WorkflowGauges
reset_for_repos sel g = record g {
  step_duration = swept step_labels (λ k. sel k.repo) g.step_keys g.step_duration;
  step_start_time = swept step_labels (λ k. sel k.repo) g.step_keys g.step_start_time;
  step_keys = kept (λ (k : StepKey). sel k.repo) g.step_keys;
  run_duration = swept run_labels (λ k. sel k.repo) g.run_keys g.run_duration;
  run_keys = kept (λ (k : RunKey). sel k.repo) g.run_keys;
  job_status = swept job_labels (λ k. sel k.repo) g.job_keys g.job_status;
  job_started_at = swept job_labels (λ k. sel k.repo) g.job_keys g.job_started_at;
  job_duration = swept job_labels (λ k. sel k.repo) g.job_keys g.job_duration;
  job_keys = kept (λ (k : JobKey). sel k.repo) g.job_keys;
  annotation_total = swept annotation_labels (λ k. sel k.repo) g.annotation_keys g.annotation_total;
  annotation_keys = kept (λ (k : AnnotationKey). sel k.repo) g.annotation_keys;
  annotation_info = swept info_labels (λ k. sel k.repo) g.info_keys g.annotation_info;
  info_keys = kept (λ (k : AnnotationInfoKey). sel k.repo) g.info_keys;
}

-- the loops of `ResetTrackedWorkflowMetrics`
unfoldable pub delete_all : {K : Type 0} → (K → Labels) → List K → Vec → Vec
delete_all labels [] v = v
delete_all labels (k ∷ ks) v = delete_all labels ks (delete (labels k) v)

unfoldable pub reset_all : WorkflowGauges → WorkflowGauges
reset_all g = record g {
  step_duration = delete_all step_labels g.step_keys g.step_duration;
  step_start_time = delete_all step_labels g.step_keys g.step_start_time;
  run_duration = delete_all run_labels g.run_keys g.run_duration;
  job_status = delete_all job_labels g.job_keys g.job_status;
  job_started_at = delete_all job_labels g.job_keys g.job_started_at;
  job_duration = delete_all job_labels g.job_keys g.job_duration;
  annotation_total = delete_all annotation_labels g.annotation_keys g.annotation_total;
  annotation_info = delete_all info_labels g.info_keys g.annotation_info;
  step_keys = [];
  run_keys = [];
  job_keys = [];
  annotation_keys = [];
  info_keys = [];
}
