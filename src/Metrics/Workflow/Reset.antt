-- ===== src/Metrics/Workflow/Reset.antt =====
-- What the two reset functions of internal/metrics/github_collector.go delete.
use scuffinger.Prelude.{
  String, Bool, true, false, none, List, [], ◌∷◌, ◌≡◌, refl, list_eq, string_eq, arith,
  if◌then◌else◌,
}
use scuffinger.Prelude.Map.{lookup, delete}
use scuffinger.Metrics.Vec.{Labels, Vec, of_selected, swept, kept, swept-lookup_repo}
use scuffinger.Metrics.Workflow.{
  StepKey, RunKey, JobKey, AnnotationKey, AnnotationInfoKey, step_rest, run_rest, job_rest,
  annotation_rest, info_rest, WorkflowGauges, reset_for_repos, reset_all, delete_all,
}
use scuffinger.Metrics.Workflow.Tracked.{IsConsistent}

-- `after` is `before` without the series of the selected repositories.
abbrev pub Drops : (String → Bool) → Vec → Vec → Type 0
Drops sel before after =
    (l : Labels) → lookup l after ≡ (if of_selected sel l then none else lookup l before)

-- The eight tracked vectors have lost the series of the selected repositories, and nothing else.
pub record DropsRepos (sel : String → Bool) (before after : WorkflowGauges) : Type 0 where
  pub step_duration : Drops sel before.step_duration after.step_duration
  pub step_start_time : Drops sel before.step_start_time after.step_start_time
  pub run_duration : Drops sel before.run_duration after.run_duration
  pub job_status : Drops sel before.job_status after.job_status
  pub job_started_at : Drops sel before.job_started_at after.job_started_at
  pub job_duration : Drops sel before.job_duration after.job_duration
  pub annotation_total : Drops sel before.annotation_total after.annotation_total
  pub annotation_info : Drops sel before.annotation_info after.annotation_info

-- If every series is tracked, `ResetTrackedWorkflowMetricsForRepos` deletes from each of the eight
-- tracked vectors exactly the series whose repository is in the set, and leaves the run status as
-- it is.
pub reset_for_repos-DropsRepos :
    (sel : String → Bool) (g : WorkflowGauges)
    → IsConsistent g
    → DropsRepos sel g (reset_for_repos sel g) × ((reset_for_repos sel g).run_status ≡ g.run_status)
unfolding reset_for_repos
reset_for_repos-DropsRepos sel g c = (
  record {
    step_duration = swept-lookup_repo StepKey.repo step_rest sel g.step_keys _ c.steps;
    step_start_time = swept-lookup_repo StepKey.repo step_rest sel g.step_keys _ c.starts;
    run_duration = swept-lookup_repo RunKey.repo run_rest sel g.run_keys _ c.runs;
    job_status = swept-lookup_repo JobKey.repo job_rest sel g.job_keys _ c.jobs;
    job_started_at = swept-lookup_repo JobKey.repo job_rest sel g.job_keys _ c.job_starts;
    job_duration = swept-lookup_repo JobKey.repo job_rest sel g.job_keys _ c.job_times;
    annotation_total =
        swept-lookup_repo AnnotationKey.repo annotation_rest sel g.annotation_keys _ c.totals;
    annotation_info = swept-lookup_repo AnnotationInfoKey.repo info_rest sel g.info_keys _ c.infos;
  },
  refl,
)

module _ {K : Type 0} (labels : K → Labels) where
  swept_all : (ks : List K) (v : Vec) → swept labels (λ k. true) ks v ≡ delete_all labels ks v
  unfolding swept delete_all
  swept_all [] v = refl
  swept_all (k ∷ ks) v = swept_all ks (delete (labels k) v)

kept_none : {K : Type 0} (ks : List K) → kept (λ (k : K). true) ks ≡ []
unfolding kept
kept_none [] = refl
kept_none (k ∷ ks) = kept_none ks

-- `ResetTrackedWorkflowMetrics` does what `ResetTrackedWorkflowMetricsForRepos` does for a set
-- that holds every repository.
pub reset_all-reset_for_repos : (g : WorkflowGauges) → reset_all g ≡ reset_for_repos (λ r. true) g
unfolding reset_all reset_for_repos
reset_all-reset_for_repos g = simp (swept_all, kept_none)

none_selected : (l : Labels) → of_selected (λ r. false) l ≡ false
none_selected [] = refl
none_selected (r ∷ ls) = refl

keeps_all : (v : Vec) → Drops (λ r. false) v v
keeps_all v l = ground (arith, none_selected l)

-- Where nothing is selected nothing is dropped.
pub Drops-none : (g : WorkflowGauges) → DropsRepos (λ r. false) g g
Drops-none g = record {
  step_duration = keeps_all g.step_duration;
  step_start_time = keeps_all g.step_start_time;
  run_duration = keeps_all g.run_duration;
  job_status = keeps_all g.job_status;
  job_started_at = keeps_all g.job_started_at;
  job_duration = keeps_all g.job_duration;
  annotation_total = keeps_all g.annotation_total;
  annotation_info = keeps_all g.annotation_info;
}
