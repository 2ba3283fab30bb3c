-- ===== src/Metrics/Workflow/Frame.antt =====
-- Writes for some repositories leave the series of the others alone
-- (internal/metrics/github_collector.go).
use scuffinger.Prelude.{
  ℕ, String, Bool, true, false, Option, none, [], ◌∷◌, ◌≡◌, refl, ◌∙◌, ◌==◌, list_eq, string_eq,
  ℕ_eq, arith, list_beq_iff, if◌then◌else◌,
}
use scuffinger.Prelude.Int.{ℤ}
use scuffinger.Prelude.Map.{lookup, insert, lookup-insert}
use scuffinger.Metrics.Vec.{Labels, Vec, inc, of_selected}
use scuffinger.Metrics.Workflow.{
  StepKey, RunKey, JobKey, AnnotationInfoKey, WorkflowGauges, record_workflow_run,
  record_workflow_job, record_workflow_step, record_workflow_annotation,
}
use scuffinger.Metrics.Workflow.Reset.{DropsRepos}
use scuffinger.Metrics.Workflow.Tracked.{
  IsConsistent, record_workflow_run-IsConsistent, record_workflow_job-IsConsistent,
  record_workflow_step-IsConsistent, record_workflow_annotation-IsConsistent,
}

-- The series of repositories outside the selection are the same.
abbrev pub Same : (String → Bool) → Vec → Vec → Type 0
Same sel v v' = (l : Labels) → of_selected sel l ≡ false → lookup l v' ≡ lookup l v

-- The eight tracked vectors agree outside the selection, and stay tracked.
pub record Keeps (sel : String → Bool) (g g' : WorkflowGauges) : Type 0 where
  pub consistent : IsConsistent g → IsConsistent g'
  pub step_duration : Same sel g.step_duration g'.step_duration
  pub step_start_time : Same sel g.step_start_time g'.step_start_time
  pub run_duration : Same sel g.run_duration g'.run_duration
  pub job_status : Same sel g.job_status g'.job_status
  pub job_started_at : Same sel g.job_started_at g'.job_started_at
  pub job_duration : Same sel g.job_duration g'.job_duration
  pub annotation_total : Same sel g.annotation_total g'.annotation_total
  pub annotation_info : Same sel g.annotation_info g'.annotation_info

module _ (sel : String → Bool) where
  pub Keeps-refl : (g : WorkflowGauges) → Keeps sel g g
  Keeps-refl g = record {
    consistent = λ c. c;
    step_duration = λ l h. refl;
    step_start_time = λ l h. refl;
    run_duration = λ l h. refl;
    job_status = λ l h. refl;
    job_started_at = λ l h. refl;
    job_duration = λ l h. refl;
    annotation_total = λ l h. refl;
    annotation_info = λ l h. refl;
  }

  pub Keeps-trans : {a b c : WorkflowGauges} → Keeps sel a b → Keeps sel b c → Keeps sel a c
  Keeps-trans p q = record {
    consistent = λ k. q.consistent (p.consistent k);
    step_duration = λ l h. q.step_duration l h ∙ p.step_duration l h;
    step_start_time = λ l h. q.step_start_time l h ∙ p.step_start_time l h;
    run_duration = λ l h. q.run_duration l h ∙ p.run_duration l h;
    job_status = λ l h. q.job_status l h ∙ p.job_status l h;
    job_started_at = λ l h. q.job_started_at l h ∙ p.job_started_at l h;
    job_duration = λ l h. q.job_duration l h ∙ p.job_duration l h;
    annotation_total = λ l h. q.annotation_total l h ∙ p.annotation_total l h;
    annotation_info = λ l h. q.annotation_info l h ∙ p.annotation_info l h;
  }

  insert-Same :
      (r : String) (ls : Labels) (z : ℤ) (v : Vec) → sel r ≡ true → Same sel v (insert (r ∷ ls) z v)
  insert-Same r ls z v s l h = ground (arith, lookup-insert (r ∷ ls) l z v, list_beq_iff (r ∷ ls) l)

  started_at-Same :
      (b : Bool) (r : String) (ls : Labels) (z : ℤ) (v : Vec)
      → sel r ≡ true
      → Same sel v (if b then v else insert (r ∷ ls) z v)
  started_at-Same true r ls z v s = λ l h. refl
  started_at-Same false r ls z v s = insert-Same r ls z v s

  pub record_workflow_run-Keeps :
      (k : RunKey) (d : ℤ) (g : WorkflowGauges)
      → sel k.repo ≡ true
      → Keeps sel g (record_workflow_run k d g)
  unfolding record_workflow_run
  record_workflow_run-Keeps k d g s = record {
    consistent = λ c. record_workflow_run-IsConsistent k d g c;
    step_duration = λ l h. refl;
    step_start_time = λ l h. refl;
    run_duration = insert-Same k.repo _ d g.run_duration s;
    job_status = λ l h. refl;
    job_started_at = λ l h. refl;
    job_duration = λ l h. refl;
    annotation_total = λ l h. refl;
    annotation_info = λ l h. refl;
  }

  pub record_workflow_job-Keeps :
      (k : JobKey) (conclusion : String) (started : ℕ) (d : ℤ) (g : WorkflowGauges)
      → sel k.repo ≡ true
      → Keeps sel g (record_workflow_job k conclusion started d g)
  unfolding record_workflow_job
  record_workflow_job-Keeps k conclusion started d g s = record {
    consistent = λ c. record_workflow_job-IsConsistent k conclusion started d g c;
    step_duration = λ l h. refl;
    step_start_time = λ l h. refl;
    run_duration = λ l h. refl;
    job_status = insert-Same k.repo _ _ g.job_status s;
    job_started_at = started_at-Same (started == 0) k.repo _ _ g.job_started_at s;
    job_duration = insert-Same k.repo _ d g.job_duration s;
    annotation_total = λ l h. refl;
    annotation_info = λ l h. refl;
  }

  pub record_workflow_step-Keeps :
      (k : StepKey) (started : ℕ) (d : ℤ) (g : WorkflowGauges)
      → sel k.repo ≡ true
      → Keeps sel g (record_workflow_step k started d g)
  unfolding record_workflow_step
  record_workflow_step-Keeps k started d g s = record {
    consistent = λ c. record_workflow_step-IsConsistent k started d g c;
    step_duration = insert-Same k.repo _ d g.step_duration s;
    step_start_time = insert-Same k.repo _ _ g.step_start_time s;
    run_duration = λ l h. refl;
    job_status = λ l h. refl;
    job_started_at = λ l h. refl;
    job_duration = λ l h. refl;
    annotation_total = λ l h. refl;
    annotation_info = λ l h. refl;
  }

  pub record_workflow_annotation-Keeps :
      (k : AnnotationInfoKey) (g : WorkflowGauges)
      → sel k.repo ≡ true
      → Keeps sel g (record_workflow_annotation k g)
  unfolding record_workflow_annotation inc
  record_workflow_annotation-Keeps k g s = record {
    consistent = λ c. record_workflow_annotation-IsConsistent k g c;
    step_duration = λ l h. refl;
    step_start_time = λ l h. refl;
    run_duration = λ l h. refl;
    job_status = λ l h. refl;
    job_started_at = λ l h. refl;
    job_duration = λ l h. refl;
    annotation_total = insert-Same k.repo _ _ g.annotation_total s;
    annotation_info = insert-Same k.repo _ _ g.annotation_info s;
  }

module _ (sel sel' : String → Bool) (wider : (r : String) → sel r ≡ true → sel' r ≡ true) where
  narrower : (l : Labels) → of_selected sel' l ≡ false → of_selected sel l ≡ false
  narrower [] h = refl
  narrower (r ∷ ls) h = ground (arith, wider r)

  pub Keeps-wider : {g g' : WorkflowGauges} → Keeps sel g g' → Keeps sel' g g'
  Keeps-wider k = record {
    consistent = k.consistent;
    step_duration = λ l h. k.step_duration l (narrower l h);
    step_start_time = λ l h. k.step_start_time l (narrower l h);
    run_duration = λ l h. k.run_duration l (narrower l h);
    job_status = λ l h. k.job_status l (narrower l h);
    job_started_at = λ l h. k.job_started_at l (narrower l h);
    job_duration = λ l h. k.job_duration l (narrower l h);
    annotation_total = λ l h. k.annotation_total l (narrower l h);
    annotation_info = λ l h. k.annotation_info l (narrower l h);
  }

same_drop :
    (sel : String → Bool) (l : Labels) {a b c : Option ℤ}
    → c ≡ (if of_selected sel l then none else b)
    → (of_selected sel l ≡ false → b ≡ a)
    → c ≡ (if of_selected sel l then none else a)
same_drop sel l d k = ground arith

-- Writes for selected repositories and then a deletion of what is selected.
pub Keeps-DropsRepos :
    (sel : String → Bool) {a b c : WorkflowGauges}
    → Keeps sel a b
    → DropsRepos sel b c
    → DropsRepos sel a c
Keeps-DropsRepos sel k d = record {
  step_duration = λ l. same_drop sel l (d.step_duration l) (k.step_duration l);
  step_start_time = λ l. same_drop sel l (d.step_start_time l) (k.step_start_time l);
  run_duration = λ l. same_drop sel l (d.run_duration l) (k.run_duration l);
  job_status = λ l. same_drop sel l (d.job_status l) (k.job_status l);
  job_started_at = λ l. same_drop sel l (d.job_started_at l) (k.job_started_at l);
  job_duration = λ l. same_drop sel l (d.job_duration l) (k.job_duration l);
  annotation_total = λ l. same_drop sel l (d.annotation_total l) (k.annotation_total l);
  annotation_info = λ l. same_drop sel l (d.annotation_info l) (k.annotation_info l);
}
