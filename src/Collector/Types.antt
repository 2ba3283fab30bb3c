-- ===== src/Collector/Types.antt =====
-- The data of internal/services/github_collector.go. An id is a number, a time counts nanoseconds
-- from the zero `time.Time`, and a nil pointer is `none`.
use scuffinger.Prelude.{
  ℕ, ◌-◌, leb, String, Bool, Option, none, some, List, ◌==◌, string_eq, ℕ_eq, if◌then◌else◌,
}
use scuffinger.Prelude.Int.{ℤ, pos, negsuc}
use scuffinger.Prelude.Map.{Map}
use scuffinger.Prelude.Result.{Result, ok, err}
use scuffinger.I18n.{Error, Messages}
use scuffinger.Config.{GithubConfig}
use scuffinger.Metrics.Github.{ApiMetrics}
use scuffinger.Metrics.Workflow.{RepoFacts, RepoGauges, WorkflowGauges}

-- what the collector reads of go-github's values
pub record StepInfo : Type 0 where
  pub name : String
  pub conclusion : String
  pub status : String
  pub started_at : Option ℕ
  pub completed_at : Option ℕ

pub record JobInfo : Type 0 where
  pub id : ℕ
  pub name : String
  pub conclusion : String
  pub status : String
  pub started_at : Option ℕ
  pub completed_at : Option ℕ
  pub steps : List StepInfo

pub record RunInfo : Type 0 where
  pub id : ℕ
  pub name : String
  pub conclusion : String
  pub status : String
  pub run_started_at : Option ℕ
  pub updated_at : Option ℕ

pub record Annotation : Type 0 where
  pub level : String
  pub title : String
  pub path : String

-- the calls of the GitHub API
pub record Github (W : Type 0) : Type 0 where
  pub get_repo : String → String → W → Result Error RepoFacts × W
  pub list_runs : String → String → ℤ → W → Result Error (List RunInfo) × W
  pub list_jobs : String → String → ℕ → W → Result Error (List JobInfo) × W
  pub list_annotations : String → String → ℕ → W → Result Error (List Annotation) × W

-- the upserts, whose errors are only logged
pub record Pool (W : Type 0) : Type 0 where
  pub upsert_run : String → RunInfo → String → W → W
  pub upsert_job : String → ℕ → JobInfo → W → W

-- SET key value NX with a time to live in nanoseconds: whether the key was set
abbrev pub SetNx : Type 0 → Type 0
SetNx W = String → String → ℤ → W → Result Error Bool × W

-- What a collector is made with: `pool` and `set_nx` are `none` where the program has nil.
pub record Env (W : Type 0) : Type 0 where
  pub cfg : GithubConfig
  pub github : Github W
  pub pool : Option (Pool W)
  pub set_nx : Option (SetNx W)
  pub pod_id : String
  pub clock : W → ℕ
  pub parse_duration : String → Option ℤ
  pub active : Messages

-- The metrics that a cycle writes, the error of the last cycle, and the world.
pub record State (W : Type 0) : Type 0 where
  pub gauges : WorkflowGauges
  pub repo_gauges : RepoGauges
  pub api : ApiMetrics
  pub cycles : ℕ
  pub errors : Map String ℕ
  pub locks_acquired : Map String ℕ
  pub locks_skipped : Map String ℕ
  pub last_err : Option Error
  pub world : W

-- a getter of go-github: the zero time for nil
abbrev pub time_or_zero : Option ℕ → ℕ
time_or_zero none = 0
time_or_zero (some t) = t

-- math.MaxInt64
abbrev max_duration : ℕ
max_duration = 9_223_372_036_854_775_807

-- t.Sub(u), which saturates at the ends of an int64
abbrev pub sub_time : ℕ → ℕ → ℤ
sub_time t u =
    if leb u t
    then pos (if leb max_duration (t - u) then max_duration else t - u)
    else negsuc (if leb max_duration (u - t - 1) then max_duration else u - t - 1)

abbrev pub or_status : String → String → String
or_status conclusion status = if conclusion == "" then status else conclusion

abbrev pub error_of {ℓ} : {A : Type ℓ} → Result Error A → Option Error
error_of (ok a) = none
error_of (err e) = some e

-- `some` completion that is not the zero time
unfoldable pub job_duration : ℕ → Option ℕ → ℤ
job_duration started none = pos 0
job_duration started (some completed) = if completed == 0 then pos 0 else sub_time completed started
