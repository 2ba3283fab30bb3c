-- ===== src/Collector/Cycle.antt =====
-- `tryLock` and `collect` of internal/services/github_collector.go.
use scuffinger.Prelude.{
  ◌+◌, String, Bool, true, false, Option, none, some, List, [], ◌∷◌, ◌==◌, string_eq, ℕ_eq, ◌+++◌,
  any,
}
use scuffinger.Prelude.Result.{Result, ok, err}
use scuffinger.I18n
use scuffinger.I18n.{Error, Messages}
use scuffinger.Collector.Types.{SetNx, Env, State}
use scuffinger.Config.{collector_duration}
use scuffinger.Metrics.Health.{inc}
use scuffinger.Metrics.Workflow.{WorkflowGauges, reset_for_repos}
use scuffinger.Collector.Repo.{parse_repo}
use scuffinger.Collector.Runs.{collect_repo}

unfoldable pub bad_repo : Messages → String → Error
bad_repo active full_name =
    I18n.get active I18n.err_gh_collector_parse_repo +++ (": \"" +++ (full_name +++ "\""))

module _ {W : Type 0} (env : Env W) where
  -- An unreachable ValKey counts as a lock that was taken.
  unfoldable pub lock_answered : String → Result Error Bool × W → State W → Bool × State W
  lock_answered repo (err e, w) s = (true, record s { world = w })
  lock_answered repo (ok false, w) s =
      (false, record s { world = w; locks_skipped = inc repo s.locks_skipped })
  lock_answered repo (ok true, w) s =
      (true, record s { world = w; locks_acquired = inc repo s.locks_acquired })

  unfoldable pub lock_with : Option (SetNx W) → String → State W → Bool × State W
  unfolding lock_answered
  lock_with none repo s = (true, s)
  lock_with (some set_nx) repo s =
      lock_answered repo
        (set_nx ("scuffinger:collect:" +++ repo) env.pod_id
          (collector_duration env.parse_duration env.cfg) s.world)
        s

  unfoldable pub try_lock : String → State W → Bool × State W
  unfolding lock_with
  try_lock repo s = lock_with env.set_nx repo s

-- What the loop of `collect` carries: the repositories collected, and the last error.
pub record Cycle (W : Type 0) : Type 0 where
  pub collected : List String
  pub cycle_err : Option Error
  pub state : State W

abbrev pub member : List String → String → Bool
member rs r = any (λ q. q == r) rs

module _ {W : Type 0} (env : Env W) where
  unfoldable pub repo_collected : String → Option Error × State W → Cycle W → Cycle W
  repo_collected full_name (none, s) c = record c { collected = full_name ∷ c.collected; state = s }
  repo_collected full_name (some e, s) c = record {
    collected = full_name ∷ c.collected;
    cycle_err = some e;
    state = record s { errors = inc full_name s.errors };
  }

  unfoldable pub locked : String → String → String → Bool × State W → Cycle W → Cycle W
  unfolding repo_collected
  locked full_name owner repo (false, s) c = record c { state = s }
  locked full_name owner repo (true, s) c =
      repo_collected full_name (collect_repo env owner repo s) c

  unfoldable pub parsed : String → Result Error (String × String) → Cycle W → Cycle W
  unfolding locked
  parsed full_name (err e) c = record c { cycle_err = some e }
  parsed full_name (ok (owner, repo)) c =
      locked full_name owner repo (try_lock env full_name c.state) c

  -- the body of the loop over the configured repositories
  unfoldable pub collect_one : String → Cycle W → Cycle W
  unfolding parsed bad_repo
  collect_one full_name c = parsed full_name (parse_repo (bad_repo env.active) full_name) c

  unfoldable pub collect_each : List String → Cycle W → Cycle W
  collect_each [] c = c
  collect_each (full_name ∷ repos) c = collect_each repos (collect_one full_name c)

  unfoldable pub reset_collected : List String → WorkflowGauges → WorkflowGauges
  reset_collected [] g = g
  reset_collected (r ∷ rs) g = reset_for_repos (member (r ∷ rs)) g

  -- the loop over the configured repositories
  unfoldable pub loop : State W → Cycle W
  loop s =
      collect_each env.cfg.repositories (record { collected = []; cycle_err = none; state = s })

  unfoldable pub collect : State W → State W
  unfolding reset_collected
  collect s =
      let c = loop s in
      record c.state {
        gauges = reset_collected c.collected c.state.gauges;
        cycles = c.state.cycles + 1;
        last_err = c.cycle_err;
      }
