-- ===== src/Collector/Service.antt =====
-- The collector as a service: `SelfTest`, `Ping`, `Start` and `Close` of
-- internal/services/github_collector.go.
use scuffinger.Prelude.{
  ℕ, ◌+◌, ◌≡◌, refl, String, ℕ_eq, Bool, true, false, ◌==◌, any, Option, none, some, List, [], ◌∷◌,
  all, arith, if◌then◌else◌,
}
use scuffinger.Prelude.Result.{Result, ok, err, is_ok}
use scuffinger.I18n
use scuffinger.I18n.{Error}
use scuffinger.Metrics.Workflow.{RepoFacts}
use scuffinger.Collector.Types.{Env, State}
use scuffinger.Collector.Repo.{parse_repo}
use scuffinger.Collector.Runs.{collect_repo}
use scuffinger.Collector.Cycle.{
  Cycle, bad_repo, try_lock, repo_collected, locked, parsed, collect_one, collect_each, loop,
  collect,
}
use scuffinger.Collector.Stale.{is_valid}

-- `cancel` names the context that `Close` cancels; `loops` are the contexts of the loops that were
-- begun, and `cancelled` those that are cancelled, which is a signal.
pub record CollectorService (W : Type 0) : Type 0 where
  pub state : State W
  pub cancel : Option ℕ
  pub loops : List ℕ
  pub cancelled : List ℕ
  pub started : ℕ

module _ {W : Type 0} where
  -- `Ping`: the error of the last cycle
  unfoldable pub ping : CollectorService W → Option Error
  ping c = c.state.last_err

  -- `Start` up to its goroutine, whose every cycle, the first included, is a `tick`
  unfoldable pub start : CollectorService W → CollectorService W
  start c = record c {
    cancel = some c.started;
    loops = c.started ∷ c.loops;
    started = c.started + 1;
  }

  stopped : Option ℕ → CollectorService W → CollectorService W
  stopped none c = c
  stopped (some i) c = record c { cancelled = i ∷ c.cancelled }

  unfoldable pub close : CollectorService W → Option Error × CollectorService W
  unfolding stopped
  close c = (none, stopped c.cancel c)

module _ {W : Type 0} (env : Env W) where
  -- a cycle of the loop `i`, if it was begun
  unfoldable pub tick : ℕ → CollectorService W → CollectorService W
  tick i c = if any (λ j. j == i) c.loops then record c { state = collect env c.state } else c

  trial : Result Error RepoFacts × W → Option Error × W
  trial (ok facts, w) = (none, w)
  trial (err e, w) = (some (I18n.err_with env.active I18n.err_gh_collector_fetch_repo e), w)

  trial_of : Result Error (String × String) → W → Option Error × W
  unfolding trial
  trial_of (err e) w = (some e, w)
  trial_of (ok (owner, repo)) w = trial (env.github.get_repo owner repo w)

  self_tested : List String → W → Option Error × W
  unfolding trial_of
  self_tested [] w = (some (I18n.get env.active I18n.err_gh_collector_no_repos), w)
  self_tested (r ∷ rs) w = trial_of (parse_repo (bad_repo env.active) r) w

  unfoldable pub self_test : W → Option Error × W
  unfolding self_tested
  self_test w = self_tested env.cfg.repositories w

  repo_collected-err :
      (full_name : String) (p : Option Error × State W) (c : Cycle W)
      → (repo_collected env full_name p c).cycle_err ≡ none
      → c.cycle_err ≡ none
  unfolding repo_collected
  repo_collected-err full_name (none, s) c h = h
  repo_collected-err full_name (some e, s) c h = ground arith

  locked-err :
      (full_name owner repo : String) (p : Bool × State W) (c : Cycle W)
      → (locked env full_name owner repo p c).cycle_err ≡ none
      → c.cycle_err ≡ none
  unfolding locked
  locked-err full_name owner repo (false, s) c h = h
  locked-err full_name owner repo (true, s) c h =
      repo_collected-err full_name (collect_repo env owner repo s) c h

  parsed-err :
      (full_name : String) (p : Result Error (String × String)) (c : Cycle W)
      → (parsed env full_name p c).cycle_err ≡ none
      → (is_ok p ≡ true) × (c.cycle_err ≡ none)
  unfolding parsed
  parsed-err full_name (err e) c h = ground arith
  parsed-err full_name (ok (owner, repo)) c h =
      (refl, locked-err full_name owner repo (try_lock env full_name c.state) c h)

  collect_each-err :
      (repos : List String) (c : Cycle W)
      → (collect_each env repos c).cycle_err ≡ none
      → (all (is_valid env) repos ≡ true) × (c.cycle_err ≡ none)
  unfolding collect_each collect_one
  collect_each-err [] c h = (refl, h)
  collect_each-err (r ∷ repos) c h =
      let (v, e) = collect_each-err repos (collect_one env r c) h in
      let (p, q) = parsed-err r (parse_repo (bad_repo env.active) r) c e in (ground arith, q)

  -- After a cycle of a running loop the collector's `Ping` answers nil only if every configured
  -- repository name is valid.
  pub ping-valid :
      (i : ℕ) (c : CollectorService W)
      → any (λ j. j == i) c.loops ≡ true
      → ping (tick i c) ≡ none
      → all (is_valid env) env.cfg.repositories ≡ true
  unfolding ping tick collect loop
  ping-valid i c h q =
      let begun : Cycle W = record { collected = []; cycle_err = none; state = c.state } in
      (collect_each-err env.cfg.repositories begun (ground arith)).0
