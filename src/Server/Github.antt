-- ===== src/Server/Github.antt =====
-- internal/server/github.go: the handlers under /api/github. `V` is the type of GitHub's values,
-- which the handlers write as JSON; the client of the API, which the provider may change between
-- calls, acts on the world `W`, and `clock` reads `time.Now()` there.
use scuffinger.Prelude.{
  ℕ, zero, suc, String, ℕ_eq, Option, none, some, List, [], ◌++◌, ◌==◌, length, if◌then◌else◌,
}
use scuffinger.Prelude.Int.{ℤ, sub_ℕ}
use scuffinger.Prelude.Result.{Result, ok, err}
use scuffinger.I18n
use scuffinger.I18n.{Key, Messages}
use scuffinger.Metrics.Github.{ApiMetrics, observe_github_call, set_github_rate_limit}
use scuffinger.Server.Debug.Numbers.{atoi}

-- an error with its text: a `*github.ErrorResponse` with the status of the response, or another
pub data GithubError : Type 0 where
  error_response : ℕ → String → GithubError
  other_error : String → GithubError

abbrev pub details : GithubError → String
details (error_response status text) = text
details (other_error text) = text

-- a page of a listing with `NextPage`
abbrev pub PageOf : Type 0 → Type 0
PageOf V = Result GithubError (List V × ℕ)

pub record Api (V W : Type 0) : Type 0 where
  pub users_get : String → W → Result GithubError V × W
  pub orgs_get : String → W → Result GithubError V × W
  pub repos_get : String → String → W → Result GithubError V × W
  pub list_branches : String → String → ℕ → W → PageOf V × W
  pub list_workflows : String → String → ℕ → W → PageOf V × W
  pub list_runs : String → String → ℤ → ℕ → W → PageOf V × W
  pub rate_limit : W → Result GithubError V × W
  pub core_remaining : V → ℤ
  pub clock : W → ℕ

-- status 200 with a value or a list, or a status with an error and its details
pub data Response (V : Type 0) : Type 0 where
  value : V → Response V
  listing : ℕ → List V → Response V
  failure : ℕ → String → String → Response V

-- what a handler reads and writes
pub record Serving (W : Type 0) : Type 0 where
  pub metrics : ApiMetrics
  pub world : W

module _ {V W : Type 0} (active : Messages) (api : Api V W) where
  -- `ghError`
  unfoldable pub gh_error : Key → GithubError → Response V
  gh_error key (error_response status text) = failure status (I18n.get active key) text
  gh_error key (other_error text) = failure 502 (I18n.get active key) text

  -- `ObserveGitHubCall` with the time since `start`
  unfoldable pub observed : String → ℕ → Option GithubError → W → ApiMetrics → ApiMetrics
  unfolding observe_github_call
  observed endpoint start none w m = observe_github_call endpoint (sub_ℕ (api.clock w) start) none m
  observed endpoint start (some e) w m =
      observe_github_call endpoint (sub_ℕ (api.clock w) start) (some (details e)) m

  value_found : String → Key → ℕ → ApiMetrics → Result GithubError V × W → Response V × Serving W
  unfolding observed gh_error
  value_found endpoint key start m (err e, w) =
      (gh_error key e, record { metrics = observed endpoint start (some e) w m; world = w })
  value_found endpoint key start m (ok v, w) =
      (value v, record { metrics = observed endpoint start none w m; world = w })

  -- a handler that makes one call
  unfoldable pub fetch_one :
      String → Key → (W → Result GithubError V × W) → Serving W → Response V × Serving W
  unfolding value_found
  fetch_one endpoint key call s =
      value_found endpoint key (api.clock s.world) s.metrics (call s.world)

  unfoldable pub get_user : String → Serving W → Response V × Serving W
  get_user username s = fetch_one "get_user" I18n.err_gh_fetch_user (api.users_get username) s

  unfoldable pub get_org : String → Serving W → Response V × Serving W
  get_org org s = fetch_one "get_org" I18n.err_gh_fetch_org (api.orgs_get org) s

  unfoldable pub get_repo : String → String → Serving W → Response V × Serving W
  get_repo owner repo s = fetch_one "get_repo" I18n.err_gh_fetch_repo (api.repos_get owner repo) s

  limits_answered : Response V × Serving W → Response V × Serving W
  unfolding set_github_rate_limit
  limits_answered (value v, s) =
      (value v, record s { metrics = set_github_rate_limit "api" (api.core_remaining v) s.metrics })
  limits_answered (listing n vs, s) = (listing n vs, s)
  limits_answered (failure status e d, s) = (failure status e d, s)

  unfoldable pub get_rate_limit : Serving W → Response V × Serving W
  unfolding limits_answered
  get_rate_limit s =
      limits_answered (fetch_one "get_rate_limit" I18n.err_gh_fetch_rate_limit api.rate_limit s)

  -- one page, with the rest of the loop
  unfoldable pub page_found :
      String
      → Key
      → ℕ
      → List V
      → (ℕ → List V → W → Option (Response V × Serving W))
      → ApiMetrics
      → PageOf V × W
      → Option (Response V × Serving W)
  page_found endpoint key start all rest m (err e, w) =
      some (gh_error key e, record { metrics = observed endpoint start (some e) w m; world = w })
  page_found endpoint key start all rest m (ok (vs, next), w) =
      let vs' = all ++ vs in
      if next == 0
      then some (
        listing (length vs') vs',
        record { metrics = observed endpoint start none w m; world = w },
      )
      else rest next vs' w

  -- The loop over the pages; `none` is the end of the fuel.
  unfoldable pub fetch_pages :
      String
      → Key
      → (ℕ → W → PageOf V × W)
      → ℕ
      → ApiMetrics
      → ℕ
      → ℕ
      → List V
      → W
      → Option (Response V × Serving W)
  fetch_pages endpoint key call start m zero page all w = none
  fetch_pages endpoint key call start m (suc fuel) page all w =
      page_found endpoint key start all (fetch_pages endpoint key call start m fuel) m (call page w)

  -- a handler that lists; the first request leaves the page at 0
  unfoldable pub fetch_all :
      ℕ → String → Key → (ℕ → W → PageOf V × W) → Serving W → Option (Response V × Serving W)
  fetch_all fuel endpoint key call s =
      fetch_pages endpoint key call (api.clock s.world) s.metrics fuel 0 [] s.world

  unfoldable pub list_branches : ℕ → String → String → Serving W → Option (Response V × Serving W)
  list_branches fuel owner repo s =
      fetch_all fuel "list_branches" I18n.err_gh_fetch_branches (api.list_branches owner repo) s

  unfoldable pub list_workflows : ℕ → String → String → Serving W → Option (Response V × Serving W)
  list_workflows fuel owner repo s =
      fetch_all fuel "list_workflows" I18n.err_gh_fetch_workflows (api.list_workflows owner repo) s

  module _ (syntax_error : String → String) where
    runs_of : ℕ → String → String → String → Option ℤ → Serving W → Option (Response V × Serving W)
    runs_of fuel owner repo id none s =
        some (failure 400 (I18n.get active I18n.err_gh_invalid_workflow) (syntax_error id), s)
    runs_of fuel owner repo id (some n) s =
        fetch_all fuel "list_workflow_runs" I18n.err_gh_fetch_runs (api.list_runs owner repo n) s

    -- `syntax_error` is the text of the error of `strconv.ParseInt`
    unfoldable pub list_workflow_runs :
        ℕ → String → String → String → Serving W → Option (Response V × Serving W)
    unfolding runs_of
    list_workflow_runs fuel owner repo id s = runs_of fuel owner repo id (atoi id) s
