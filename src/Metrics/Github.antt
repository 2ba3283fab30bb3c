-- ===== src/Metrics/Github.antt =====
-- internal/metrics/github.go: calls of the GitHub API, and the rate limit of each credential.
use scuffinger.Prelude.{ℕ, String, Option, none, some, List, ◌∷◌, string_eq}
use scuffinger.Prelude.Int.{ℤ}
use scuffinger.Prelude.Map.{Map, insert}
use scuffinger.Metrics.Health.{inc}
use scuffinger.I18n.{Error}

-- the histogram is the list of its observations, the newest first
pub record ApiMetrics : Type 0 where
  pub calls : Map String ℕ
  pub errors : Map String ℕ
  pub durations : List (String × ℤ)
  pub rate_limit : Map String ℤ

unfoldable pub observe_github_call : String → ℤ → Option Error → ApiMetrics → ApiMetrics
unfolding inc
observe_github_call endpoint duration none m = record m {
  calls = inc endpoint m.calls;
  durations = (endpoint, duration) ∷ m.durations;
}
observe_github_call endpoint duration (some e) m = record m {
  calls = inc endpoint m.calls;
  durations = (endpoint, duration) ∷ m.durations;
  errors = inc endpoint m.errors;
}

unfoldable pub set_github_rate_limit : String → ℤ → ApiMetrics → ApiMetrics
set_github_rate_limit credential remaining m = record m {
  rate_limit = insert credential remaining m.rate_limit;
}
