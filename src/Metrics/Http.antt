-- ===== src/Metrics/Http.antt =====
-- internal/metrics/http.go: the middleware around every request. `c.Next()` is a parameter, which
-- runs while other requests change the same metrics, and which may panic; `gin.Recovery`, which
-- `NewRouter` puts in front of the middleware, catches a panic only behind it.
pub mod Flight
use scuffinger.Prelude.{
  ℕ, ◌-◌, String, List, [], ◌∷◌, ◌==◌, string_eq, list_eq, if◌then◌else◌, decimal,
}
use scuffinger.Prelude.Int.{ℤ, pos, negsuc, ◌+ℤ◌, sub_ℕ}
use scuffinger.Prelude.Map.{Map}
use scuffinger.Metrics.Health.{inc}

-- the gauge, the counter, and the histogram as the list of its observations, the newest first
pub record HttpMetrics : Type 0 where
  pub in_flight : ℤ
  pub requests : Map (List String) ℕ
  pub durations : List (List String × ℤ)

-- what the middleware reads when the handlers have returned
pub record Served : Type 0 where
  pub method : String
  pub full_path : String
  pub status : ℕ

pub data Outcome : Type 0 where
  returned : Served → Outcome
  panicked : Outcome

-- the label of a route, "unmatched" where no route was found
unfoldable pub path_label : String → String
path_label full_path = if full_path == "" then "unmatched" else full_path

-- in front of `c.Next()`
unfoldable pub enter : HttpMetrics → HttpMetrics
enter m = record m { in_flight = m.in_flight +ℤ pos 1 }

-- behind `c.Next()`
unfoldable pub leave : ℤ → Served → HttpMetrics → HttpMetrics
unfolding path_label
leave duration r m = record {
  in_flight = m.in_flight +ℤ negsuc 0;
  requests = inc (r.method ∷ path_label r.full_path ∷ decimal r.status ∷ []) m.requests;
  durations = (r.method ∷ path_label r.full_path ∷ [], duration) ∷ m.durations;
}

module _ {W : Type 0} (clock : W → ℕ) where
  unfoldable pub after_next : ℕ → Outcome × HttpMetrics × W → Outcome × HttpMetrics × W
  unfolding leave
  after_next start (returned r, m, w) = (returned r, leave (sub_ℕ (clock w) start) r m, w)
  after_next start (panicked, m, w) = (panicked, m, w)

  unfoldable pub gin_middleware :
      (HttpMetrics → W → Outcome × HttpMetrics × W) → HttpMetrics → W → Outcome × HttpMetrics × W
  unfolding after_next enter
  gin_middleware next m w = after_next (clock w) (next (enter m) w)
