-- ===== src/Metrics/Counters.antt =====
-- internal/metrics/logging.go, cache.go and uptime.go: counters of log messages and of cache hits,
-- and the start time from which the uptime is reckoned.
use scuffinger.Prelude.{ℕ, String, string_eq, list_eq, List, [], ◌∷◌}
use scuffinger.Prelude.Int.{ℤ, sub_ℕ}
use scuffinger.Prelude.Map.{Map}
use scuffinger.Metrics.Health.{inc}

abbrev pub LogMessages : Type 0
LogMessages = Map String ℕ

unfoldable pub inc_log_message : String → LogMessages → LogMessages
inc_log_message level m = inc level m

-- series by tier and resource
pub record CacheMetrics : Type 0 where
  pub hits : Map (List String) ℕ
  pub misses : Map (List String) ℕ

unfoldable pub record_cache_hit : String → String → CacheMetrics → CacheMetrics
record_cache_hit tier resource m = record m { hits = inc (tier ∷ resource ∷ []) m.hits }

unfoldable pub record_cache_miss : String → String → CacheMetrics → CacheMetrics
record_cache_miss tier resource m = record m { misses = inc (tier ∷ resource ∷ []) m.misses }

module _ {W : Type 0} (clock : W → ℕ) where
  -- the new start time, in nanoseconds
  unfoldable pub record_start_time : W → ℕ
  record_start_time w = clock w

  unfoldable pub uptime : ℕ → W → ℤ
  uptime start_time w = sub_ℕ (clock w) start_time
