-- ===== src/Metrics/Health.antt =====
-- internal/metrics/health.go and services.go
use scuffinger.Prelude.{
  string_eq, ℕ, ◌+◌, String, Bool, Option, none, some, [], ◌∷◌, Eq, ◌≡◌, arith, if◌then◌else◌,
}
use scuffinger.Prelude.Map.{Map, lookup, insert}

-- the four health metrics of the process
pub record HealthMetrics : Type 0 where
  pub status : ℕ
  pub service_status : Map String ℕ
  pub checks : Map String ℕ
  pub failures : Map String ℕ

value_or_zero : Option ℕ → ℕ
value_or_zero none = 0
value_or_zero (some n) = n

-- `WithLabelValues(label).Inc()`: a series that is not there begins at 0
unfoldable pub inc {ℓ} : {K : Type ℓ} ⦃e : Eq K⦄ → K → Map K ℕ → Map K ℕ
unfolding value_or_zero
inc label m = insert label (value_or_zero (lookup label m) + 1) m

-- the sum of all series of a counter
abbrev pub total {ℓ} : {K : Type ℓ} → Map K ℕ → ℕ
total [] = 0
total ((k, n) ∷ m) = n + total m

-- An increment counts once, whichever series it is of.
pub total-inc {ℓ} :
    {K : Type ℓ} ⦃e : Eq K⦄ (label : K) (m : Map K ℕ) → total (inc label m) ≡ total m + 1
unfolding inc insert lookup
total-inc label [] = omega arith
total-inc label ((k, n) ∷ m) = ground (arith, total-inc label m)

-- 1 for healthy, 0 for not
abbrev pub gauge : Bool → ℕ
gauge healthy = if healthy then 1 else 0

unfoldable pub set_overall_health : Bool → HealthMetrics → HealthMetrics
set_overall_health healthy m = record m { status = gauge healthy }

unfoldable pub set_service_health : String → Bool → HealthMetrics → HealthMetrics
set_service_health name healthy m = record m {
  service_status = insert name (gauge healthy) m.service_status;
}

unfoldable pub inc_health_check : String → HealthMetrics → HealthMetrics
inc_health_check name m = record m { checks = inc name m.checks }

unfoldable pub inc_health_check_failure : String → HealthMetrics → HealthMetrics
inc_health_check_failure name m = record m { failures = inc name m.failures }
