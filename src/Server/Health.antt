-- ===== src/Server/Health.antt =====
-- internal/server/health.go
use scuffinger.Prelude.{
  ℕ, String, ◌≡◌, refl, Bool, true, false, Option, none, some, [], ◌∷◌, arith, string_eq, eq_iff,
  if◌then◌else◌,
}
use scuffinger.Prelude.Map.{Map, lookup, lookup-insert, IsUnique}
use scuffinger.Metrics.Health.{HealthMetrics, set_overall_health, set_service_health, gauge}
use scuffinger.Manager.{ServiceStatus, is_healthy, snapshot}
use scuffinger.Manager.Health.{snapshot-lookup, healthy_of}

-- the body of a health response
pub record HealthBody : Type 0 where
  pub status : String
  pub services : Map String Bool

pub record Response : Type 0 where
  pub code : ℕ
  pub body : HealthBody

-- the loop over `Statuses()` that sets the gauges
unfoldable pub set_gauges : Map String Bool → HealthMetrics → HealthMetrics
unfolding set_service_health
set_gauges [] h = h
set_gauges ((name, healthy) ∷ m) h = set_gauges m (set_service_health name healthy h)

-- `safeStatuses`: a nil checker has no statuses
unfoldable pub safe_statuses : Option (Map String ServiceStatus) → Map String Bool
safe_statuses none = []
safe_statuses (some m) = snapshot m

checker_healthy : Option (Map String ServiceStatus) → Bool
checker_healthy none = false
checker_healthy (some m) = is_healthy m

-- `ReadyHandler`, on the statuses of the checker; `none` is a nil checker
unfoldable pub ready_handler :
    Option (Map String ServiceStatus) → HealthMetrics → Response × HealthMetrics
unfolding checker_healthy set_gauges set_overall_health safe_statuses
ready_handler hc h =
    if checker_healthy hc
    then (
      record { code = 200; body = record { status = "ok"; services = safe_statuses hc } },
      set_gauges (safe_statuses hc) (set_overall_health true h),
    )
    else (
      record { code = 503; body = record { status = "unavailable"; services = safe_statuses hc } },
      set_gauges (safe_statuses hc) (set_overall_health false h),
    )

abbrev pub or_else {ℓ} : {A : Type ℓ} → Option A → Option A → Option A
or_else none o = o
or_else (some a) o = some a

abbrev pub gauge_of : Option Bool → Option ℕ
gauge_of none = none
gauge_of (some b) = some (gauge b)

set_gauges-lookup :
    (m : Map String Bool) (h : HealthMetrics) (n : String)
    → IsUnique m
    → lookup n (set_gauges m h).service_status
      ≡ or_else (gauge_of (lookup n m)) (lookup n h.service_status)
unfolding set_gauges set_service_health lookup
set_gauges-lookup [] h n u = refl
set_gauges-lookup ((k, b) ∷ m) h n (fresh, u) = ground (
  arith,
  set_gauges-lookup m (set_service_health k b h) n u,
  eq_iff k n,
  lookup-insert k n (gauge b) h.service_status,
)

set_gauges-status : (m : Map String Bool) (h : HealthMetrics) → (set_gauges m h).status ≡ h.status
unfolding set_gauges set_service_health
set_gauges-status [] h = refl
set_gauges-status ((k, b) ∷ m) h = set_gauges-status m (set_service_health k b h)

snapshot-IsUnique : (m : Map String ServiceStatus) → IsUnique m → IsUnique (snapshot m)
unfolding snapshot
snapshot-IsUnique [] u = tt
snapshot-IsUnique ((k, st) ∷ m) (fresh, u) =
    (ground (arith, snapshot-lookup m k), snapshot-IsUnique m u)

-- For unique status names, the readiness handler answers 200 exactly when `IsHealthy` is true and
-- 503 otherwise, sets the overall gauge to match, gives the statuses as its body, and sets the
-- gauge of each service that has a status to it, leaving the other gauges.
pub ready_handler-agrees :
    (m : Map String ServiceStatus) (h : HealthMetrics)
    → IsUnique m
    → ((ready_handler (some m) h).0.code ≡ (if is_healthy m then 200 else 503))
      × ((ready_handler (some m) h).1.status ≡ gauge (is_healthy m))
      × ((n : String)
          → lookup n (ready_handler (some m) h).0.body.services ≡ healthy_of (lookup n m))
      × ((n : String)
          → lookup n (ready_handler (some m) h).1.service_status
            ≡ or_else (gauge_of (healthy_of (lookup n m))) (lookup n h.service_status))
unfolding ready_handler
ready_handler-agrees m h u =
    let up = set_overall_health true h in
    let down = set_overall_health false h in
    let su = snapshot-IsUnique m u in
    (
      ground arith,
      ground (arith, set_gauges-status (snapshot m) up, set_gauges-status (snapshot m) down),
      λ n. ground (arith, snapshot-lookup m n),
      λ n. ground (
        arith,
        set_gauges-lookup (snapshot m) up n su,
        set_gauges-lookup (snapshot m) down n su,
        snapshot-lookup m n,
      ),
    )
