-- ===== src/Collector.antt =====
-- internal/services/github_collector.go, and what its cycle does to the metrics. The GitHub client,
-- the PostgreSQL pool and ValKey are parameters that act on the world; log lines are not modelled.
pub mod Repo
pub mod Types
pub mod Jobs
pub mod Runs
pub mod Cycle
pub mod Service
pub mod Gauges
pub mod Stale
pub mod Locking
