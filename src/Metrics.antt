-- ===== src/Metrics.antt =====
-- internal/metrics: gauges and counters. A gauge or counter vector of the Prometheus client is a
-- map from label values to the sample of that series; a label tuple is the list of its values.
pub mod Health
pub mod Vec
pub mod Workflow
pub mod Github
pub mod Http
pub mod Counters
