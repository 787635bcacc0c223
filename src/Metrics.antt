-- ===== src/Metrics.antt =====
-- internal/metrics/service.go: the metrics service.
pub mod Queries
pub mod Samples
pub mod Service
