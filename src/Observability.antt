-- ===== src/Observability.antt =====
-- app/observability: the counters of the workers, shared through Redis.
pub mod Metrics
pub mod Gauges
