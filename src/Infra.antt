-- ===== src/Infra.antt =====
-- app/infra: the rate limiter and the idempotency records.
pub mod RateLimit
pub mod Idempotency
