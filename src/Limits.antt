-- ===== src/Limits.antt =====
-- Process-local limits: apps/api/src/middleware/rate-limit.ts with
-- apps/api/src/config/rate-limits.ts, and apps/worker/src/adapters/concurrency-limiter.ts.
pub mod TokenBucket
pub mod Concurrency
