-- ===== src/Jobs.antt =====
-- packages/jobs: the standing jobs of a tenant, and the breaker that stops a storm of Redis errors.
pub mod Cadence
pub mod Breaker
pub mod Sync
