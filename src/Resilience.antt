-- ===== src/Resilience.antt =====
-- src/resilience: what keeps one provider's trouble from becoming the gateway's.
pub mod Breaker
pub mod Limiter
pub mod Shed
pub mod Backoff
pub mod Executor
