-- ===== src/Policy.antt =====
-- src/policy: which model may serve a request, and within which limits.
pub mod Violation
pub mod Select
pub mod Limits
pub mod Engine
