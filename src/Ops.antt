-- ===== src/Ops.antt =====
-- src/ops: the response cache.
pub mod Cache
