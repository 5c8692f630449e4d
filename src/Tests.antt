-- ===== src/Tests.antt =====
-- The theorems at concrete inputs, and runs of the code.
pub mod Sample
pub mod Resilience
pub mod Execution
pub mod Policy
pub mod Edges
pub mod Ledger
pub mod Engine
pub mod Scrubbing
pub mod Protect
pub mod Verify
pub mod Streaming
pub mod Adapters
pub mod Auth
