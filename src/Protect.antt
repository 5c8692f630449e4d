-- ===== src/Protect.antt =====
-- src/protect: the scrubber of protected data.
pub mod Pattern
pub mod Scan
pub mod Redact
pub mod Envelope
