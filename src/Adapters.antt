-- ===== src/Adapters.antt =====
-- The adapters of src/adapters.
pub mod Anthropic
pub mod OpenAi
