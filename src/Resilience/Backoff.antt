-- ===== src/Resilience/Backoff.antt =====
-- src/resilience/backoff.ts: the delay before a retry, in milliseconds. `rand` stands for
-- `rand() * 250`, the jitter that the random generator gives.
use vibe_ai_router.Common.{ℕ, ◌+◌, ◌*◌, ◌^◌, min, Option, none, some}

abbrev pub max_retries : ℕ
max_retries = 2

unfoldable pub retry_delay_ms : ℕ → Option ℕ → ℕ → ℕ
retry_delay_ms attempt (some retry_after_seconds) rand = min (retry_after_seconds * 1000) 30000
retry_delay_ms attempt none rand = min (250 * 2 ^ attempt + rand) 4000
