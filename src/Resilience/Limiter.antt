-- ===== src/Resilience/Limiter.antt =====
-- src/resilience/limiter.ts, the token bucket. The source keeps fractional tokens; here `tokens`
-- counts 60000ths of a token, so that a millisecond refills exactly `rpm` of them. A balance is an
-- integer: a clock that is set back takes tokens away. Times are milliseconds.
pub mod Rate
use vibe_ai_router.Common.{
  ℕ, ◌+◌, ◌-◌, ◌*◌, ◌/◌, max, String, Bool, not, Option, none, some, List, [], ◌∷◌, leb, ltb,
  str_eq, is_some, suc, ◌&&◌, ◌or_else◌, if◌then◌else◌,
}
use vibe_ai_router.Common.Int.{ℤ, pos, pos_part, neg_part, sub_ℕ, ◌+ℤ◌, ◌-ℤ◌, ltb_ℤ, min_ℤ}
use vibe_ai_router.Common.Dict
use vibe_ai_router.Common.Dict.{Dict}

pub record Bucket : Type 0 where
  pub tokens : ℤ
  pub updated_at : ℕ

pub record RateLimiter : Type 0 where
  pub rpm : ℕ
  pub burst : ℕ
  pub buckets : Dict Bucket

-- One token, in the unit of `tokens`.
abbrev pub one_token : ℕ
one_token = 60000

-- The constructor, with the default burst.
abbrev pub new_limiter : ℕ → RateLimiter
new_limiter rpm = record { rpm = rpm; burst = max 5 (rpm / 4); buckets = [] }

-- `(now - b.updatedAt) * rpm`, which is negative if the clock was set back.
abbrev pub refill : ℕ → ℕ → ℕ → ℤ
refill rpm now updated_at = sub_ℕ (now * rpm) (updated_at * rpm)

-- The bucket of a key; a new key starts with a full one.
abbrev pub bucket_of : RateLimiter → String → ℕ → Bucket
bucket_of l key now =
    Dict.get key l.buckets or_else record { tokens = pos (l.burst * one_token); updated_at = now }

-- A balance with what was added to it, up to the capacity.
unfoldable pub top_up : ℕ → ℤ → ℤ → ℤ
top_up capacity tokens added = min_ℤ (pos capacity) (tokens +ℤ added)

-- The bucket after its refill.
unfoldable pub refilled : RateLimiter → String → ℕ → Bucket
refilled l key now =
    let b = bucket_of l key now in
    record {
      tokens = top_up (l.burst * one_token) b.tokens (refill l.rpm now b.updated_at);
      updated_at = now;
    }

-- Seconds until one token is there: ⌈(1 - tokens) / refillPerMs / 1000⌉.
unfoldable pub wait_seconds : ℕ → ℤ → ℕ
wait_seconds rpm tokens =
    let missing = one_token + neg_part tokens - pos_part tokens in
    (missing + (rpm * 1000 - 1)) / (rpm * 1000)

-- `take`: `none` when admitted, else the seconds to wait.
unfoldable pub take : String → ℕ → RateLimiter → RateLimiter × Option ℕ
take key now l =
    if leb l.rpm 0
    then (l, none)
    else let b = refilled l key now in
      if not (ltb_ℤ b.tokens (pos one_token))
      then (
        record l {
          buckets = Dict.put key (record b { tokens = b.tokens -ℤ pos one_token }) l.buckets;
        },
        none,
      )
      else (record l { buckets = Dict.put key b l.buckets }, some (wait_seconds l.rpm b.tokens))

unfoldable pub keep_recent : ℕ → ℕ → Dict Bucket → Dict Bucket
keep_recent max_idle_ms now [] = []
keep_recent max_idle_ms now ((k, b) ∷ m) =
    let rest = keep_recent max_idle_ms now m in
    if ltb (b.updated_at + max_idle_ms) now then rest else (k, b) ∷ rest

-- `prune`: forgets the buckets that were idle for longer than `max_idle_ms`.
unfoldable pub prune : ℕ → ℕ → RateLimiter → RateLimiter
prune max_idle_ms now l = record l { buckets = keep_recent max_idle_ms now l.buckets }

-- The calls of `take` for one key that are admitted, in a run of calls for any keys.
unfoldable pub admitted : String → List (String × ℕ) → RateLimiter → ℕ
admitted key [] l = 0
admitted key ((k, now) ∷ calls) l =
    let rest = admitted key calls (take k now l).0 in
    if str_eq k key && not (is_some (take k now l).1) then suc rest else rest
