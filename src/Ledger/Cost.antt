-- ===== src/Ledger/Cost.antt =====
-- src/ledger/cost.ts. A price is in millionths of a dollar for a million tokens, so that tokens times
-- price is an amount of 10^-10 cents; the six decimals that the source prints are not modelled.
pub mod Bounds
use vibe_ai_router.Common.{
  ℕ, ◌+◌, ◌-◌, ◌*◌, Bool, true, false, ◌&&◌, ◌||◌, Option, none, some, ◌or_else◌, leb, not, is_some,
  if◌then◌else◌,
}
use vibe_ai_router.Common.Int.{ℤ, sub_ℕ}

pub record AiUsage : Type 0 where
  pub prompt_tokens : ℕ
  pub completion_tokens : ℕ
  pub cached_read_tokens : ℕ
  pub cache_write_tokens : ℕ

pub record PricingRow : Type 0 where
  pub input_per_mtok : Option ℕ
  pub output_per_mtok : Option ℕ
  pub cache_read_per_mtok : Option ℕ
  pub cache_write_per_mtok : Option ℕ

pub record CostResult : Type 0 where
  pub cost : Option ℕ
  pub cost_unknown : Bool
  pub cache_savings : Option ℤ

unfoldable pub cents_for : ℕ → Option ℕ → Option ℕ
cents_for tokens none = none
cents_for tokens (some per_mtok) = some (tokens * per_mtok)

-- `a ?? b` where `b` may be null itself.
abbrev pub fallback : Option ℕ → Option ℕ → Option ℕ
fallback none rate = rate
fallback (some r) rate = some r

abbrev pub read_rate : PricingRow → Option ℕ
read_rate p = fallback p.cache_read_per_mtok p.input_per_mtok

abbrev pub write_rate : PricingRow → Option ℕ
write_rate p = fallback p.cache_write_per_mtok p.input_per_mtok

abbrev pub unknown_cost : CostResult
unknown_cost = record { cost = none; cost_unknown = true; cache_savings = none }

-- Tokens that have no price.
abbrev pub is_unpriced : ℕ → Option ℕ → Bool
is_unpriced tokens cents = leb 1 tokens && not (is_some cents)

unfoldable pub savings : ℕ → Option ℕ → Option ℕ → Option ℤ
savings tokens (some input) (some read) =
    if leb 1 tokens then some (sub_ℕ (tokens * input) (tokens * read)) else none
savings tokens _ _ = none

unfoldable pub priced_cost : AiUsage → PricingRow → CostResult
priced_cost usage pricing =
    let input = cents_for usage.prompt_tokens pricing.input_per_mtok in
    let output = cents_for usage.completion_tokens pricing.output_per_mtok in
    let cache_read = cents_for usage.cached_read_tokens (read_rate pricing) in
    let cache_write = cents_for usage.cache_write_tokens (write_rate pricing) in
    if is_unpriced usage.prompt_tokens input
      || is_unpriced usage.completion_tokens output
      || is_unpriced usage.cached_read_tokens cache_read
      || is_unpriced usage.cache_write_tokens cache_write
    then unknown_cost
    else record {
      cost = some (
          (input or_else 0)
          + (output or_else 0)
          + (cache_read or_else 0)
          + (cache_write or_else 0));
      cost_unknown = false;
      cache_savings =
          savings usage.cached_read_tokens pricing.input_per_mtok pricing.cache_read_per_mtok;
    }

unfoldable pub compute_cost : AiUsage → Option PricingRow → CostResult
compute_cost usage none =
    if leb 1 (
      usage.prompt_tokens + usage.completion_tokens + usage.cached_read_tokens
      + usage.cache_write_tokens)
    then unknown_cost
    else record { cost = some 0; cost_unknown = false; cache_savings = none }
compute_cost usage (some pricing) = priced_cost usage pricing
