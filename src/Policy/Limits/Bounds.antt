-- ===== src/Policy/Limits/Bounds.antt =====
-- The limits hold of what is sent.
use vibe_ai_router.Common.{ℕ, ◌≤◌, ◌<◌, ◌≡◌, ◌⊎◌, Option, none, some, arith}
use vibe_ai_router.Db.{ModelRow}
use vibe_ai_router.Gateway.Envelope.{AiRequest}
use vibe_ai_router.Policy.Violation.{EffectivePolicy}
use vibe_ai_router.Policy.Limits.{clamp_to_model, token_cap, apply_limits}

-- A number within an optional bound.
abbrev pub IsAtMost : Option ℕ → ℕ → Type 0
IsAtMost none n = Unit
IsAtMost (some bound) n = n ≤ bound

abbrev pub IsAtLeast : Option ℕ → ℕ → Type 0
IsAtLeast none n = Unit
IsAtLeast (some bound) n = bound ≤ n

-- The two are set alike, and the first asks for no more.
abbrev pub IsNoMore : Option ℕ → Option ℕ → Type 0
IsNoMore none none = Unit
IsNoMore (some n) (some m) = n ≤ m
IsNoMore none (some m) = ⊥
IsNoMore (some n) none = ⊥

abbrev pub IsWithin : ℕ → Option ℕ → Type 0
IsWithin bound none = Unit
IsWithin bound (some n) = n ≤ bound

-- For a model with a positive ceiling, a clamped request asks for no more than before and for no
-- more than the ceiling, and a second clamp changes nothing.
pub clamp_to_model_lem :
    (env : AiRequest) (model : ModelRow) (ceiling : ℕ)
    → model.max_output ≡ some ceiling
    → 0 < ceiling
    → IsNoMore (clamp_to_model env model).max_tokens env.max_tokens
      × IsWithin ceiling (clamp_to_model env model).max_tokens
      × (clamp_to_model (clamp_to_model env model) model ≡ clamp_to_model env model)
unfolding clamp_to_model
clamp_to_model_lem env model ceiling e h = (ground arith, ground arith, ground arith)

-- A request that asks for no more than the model's ceiling is not changed by the clamp, nor is any
-- request by a model that has no ceiling.
pub clamp_to_model_fits :
    (env : AiRequest) (model : ModelRow)
    → ((n : ℕ) × (env.max_tokens ≡ some n) × IsAtMost model.max_output n)
      ⊎ (model.max_output ≡ none)
    → clamp_to_model env model ≡ env
unfolding clamp_to_model
clamp_to_model_fits env model h = ground arith

-- The tokens are set, to at most the cap and at most what was asked.
abbrev pub IsCapped : ℕ → Option ℕ → Option ℕ → Type 0
IsCapped cap asked none = ⊥
IsCapped cap asked (some n) = (n ≤ cap) × IsAtMost asked n

-- A temperature is set exactly if one was asked, and lies in the ranges of the policy and the firm.
abbrev pub IsTempered : EffectivePolicy → Option ℕ → Option ℕ → Type 0
IsTempered effective none none = Unit
IsTempered effective (some asked) (some t) =
    IsAtLeast effective.policy.temperature_min t
    × IsAtMost effective.policy.temperature_max t
    × IsAtMost effective.firm_settings.global_temperature_max t
IsTempered effective none (some t) = ⊥
IsTempered effective (some asked) none = ⊥

-- The policy's least temperature is below its greatest and the firm's.
abbrev pub HasRange : EffectivePolicy → Option ℕ → Type 0
HasRange effective none = Unit
HasRange effective (some lo) =
    IsAtMost effective.policy.temperature_max lo
    × IsAtMost effective.firm_settings.global_temperature_max lo

-- After the limits are applied the tokens are set, to at most the cap of the class or policy and at
-- most what was asked; and if the policy's least temperature exceeds neither greatest one, a
-- temperature is set exactly if one was asked, and lies in the ranges of the policy and the firm.
pub apply_limits_bounds :
    (effective : EffectivePolicy) (env : AiRequest)
    → HasRange effective effective.policy.temperature_min
    → IsCapped (token_cap effective) env.max_tokens (apply_limits effective env).max_tokens
      × IsTempered effective env.temperature (apply_limits effective env).temperature
unfolding apply_limits
apply_limits_bounds effective env h = (ground arith, ground arith)
