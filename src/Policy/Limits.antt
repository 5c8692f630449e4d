-- ===== src/Policy/Limits.antt =====
-- src/policy/engine.ts: the role gate, and the limits on what a request may ask of a model.
pub mod Bounds
use vibe_ai_router.Common.{
  ℕ, min, max, Bool, true, false, Option, none, some, ◌or_else◌, leb, if◌then◌else◌,
}
use vibe_ai_router.Db.{ModelRow}
use vibe_ai_router.Gateway.Errors.{Result, ok, err, router_error, policy_blocked}
use vibe_ai_router.Gateway.Envelope.{UserRole, AiRequest}
use vibe_ai_router.Policy.Violation.{EffectivePolicy}

-- `checkRole` on the rule of the role.
abbrev gate : Option Bool → Result (Unit {0})
gate (some false) = err (router_error policy_blocked)
gate (some true) = ok tt
gate none = ok tt

unfoldable pub check_role : EffectivePolicy → Option UserRole → Result (Unit {0})
check_role effective none = ok tt
check_role effective (some role) = gate (effective.role_rules role)

-- `clampToModel`, on the two limits. A ceiling that is not positive is no ceiling.
abbrev clamp_tokens : Option ℕ → Option ℕ → Option ℕ
clamp_tokens none requested = requested
clamp_tokens (some limit) none = none
clamp_tokens (some limit) (some n) =
    if leb limit 0 then some n else if leb n limit then some n else some limit

unfoldable pub clamp_to_model : AiRequest → ModelRow → AiRequest
clamp_to_model env model = record env { max_tokens = clamp_tokens model.max_output env.max_tokens }

-- Lowers to a maximum, if there is one.
abbrev at_most : Option ℕ → ℕ → ℕ
at_most none t = t
at_most (some m) t = min t m

abbrev at_least : Option ℕ → ℕ → ℕ
at_least none t = t
at_least (some m) t = max t m

abbrev clamp_temperature : EffectivePolicy → Option ℕ → Option ℕ
clamp_temperature effective none = none
clamp_temperature effective (some t) = some (
    at_least effective.policy.temperature_min (
      at_most effective.firm_settings.global_temperature_max
        (at_most effective.policy.temperature_max t)))

abbrev pub token_cap : EffectivePolicy → ℕ
token_cap effective =
    effective.policy.max_tokens_override or_else effective.task_class.default_max_tokens

unfoldable pub apply_limits : EffectivePolicy → AiRequest → AiRequest
apply_limits effective env = record env {
  max_tokens = some (min (env.max_tokens or_else token_cap effective) (token_cap effective));
  temperature = clamp_temperature effective env.temperature;
}
